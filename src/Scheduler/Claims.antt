-- ===== src/Scheduler/Claims.antt =====
-- ConcurrencySkip: no second run of a schedule while one is in flight.
use lebro.Common.{
  ℕ, ◌≡◌, refl, String, Bool, true, false, Option, none, some, List, [], ◌∷◌, arith, str_eq, eq_iff,
  ℤ, if◌then◌else◌,
}
use lebro.Cron.{CronSchedule, parse_cron_spec}
use lebro.Schedules.{ScheduleRecord, ScheduleExecutionRecord, ScheduleStore, StoreError}
use lebro.Scheduler.{
  Packages, State, Surroundings, TickResult, Fire, is_in_flight, clear_inflight, claim_inflight,
  normalized,
}
use lebro.Scheduler.Fires.{persist, report, advance, count_skipped}
use lebro.Scheduler.Ticks.{release, occurrences, fire_skip, fire_due, fire_schedule}

cleared : (id : String) (xs : List String) → is_in_flight id (clear_inflight id xs) ≡ false
unfolding is_in_flight clear_inflight
cleared id [] = refl
cleared id (x ∷ xs) = ground (arith, cleared id xs)

report_inflight :
    (n : ℕ) (records : List ScheduleExecutionRecord) (s : State) (r : TickResult)
    (o : ScheduleStore × Option StoreError)
    → (count_skipped (report n records s r o)).state.inflight ≡ s.inflight
report_inflight n records s r (t, none) = refl
report_inflight n records s r (t, some e) = refl

-- The same surroundings but for what a workflow does.
abbrev pub with_run :
    Surroundings → (ScheduleRecord → State → State × String × Option String) → Surroundings
with_run w run = record w { run = run }

-- In flight: the fire is the same for any workflow, and leaves the claims as they are. Else: the claim of the
-- schedule is gone after the fire.
abbrev pub Excludes : Bool → String → State → (fired fired' : Fire) → Type 0
Excludes true id s fired fired' = (fired ≡ fired') × (fired.state.inflight ≡ s.inflight)
Excludes false id s fired fired' = is_in_flight id fired.state.inflight ≡ false

module _ (os : Packages) (w : Surroundings)
    (run : ScheduleRecord → State → State × String × Option String) (now : ℕ)
    (schedule : ScheduleRecord) (s : State) (r : TickResult) where
  fire_skip-Excludes :
      (compiled : Option CronSchedule) (due : ℕ × List ScheduleExecutionRecord)
      → Excludes
          (is_in_flight schedule.id s.inflight)
          schedule.id
          s
          (fire_skip os w now schedule compiled due (claim_inflight schedule.id s.inflight) s r)
          (fire_skip os
            (with_run w run)
            now
            schedule
            compiled
            due
            (claim_inflight schedule.id s.inflight)
            s
            r)
  unfolding fire_skip claim_inflight advance persist release
  fire_skip-Excludes compiled (at, backlog) = go (is_in_flight schedule.id s.inflight)
    where
      claim : Bool → Option (List String)
      claim b = if b then none else some (schedule.id ∷ s.inflight)

      go :
          (b : Bool)
          → Excludes b schedule.id s
              (fire_skip os w now schedule compiled (at, backlog) (claim b) s r)
              (fire_skip os (with_run w run) now schedule compiled (at, backlog) (claim b) s r)
      go true = (refl, report_inflight _ _ s r _)
      go false = cleared schedule.id _

  -- A fire of a schedule under ConcurrencySkip that is no wakeup. If the schedule is in flight, the workflow
  -- has no part in the fire, which comes out the same whatever it would do, and the schedules in
  -- flight stay the same. If it is not, it is not in flight after the fire either, whatever the
  -- workflow does and whatever error the fire returns.
  pub fire_schedule-Excludes :
      (catch_up : ℤ)
      → schedule.wake_run_id ≡ ""
      → normalized schedule.concurrency ≡ "skip"
      → Excludes
          (is_in_flight schedule.id s.inflight)
          schedule.id
          s
          (fire_schedule os catch_up w now schedule s r)
          (fire_schedule os catch_up (with_run w run) now schedule s r)
  unfolding fire_schedule fire_due
  fire_schedule-Excludes catch_up e k =
      let compiled = parse_cron_spec os.parse_duration schedule.spec in
      let no_wakeup : str_eq schedule.wake_run_id "" ≡ true =
        ground (arith, eq_iff schedule.wake_run_id "", e) in
      let skips : str_eq (normalized schedule.concurrency) "skip" ≡ true =
        ground (arith, eq_iff (normalized schedule.concurrency) "skip", k) in
      rw (no_wakeup, skips)
        (fire_skip-Excludes compiled (occurrences os catch_up now schedule compiled))
