-- ===== src/Scheduler/Once.antt =====
-- fireSchedule and the loop of Tick: what is stored and counted.
use lebro.Common.{
  ℕ, ◌+◌, ◌<◌, ◌≡◌, refl, sym, subst, String, suc, Option, none, some, List, [], ◌∷◌, length, arith,
  Bool-cases, inl, inr, str_eq, ℤ,
}
use lebro.Cron.{parse_cron_spec}
use lebro.Cron.Time.{IsCalendar}
use lebro.Schedules.{ScheduleRecord}
use lebro.Scheduler.{Packages, State, Surroundings, TickResult, TickError, Fire}
use lebro.Scheduler.Ticks.{occurrences, fire_schedule, fire_all}
use lebro.Scheduler.Persisted.{OnError}
use lebro.Scheduler.Owned.{occurrences-Own}
use lebro.Scheduler.Settled.{Settled, CountsOne, FiresOnce}
use lebro.Scheduler.Counted.{fire_wakeup-FiresOnce, fire_due-FiresOnce}

-- As many executions as were fired, skipped or missed.
abbrev pub Balanced : TickResult → Type 0
Balanced r = length r.executions ≡ r.fired + r.skipped + r.missed

-- Every due schedule is fired or skipped if there is no error, not all of them if there is one.
abbrev pub FiresAll : ℕ → TickResult → Fire → Type 0
FiresAll due r f =
    Balanced f.result
    × OnError f.error (f.result.fired + f.result.skipped ≡ r.fired + r.skipped + due)
        (f.result.fired + f.result.skipped < r.fired + r.skipped + due)

-- A fire of the loop and what the loop does behind it.
then_rest :
    (now n : ℕ) (id : String) (r : TickResult) (f behind : Fire)
    → Balanced r
    → FiresOnce now id r f
    → (Balanced f.result → FiresAll n f.result behind)
    → FiresAll (suc n) r (elim f.error [ some _ ↦ f | none ↦ behind ])
then_rest now n id r f behind b once rest = go f.error refl once
  where
    go :
        (e : Option TickError)
        → f.error ≡ e
        → OnError e (Settled now id f.state × CountsOne r f.result) (f.result ≡ r)
        → FiresAll (suc n) r (elim f.error [ some _ ↦ f | none ↦ behind ])
    go none k (settled, (one, more)) =
        rw (k) (more_fired behind.error (rest (omega (arith, b, one, more))))
      where
        more_fired :
            (e : Option TickError)
            → FiresAll n f.result (record behind { error = e })
            → FiresAll (suc n) r (record behind { error = e })
        more_fired none (q, l) = (q, omega (arith, one))
        more_fired (some x) (q, l) = (q, omega (arith, one))
    go (some x) k same =
        rw (k, k)
          (
            subst (λ (t : TickResult). Balanced t) (sym same) b,
            subst (λ (t : TickResult). t.fired + t.skipped < r.fired + r.skipped + suc n) (sym same)
                (omega arith),
          )

module _ (os : Packages) (is_calendar : IsCalendar (os.calendar)) (catch_up : ℤ) (now : ℕ) where
  pub fire_schedule-FiresOnce :
      (w : Surroundings) (schedule : ScheduleRecord) (s : State) (r : TickResult)
      → FiresOnce now schedule.id r (fire_schedule os catch_up w now schedule s r)
  unfolding fire_schedule
  fire_schedule-FiresOnce w schedule s r = elim (Bool-cases (str_eq schedule.wake_run_id "")) [
    | inl e ↦
        (let compiled = parse_cron_spec os.parse_duration schedule.spec in
          rw (e) (
            fire_due-FiresOnce os is_calendar now w schedule r compiled
              (occurrences os catch_up now schedule compiled) s
              (occurrences-Own os catch_up now schedule compiled)))
    | inr e ↦ rw (e) (fire_wakeup-FiresOnce os is_calendar now w schedule r s)
  ]

  -- Tick behind loadDue, whatever the workflows do that it runs: a result with as many executions as were
  -- fired, skipped or missed is such a result again, and each due schedule is counted as fired or
  -- skipped exactly once if the tick returns no error; if it returns one, fewer are.
  pub fire_all-FiresAll :
      (around : ScheduleRecord → Surroundings) (due : List ScheduleRecord) (s : State)
      (r : TickResult)
      → Balanced r
      → FiresAll (length due) r (fire_all os catch_up around now due s r)
  unfolding fire_all
  fire_all-FiresAll around [] s r b = (b, omega arith)
  fire_all-FiresAll around (schedule ∷ rest) s r b =
      let f = fire_schedule os catch_up (around schedule) now schedule s r in
      go ((around schedule).cancelled) refl (
        then_rest now (length rest) schedule.id r f
          (fire_all os catch_up around now rest f.state f.result) b
          (fire_schedule-FiresOnce (around schedule) schedule s r)
          (fire_all-FiresAll around rest f.state f.result))
    where
      go :
          (o : Option String)
          → (around schedule).cancelled ≡ o
          → (let f = fire_schedule os catch_up (around schedule) now schedule s r in
              FiresAll (suc (length rest)) r (elim f.error [
                | some _ ↦ f
                | none ↦ fire_all os catch_up around now rest f.state f.result
              ]))
          → FiresAll (suc (length rest)) r (fire_all os catch_up around now (schedule ∷ rest) s r)
      go none e done = rw (fire_all, e) done
      go (some x) e done = rw (fire_all, e) (b, omega arith)
