-- ===== src/Scheduler/Ticks.antt =====
-- fireSchedule and the loop of Tick: internal/runtime/scheduler.go.
use lebro.Common.{
  ℕ, ◌+◌, ◌-◌, String, Bool, true, false, not, Option, none, some, List, [], ◌∷◌, str_eq, ℤ,
  if◌then◌else◌,
}
use lebro.Cron.{CronSchedule, parse_cron_spec}
use lebro.Schedules.{ScheduleRecord, ScheduleExecStatus, ScheduleExecutionRecord}
use lebro.Scheduler.{
  Packages, State, Surroundings, TickResult, tick_cancelled, Fire, clear_inflight, mark_inflight,
  claim_inflight, normalized, new_execution, collect_missed,
}
use lebro.Scheduler.Fires.{
  advance, advance_cleared, count_fired, count_skipped, due_at, fire_wakeup,
}

unfoldable pub release : String → State → State
unfolding clear_inflight
release id s = record s { inflight = clear_inflight id s.inflight }

unfoldable pub run_workflow :
    Surroundings → ScheduleRecord → (claimed : Bool) → State → State × String × Option String
unfolding mark_inflight release
run_workflow w schedule true s = w.run schedule s
run_workflow w schedule false s =
    let marked = record s { inflight = mark_inflight schedule.id s.inflight } in
    let (s', run, error) = w.run schedule marked in (release schedule.id s', run, error)

-- The status and the message for what Run returned as its error.
abbrev outcome : Option String → ScheduleExecStatus × String
outcome none = (ScheduleExecStatus.succeeded, "")
outcome (some message) = (ScheduleExecStatus.failed, message)

-- fireSchedule from the check of parseErr on; `at` is scheduledFor, `backlog` the missed records.
unfoldable pub fire_run :
    Packages
    → Surroundings
    → ℕ
    → ScheduleRecord
    → Option CronSchedule
    → ℕ
    → List ScheduleExecutionRecord
    → (claimed : Bool) → State
    → TickResult
    → Fire
unfolding run_workflow new_execution advance advance_cleared
fire_run os w now schedule none at backlog claimed s r =
    advance_cleared os w schedule now
      (new_execution os schedule.id "" ScheduleExecStatus.failed at now (some now)
        (os.invalid_spec schedule.spec))
      s r
fire_run os w now schedule (some compiled) at backlog claimed s r =
    if not (w.resolves schedule.workflow_id)
    then count_fired (
        advance os w schedule (some compiled) now
          (new_execution os schedule.id "" ScheduleExecStatus.failed at now (some now)
            (os.no_workflow schedule.workflow_id))
          backlog s r)
    else (let (s', run, error) = run_workflow w schedule claimed s in
        let (status, message) = outcome error in
        count_fired (
          advance os w schedule (some compiled) now
            (new_execution os schedule.id run status at now (some w.finished) message) backlog s'
            r))

-- The latest due occurrence and the missed records before it.
unfoldable pub occurrences :
    Packages → ℤ → ℕ → ScheduleRecord → Option CronSchedule → ℕ × List ScheduleExecutionRecord
unfolding collect_missed
occurrences os catch_up now schedule none = (due_at schedule now, [])
occurrences os catch_up now schedule (some compiled) =
    let first_due = due_at schedule now in
    collect_missed (now + 1 - first_due) os catch_up schedule first_due now compiled []

-- defer s.clearInflight(schedule.ID)
abbrev pub released : String → Fire → Fire
released id f = record f { state = release id f.state }

-- What ConcurrencySkip makes of the answer of claimInflight.
unfoldable pub fire_skip :
    Packages
    → Surroundings
    → ℕ
    → ScheduleRecord
    → Option CronSchedule
    → ℕ × List ScheduleExecutionRecord
    → (claim : Option (List String)) → State
    → TickResult
    → Fire
unfolding fire_run release advance new_execution
fire_skip os w now schedule compiled (at, backlog) none s r = count_skipped (
    advance os w schedule compiled now
      (new_execution os schedule.id "" ScheduleExecStatus.skipped at now (some now) "") backlog s r)
fire_skip os w now schedule compiled (at, backlog) (some inflight) s r =
    released schedule.id
      (fire_run os w now schedule compiled at backlog true (record s { inflight = inflight }) r)

-- fireSchedule behind the collection of the missed occurrences.
unfoldable pub fire_due :
    Packages
    → Surroundings
    → ℕ
    → ScheduleRecord
    → Option CronSchedule
    → ℕ × List ScheduleExecutionRecord
    → State
    → TickResult
    → Fire
unfolding fire_run fire_skip claim_inflight
fire_due os w now schedule compiled (at, backlog) s r =
    if str_eq (normalized schedule.concurrency) "skip"
    then fire_skip os w now schedule compiled (at, backlog) (claim_inflight schedule.id s.inflight)
        s r
    else fire_run os w now schedule compiled at backlog false s r

unfoldable pub fire_schedule :
    Packages → ℤ → Surroundings → ℕ → ScheduleRecord → State → TickResult → Fire
unfolding fire_wakeup occurrences fire_due
fire_schedule os catch_up w now schedule s r =
    if not (str_eq schedule.wake_run_id "")
    then fire_wakeup os w now schedule s r
    else (let compiled = parse_cron_spec os.parse_duration schedule.spec in
        fire_due os w now schedule compiled (occurrences os catch_up now schedule compiled) s r)

-- The loop of Tick over the due schedules.
unfoldable pub fire_all :
    Packages
    → ℤ
    → (ScheduleRecord → Surroundings)
    → ℕ
    → List ScheduleRecord
    → State
    → TickResult
    → Fire
unfolding fire_schedule
fire_all os catch_up around now [] s r = record { state = s; result = r; error = none }
fire_all os catch_up around now (schedule ∷ rest) s r = elim ((around schedule).cancelled) [
  | some e ↦ record { state = s; result = r; error = some (tick_cancelled e) }
  | none ↦
      (let f = fire_schedule os catch_up (around schedule) now schedule s r in
        let behind = fire_all os catch_up around now rest f.state f.result in
        elim f.error [ some _ ↦ f | none ↦ behind ])
]
