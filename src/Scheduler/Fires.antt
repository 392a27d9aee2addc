-- ===== src/Scheduler/Fires.antt =====
-- persist, advance, fireWakeup and fireSchedule of internal/runtime/scheduler.go.
use lebro.Common.{
  ℕ, ◌+◌, String, Bool, true, false, ◌||◌, Option, none, some, List, [], ◌∷◌, ◌++◌, map, length,
  if◌then◌else◌,
}
use lebro.Workflow.Model.{RunStatus}
use lebro.Cron.{CronSchedule, next}
use lebro.Schedules.{
  ScheduleRecord, ScheduleExecStatus, ScheduleExecutionRecord, ScheduleStore, StoreError, Stored,
  fault, stored, save_schedule, save_schedule_execution, transaction,
}
use lebro.Scheduler.{
  Packages, State, Wake, woken, abandoned, stale, broken, Surroundings, TickResult, TickError,
  not_persisted, not_resumed, not_inspected, not_terminal, Fire, new_execution, stamp,
}

unfoldable pub save_executions :
    Packages → List ScheduleExecutionRecord → ScheduleStore → Stored ScheduleStore
save_executions os [] s = stored s
save_executions os (e ∷ es) s = elim (save_schedule_execution os.encoding e s) [
  | fault x ↦ fault x
  | stored s' ↦ save_executions os es s'
]

-- The callback of the transaction in persist.
unfoldable pub save_fire :
    Packages → ScheduleRecord → List ScheduleExecutionRecord → ScheduleStore → Stored ScheduleStore
unfolding save_executions
save_fire os schedule records s = elim (save_executions os records s) [
  | fault x ↦ fault x
  | stored s' ↦ save_schedule os.encoding schedule s'
]

-- What is done with the outcome of the transaction.
abbrev pub report :
    ℕ → List ScheduleExecutionRecord → State → TickResult → ScheduleStore × Option StoreError → Fire
report missed records s r (store, none) = record {
  state = record s { store = store };
  result = record r { missed = r.missed + missed; executions = r.executions ++ records };
  error = none;
}
report missed records s r (store, some e) = record {
  state = record s { store = store };
  result = r;
  error = some (not_persisted e);
}

unfoldable pub persist :
    Packages
    → Surroundings
    → ScheduleRecord
    → ScheduleExecutionRecord
    → List ScheduleExecutionRecord
    → State
    → TickResult
    → Fire
unfolding save_fire transaction
persist os w schedule exec backlog s r =
    let records = map (stamp schedule) backlog ++ (stamp schedule exec ∷ []) in
    report (length backlog) records s r (transaction w.late (save_fire os schedule records) s.store)

-- compiled.Next(now), unless the spec did not parse
abbrev pub next_fire : Packages → Option CronSchedule → ℕ → Option ℕ
next_fire os none now = none
next_fire os (some compiled) now = next os.calendar compiled now

unfoldable pub advance :
    Packages
    → Surroundings
    → ScheduleRecord
    → Option CronSchedule
    → ℕ
    → ScheduleExecutionRecord
    → List ScheduleExecutionRecord
    → State
    → TickResult
    → Fire
unfolding persist
advance os w schedule compiled now exec backlog s r =
    let updated = record schedule {
      last_fire_at = some exec.scheduled_for;
      next_fire_at = next_fire os compiled now;
      updated_at = now;
    } in
    persist os w updated exec backlog s r

-- result.Fired++ and result.Skipped++ behind a step that returned no error.
abbrev pub count_fired : Fire → Fire
count_fired f = elim f.error [
  | none ↦ record f { result = record (f.result) { fired = f.result.fired + 1 } }
  | some _ ↦ f
]

abbrev pub count_skipped : Fire → Fire
count_skipped f = elim f.error [
  | none ↦ record f { result = record (f.result) { skipped = f.result.skipped + 1 } }
  | some _ ↦ f
]

unfoldable pub advance_cleared :
    Packages
    → Surroundings
    → ScheduleRecord
    → ℕ
    → ScheduleExecutionRecord
    → State
    → TickResult
    → Fire
unfolding persist
advance_cleared os w schedule now exec s r =
    let updated = record schedule {
      last_fire_at = some exec.scheduled_for;
      next_fire_at = none;
      updated_at = now;
    } in
    count_fired (persist os w updated exec [] s r)

abbrev pub due_at : ScheduleRecord → ℕ → ℕ
due_at schedule now = elim schedule.next_fire_at [ none ↦ now | some at ↦ at ]

-- The end of fireWakeup, from the clock on.
unfoldable pub finish_wakeup :
    Packages
    → Surroundings
    → ℕ
    → ScheduleRecord
    → ScheduleExecStatus
    → String
    → State
    → TickResult
    → Fire
unfolding persist new_execution
finish_wakeup os w now schedule status message s r =
    let at = due_at schedule now in
    let exec =
      new_execution os schedule.id schedule.wake_run_id status at now (some w.finished) message in
    let updated = record schedule {
      last_fire_at = some at;
      next_fire_at = none;
      paused = true;
      updated_at = now;
    } in
    count_fired (persist os w updated exec [] s r)

abbrev pub stopped : State → TickResult → TickError → Fire
stopped s r e = record { state = s; result = r; error = some e }

-- The statuses that wakeupRunTerminal takes for the end of a run.
abbrev pub is_terminal : RunStatus → Bool
is_terminal RunStatus.succeeded = true
is_terminal RunStatus.failed = true
is_terminal RunStatus.cancelled = true
is_terminal _ = false

abbrev pub is_suspended : RunStatus → Bool
is_suspended RunStatus.suspended = true
is_suspended _ = false

-- fireWakeup once resumeWake has answered.
unfoldable pub woke :
    Packages → Surroundings → ℕ → ScheduleRecord → State × Wake → TickResult → Fire
unfolding finish_wakeup
woke os w now schedule (s, woken status) r =
    if is_terminal status || is_suspended status
    then finish_wakeup os w now schedule ScheduleExecStatus.succeeded "" s r
    else stopped s r (not_terminal status)
woke os w now schedule (s, abandoned e) r = stopped s r (not_resumed e)
woke os w now schedule (s, stale) r =
    finish_wakeup os w now schedule ScheduleExecStatus.succeeded "" s r
woke os w now schedule (s, broken e) r = elim (w.run_status schedule.wake_run_id s) [
  | none ↦ stopped s r not_inspected
  | some status ↦
      if is_terminal status
      then finish_wakeup os w now schedule ScheduleExecStatus.failed e s r
      else stopped s r (not_resumed e)
]

unfoldable pub fire_wakeup :
    Packages → Surroundings → ℕ → ScheduleRecord → State → TickResult → Fire
unfolding woke
fire_wakeup os w now schedule s r =
    if w.resolves schedule.workflow_id
    then woke os w now schedule (w.resume_wake schedule.wake_run_id schedule.wake_token s) r
    else finish_wakeup os w now schedule ScheduleExecStatus.failed
        (os.no_workflow schedule.workflow_id) s r
