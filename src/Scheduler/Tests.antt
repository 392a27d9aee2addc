-- ===== src/Scheduler/Tests.antt =====
-- Fires of one schedule that is due every nanosecond.
use lebro.Common.{ℕ, zero, suc, ◌≡◌, refl, String, true, false, none, some, [], ◌∷◌, pos}
use Prim.Native.String.{◌++◌ as text_append}
use lebro.Strings.{Text}
use lebro.Cron.{parse_cron_spec, next, next_within}
use lebro.Cron.Months.{twelve_months}
use lebro.Schedules.{
  ScheduleRecord, ScheduleExecStatus, ScheduleExecutionRecord, already_exists, find_schedule,
  save_schedule, save_schedule_execution,
}
use lebro.Scheduler.{
  is_in_flight, Packages, State, stale, Surroundings, TickResult, not_persisted, Fire,
}
use lebro.Scheduler.Fires.{persist}
use lebro.Scheduler.Ticks.{fire_schedule}
use lebro.Scheduler.Persisted.{Persisted, written, persist-Persisted}
use lebro.Schedules.Pages.{listed}
use lebro.Scheduler.Loads.{due_filter, load_due}
use lebro.Scheduler.Whole.{LoadsAll, load_due-LoadsAll}
use lebro.Scheduler.Claims.{with_run, Excludes, fire_schedule-Excludes}

abbrev tally : ℕ → String
tally zero = ""
tally (suc n) = text_append "i" (tally n)

abbrev status_text : ScheduleExecStatus → String
status_text ScheduleExecStatus.succeeded = "succeeded"
status_text ScheduleExecStatus.failed = "failed"
status_text ScheduleExecStatus.skipped = "skipped"
status_text ScheduleExecStatus.missed = "missed"

abbrev packages : Packages
packages = record {
  calendar = twelve_months;
  parse_duration = λ t. some (pos 1);
  encoding = record { valid = λ t. true; schedule_json = λ v. true; execution_json = λ e. true };
  execution_id = λ id at status. text_append (tally at) (status_text status);
  no_workflow = λ id. "no workflow";
  invalid_spec = λ spec. "invalid spec";
}

-- "@every 1ns"
abbrev spec : Text
spec = b'@' ∷ b'e' ∷ b'v' ∷ b'e' ∷ b'r' ∷ b'y' ∷ b' ' ∷ b'1' ∷ b'n' ∷ b's' ∷ []

abbrev nightly : ScheduleRecord
nightly = record {
  id = "nightly";
  workflow_id = "report";
  namespace = "ops";
  owner_id = "owner";
  spec = spec;
  paused = false;
  concurrency = "skip";
  input = "";
  metadata = "";
  next_fire_at = some 0;
  last_fire_at = none;
  wake_run_id = "";
  wake_token = "";
  created_at = 0;
  updated_at = 0;
}

abbrev start : State
start = record { store = record { schedules = nightly ∷ []; executions = λ id. [] }; inflight = [] }

abbrev nothing : TickResult
nothing = record { fired = 0; skipped = 0; missed = 0; executions = [] }

-- A workflow that does `body` to the state while it runs.
abbrev running_on : (State → State) → Surroundings
running_on body = record {
  cancelled = none;
  resolves = λ id. true;
  run = λ schedule s. (body s, "run", none);
  resume_wake = λ run token s. (s, stale);
  run_status = λ run s. none;
  finished = 3;
  late = none;
}

abbrev quick : Surroundings
quick = running_on (λ s. s)

abbrev exec : ScheduleExecutionRecord
exec = record {
  id = "e";
  schedule_id = "nightly";
  run_id = "run";
  namespace = "";
  owner_id = "";
  status = ScheduleExecStatus.succeeded;
  scheduled_for = 0;
  started_at = 0;
  finished_at = some 3;
  error = "";
}

persist-Persisted_example :
    Persisted nightly
      (written nightly exec [])
      0
      start
      nothing
      (persist packages quick nightly exec [] start nothing)
persist-Persisted_example = persist-Persisted packages quick nightly exec [] start nothing refl tt

load_due-LoadsAll_example :
    LoadsAll
      (λ cursor. none)
      (listed (due_filter 2) start.store)
      (load_due (λ cursor. none) 2 start.store)
load_due-LoadsAll_example = load_due-LoadsAll (λ cursor. none) 2 start.store

-- A tick at 0 runs the workflow; while it runs, a tick at 2 skips the schedule; ticks at 3 and 4 follow.
abbrev skipping : State → State
skipping s = (fire_schedule packages (pos 100) quick 2 nightly s nothing).state

abbrev overlapped : Fire
overlapped = fire_schedule packages (pos 100) (running_on skipping) 0 nightly start nothing

abbrev stored_schedule : State → ScheduleRecord
stored_schedule s = elim (find_schedule "nightly" s.store.schedules) [ none ↦ nightly | some v ↦ v ]

abbrev tick_at : ℕ → State → Fire
tick_at now s = fire_schedule packages (pos 100) quick now (stored_schedule s) s nothing

overlapped_error : overlapped.error ≡ none
unfolding fire_schedule parse_cron_spec next next_within save_schedule_execution save_schedule
overlapped_error = refl

-- The tick that overlaps has stored 3 as the next fire.
overlapped_next : (stored_schedule overlapped.state).next_fire_at ≡ some 1
unfolding fire_schedule parse_cron_spec next next_within save_schedule_execution save_schedule
overlapped_next = refl

-- The occurrence at 1 is in the history already, as missed.
tick_at_3 : (tick_at 3 overlapped.state).error ≡ some (not_persisted already_exists)
unfolding fire_schedule parse_cron_spec next next_within save_schedule_execution save_schedule
tick_at_3 = refl

tick_at_4 :
    (tick_at 4 (tick_at 3 overlapped.state).state).error ≡ some (not_persisted already_exists)
unfolding fire_schedule parse_cron_spec next next_within save_schedule_execution save_schedule
tick_at_4 = refl

abbrev busy : State
busy = record start { inflight = "nightly" ∷ [] }

fire_schedule-Excludes_example :
    Excludes true "nightly" busy (fire_schedule packages (pos 100) quick 2 nightly busy nothing) (
      fire_schedule packages
        (pos 100)
        (with_run quick (λ schedule s. (start, "other", none)))
        2
        nightly
        busy
        nothing)
unfolding is_in_flight
fire_schedule-Excludes_example =
    fire_schedule-Excludes packages quick (λ schedule s. (start, "other", none)) 2 nightly busy
      nothing (pos 100) refl refl
