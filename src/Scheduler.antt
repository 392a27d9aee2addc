-- ===== src/Scheduler.antt =====
-- A due schedule under Scheduler.Tick: internal/runtime/scheduler.go, on the in-memory store. What runs
-- and resumes workflows meets the scheduler as a function of its state.
pub mod Fires
pub mod Ticks
pub mod Loads
pub mod Whole
pub mod Claims
pub mod Missed
pub mod Persisted
pub mod Settled
pub mod Owned
pub mod Counted
pub mod Once
mod Tests
use lebro.Common.{
  ℕ, zero, suc, ◌+◌, ◌-◌, String, Bool, true, false, not, ◌||◌, Option, none, some, List, [], ◌∷◌,
  ◌++◌, map, str_eq, ltb, ℤ, pos, negsuc, if◌then◌else◌, length,
}
use lebro.Strings.{Text}
use lebro.Workflow.Model.{RunStatus, running, suspended}
use lebro.Cron.{CronSchedule, parse_cron_spec, interval, next}
use lebro.Cron.Time.{Calendar}
use lebro.Schedules.{
  ScheduleRecord, ScheduleExecStatus, ScheduleExecutionRecord, ScheduleStore, StoreError, Stored,
  fault, stored, Encoding, save_schedule, save_schedule_execution, transaction,
}

-- What the code takes from the packages time, fmt and encoding/json.
pub record Packages : Type 0 where
  pub calendar : Calendar
  pub parse_duration : Text → Option ℤ
  pub encoding : Encoding
  -- "%s-%d-%s"
  pub execution_id : String → ℕ → ScheduleExecStatus → String
  pub no_workflow : String → String
  pub invalid_spec : Text → String

-- The store, and the set of the schedules in flight.
pub record State : Type 0 where
  pub store : ScheduleStore
  pub inflight : List String

-- What resumeWake answers.
pub data Wake : Type 0 where
  woken : RunStatus → Wake
  -- a cancelled context or its deadline
  abandoned : String → Wake
  stale : Wake
  broken : String → Wake

-- What one fire meets: the workflows, the clock once they have run, and the fault, if there is one, that
-- strikes the transaction which persists the fire.
pub record Surroundings : Type 0 where
  -- ctx.Err() before the fire
  pub cancelled : Option String
  pub resolves : String → Bool
  pub run : ScheduleRecord → State → State × String × Option String
  pub resume_wake : (run token : String) → State → State × Wake
  pub run_status : String → State → Option RunStatus
  pub finished : ℕ
  pub late : Option StoreError

pub record TickResult : Type 0 where
  pub fired : ℕ
  pub skipped : ℕ
  pub missed : ℕ
  pub executions : List ScheduleExecutionRecord

pub data TickError : Type 0 where
  not_persisted : StoreError → TickError
  not_resumed : String → TickError
  not_inspected : TickError
  not_terminal : RunStatus → TickError
  tick_cancelled : String → TickError
  not_loaded : StoreError → TickError

-- What a step of the scheduler leaves.
pub record Fire : Type 0 where
  pub state : State
  pub result : TickResult
  pub error : Option TickError

unfoldable pub is_in_flight : String → List String → Bool
is_in_flight id [] = false
is_in_flight id (x ∷ xs) = str_eq x id || is_in_flight id xs

unfoldable pub clear_inflight : String → List String → List String
clear_inflight id [] = []
clear_inflight id (x ∷ xs) =
    let rest = clear_inflight id xs in if str_eq x id then rest else x ∷ rest

unfoldable pub mark_inflight : String → List String → List String
unfolding is_in_flight
mark_inflight id xs = if is_in_flight id xs then xs else id ∷ xs

-- claimInflight: `none` if the schedule is in flight already.
unfoldable pub claim_inflight : String → List String → Option (List String)
unfolding is_in_flight
claim_inflight id xs = if is_in_flight id xs then none else some (id ∷ xs)

-- ConcurrencyPolicy.normalized
abbrev pub normalized : String → String
normalized p = if str_eq p "" then "allow" else p

unfoldable pub new_execution :
    Packages
    → (schedule run : String) → ScheduleExecStatus
    → (scheduled_for started_at : ℕ) → Option ℕ
    → String
    → ScheduleExecutionRecord
new_execution os schedule run status scheduled_for started_at finished_at error = record {
  id = os.execution_id schedule scheduled_for status;
  schedule_id = schedule;
  run_id = run;
  namespace = "";
  owner_id = "";
  status = status;
  scheduled_for = scheduled_for;
  started_at = started_at;
  finished_at = finished_at;
  error = error;
}

abbrev pub missed_execution : Packages → ScheduleRecord → (now at : ℕ) → ScheduleExecutionRecord
missed_execution os schedule now at =
    new_execution os schedule.id "" ScheduleExecStatus.missed at now (some now) ""

-- Another missed occurrence is recorded: maxCatchUp >= 0 && len(missed) < maxCatchUp
abbrev pub has_room : ℤ → ℕ → Bool
has_room (pos limit) n = ltb n limit
has_room (negsuc _) n = false

-- The loop of collectMissed, on fuel.
unfoldable pub collect_missed :
    ℕ
    → Packages
    → ℤ
    → ScheduleRecord
    → (latest now : ℕ) → CronSchedule
    → List ScheduleExecutionRecord
    → ℕ × List ScheduleExecutionRecord
unfolding new_execution
collect_missed zero os catch_up schedule latest now compiled backlog = (latest, backlog)
collect_missed (suc n) os catch_up schedule latest now compiled backlog =
    elim (next os.calendar compiled latest) [
      | none ↦ (latest, backlog)
      | some at ↦
          (let rest = collect_missed n os catch_up schedule at now compiled (
              if has_room catch_up (length backlog)
              then backlog ++ (missed_execution os schedule now latest ∷ [])
              else backlog) in
            if ltb now at then (latest, backlog) else rest)
    ]

-- exec.Namespace, exec.OwnerID = schedule.Namespace, schedule.OwnerID
abbrev pub stamp : ScheduleRecord → ScheduleExecutionRecord → ScheduleExecutionRecord
stamp schedule e = record e { namespace = schedule.namespace; owner_id = schedule.owner_id }
