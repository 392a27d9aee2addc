-- ===== src/Workflow/Lifecycle.antt =====
-- Run, Resume and resumeWake of internal/runtime/workflow.go, with what they check before the
-- executor takes over: loadSuspendSnapshot, suspendSchemaForStep, validateRetryOverrides.
-- `Call` holds what the store, the policy and the claims answer in one call.
pub mod Newest
pub mod Continue
pub mod Lost
pub mod Rejected
pub mod Total
mod Tests
use lebro.Common.{
  ℕ, zero, suc, ◌+◌, String, Bool, true, false, not, ◌&&◌, ◌||◌, Option, none, some, List, [], ◌∷◌,
  ◌++◌, ltb, ◌==◌, str_eq, if◌then◌else◌,
}
use lebro.Workflow.Model.{
  RawMessage, StepId, CompiledSchema, RetryPolicy, RunStatus, running, suspended, failed, cancelled,
  run_started, run_resumed, run_terminal, World, poll, accepts,
}
use lebro.Workflow.Retry.{validate_retry_policy}
use lebro.Workflow.Tree.{CompiledStep, branching, Steps, nil, cons, Branches, no_more, branch, info}
use lebro.Workflow.State.{
  ErrorKind, step_failed, cancelled_run, unauthorized, WorkflowError, SuspendEnvelope, Snapshot,
  RunRecord, Db, Engine, RunState, log, save, persist_terminal,
}
use lebro.Workflow.Exits.{Ended}
use lebro.Workflow.Frames.{Outcome, execute_frames}
use lebro.Workflow.Resume.{resume_frames}

-- The loop over the listed records: the suspend snapshot with the highest sequence.
abbrev pub better : Option Snapshot → Snapshot → Option Snapshot
better best s = elim s.suspend [
  | none ↦ best
  | some _ ↦ elim best [
    | none ↦ some s
    | some b ↦ if ltb b.sequence s.sequence then some s else some b
  ]
]

unfoldable pub best_suspend : Option Snapshot → List Snapshot → Option Snapshot
best_suspend best [] = best
best_suspend best (s ∷ rest) = best_suspend (better best s) rest

unfoldable pub load_suspend_snapshot : List Snapshot → Option Snapshot
unfolding best_suspend
load_suspend_snapshot snapshots = best_suspend none snapshots

-- findSuspendSchema and suspendSchemaForStep: the first schema found.
abbrev first_of : Option CompiledSchema → Option CompiledSchema → Option CompiledSchema
first_of none later = later
first_of (some s) later = some s

abbrev if_found : Bool → Option CompiledSchema → Option CompiledSchema → Option CompiledSchema
if_found true schema later = schema
if_found false schema later = later

unfoldable mutual
  pub step_suspend_schema : StepId → CompiledStep → Option CompiledSchema
  step_suspend_schema id (branching i bs _) =
      if_found (str_eq i.id id) i.suspend_schema (branches_suspend_schema id bs)
  step_suspend_schema id s = if_found (str_eq (info s).id id) (info s).suspend_schema none

  pub steps_suspend_schema : StepId → Steps → Option CompiledSchema
  steps_suspend_schema id nil = none
  steps_suspend_schema id (cons s rest) =
      first_of (step_suspend_schema id s) (steps_suspend_schema id rest)

  pub branches_suspend_schema : StepId → Branches → Option CompiledSchema
  branches_suspend_schema id no_more = none
  branches_suspend_schema id (branch _ _ steps rest) =
      first_of (steps_suspend_schema id steps) (branches_suspend_schema id rest)

-- What one call meets outside the engine.
pub record Call : Type 0 where
  pub authorized : Bool
  -- whether GetWorkflowRun and ListWorkflowSnapshots fail, and whether the run is this workflow's
  pub get_fails : Bool
  pub list_fails : Bool
  pub belongs : Bool
  -- rawJSONEqual: equality of the decoded values
  pub json_equal : RawMessage → RawMessage → Bool

pub data Rejection : Type 0 where
  requires_store context_ended not_loaded foreign_run not_suspended denied no_suspend_snapshot :
      Rejection
  requires_scheduler stale_wakeup no_suspend_schema invalid_resume_input no_frame : Rejection

-- Resume's answer: a rejection with what it leaves behind, or what the executor returns (`none`
-- when the fuel runs out).
pub data Resumed : Type 0 where
  rejected : Rejection → World → Db → Resumed
  resumed : Option Outcome → Resumed
  unresolved : Resumed

abbrev pub is_suspended : Option RunRecord → Bool
is_suspended none = false
is_suspended (some r) = elim r.status [ suspended ↦ true | _ ↦ false ]

abbrev pub has_run : Option RunRecord → Bool
has_run none = false
has_run (some _) = true

abbrev next_id : List Steps → StepId
next_id (cons s _ ∷ _) = (info s).id
next_id _ = ""

-- The engine of a resumed run: the overrides of the first call are gone.
abbrev pub resuming : Engine → Engine
resuming eng = record eng { overrides = [] }

-- The executor's variables at a resume from `snap` on `input`.
abbrev pub resume_state : List Steps → Snapshot → RawMessage → World → Db → RunState
resume_state frames snap input w db = log (run_resumed (snap.step + 1) (next_id frames)) (record {
  current = input;
  completed = snap.outputs;
  path = snap.path;
  position = snap.step;
  last_step_id = "";
  last_position = 0;
  world = w;
  db = db;
})

unfoldable pub continue_from : ℕ → Engine → Steps → Snapshot → RawMessage → World → Db → Resumed
unfolding resume_frames execute_frames
continue_from n eng steps snap input w db =
    elim (resume_frames n (steps ∷ []) snap.path snap.step_id) [
      | none ↦ unresolved
      | some none ↦ rejected no_frame w db
      | some (some frames) ↦
          resumed (execute_frames n (resuming eng) frames (resume_state frames snap input w db))
    ]

abbrev pub wakes : Snapshot → Option ℕ
wakes snap = elim snap.suspend [ none ↦ none | some e ↦ e.wake_at ]

abbrev pub contract_of : Snapshot → RawMessage
contract_of snap = elim snap.suspend [ none ↦ [] | some e ↦ e.contract ]

abbrev pub payload_of : Snapshot → RawMessage
payload_of snap = elim snap.suspend [ none ↦ [] | some e ↦ e.payload ]

-- A contract that is published pins the resume input to its value.
abbrev meets_contract : Call → RawMessage → RawMessage → Bool
meets_contract call input [] = true
meets_contract call input (b ∷ bs) = call.json_equal input (b ∷ bs)

-- What Resume checks once the snapshot is loaded.
unfoldable pub resume_checked :
    ℕ → Engine → Call → Steps → Snapshot → RawMessage → World → Db → Resumed
unfolding continue_from steps_suspend_schema
resume_checked n eng call steps snap input w db = elim (wakes snap) [
  | some at ↦ rejected requires_scheduler w db
  | none ↦ elim (steps_suspend_schema snap.step_id steps) [
    | none ↦ rejected no_suspend_schema w db
    | some schema ↦
        if not (schema input)
        then rejected invalid_resume_input w db
        else if not (meets_contract call input (contract_of snap))
        then rejected invalid_resume_input w db
        else continue_from n eng steps snap input w db
  ]
]

-- The checks that Resume and resumeWake share, up to the status.
unfoldable pub check_run : Engine → Call → World → Db → Option Rejection × World
check_run eng call w db =
    if not eng.bound
    then (some requires_store, w)
    else (let (err, w₁) = poll eng.env w in
        elim err [
          | some c ↦ (some context_ended, w₁)
          | none ↦ (
            if call.get_fails || not (has_run db.run)
                then some not_loaded
                else if not call.belongs
                then some foreign_run
                else if not (is_suspended db.run)
                then some not_suspended
                else none,
            w₁,
          )
        ])

unfoldable pub resume : ℕ → Engine → Call → Steps → RawMessage → World → Db → Resumed
unfolding check_run load_suspend_snapshot resume_checked
resume n eng call steps input w db =
    let (bad, w₁) = check_run eng call w db in
    elim bad [
      | some r ↦ rejected r w₁ db
      | none ↦
          if not call.authorized
          then rejected denied w₁ db
          else if call.list_fails
          then rejected no_suspend_snapshot w₁ db
          else elim (load_suspend_snapshot db.snapshots) [
            | none ↦ rejected no_suspend_snapshot w₁ db
            | some snap ↦ resume_checked n eng call steps snap input w₁ db
          ]
    ]

-- resumeWake tells no reason why there is nothing to wake.
abbrev as_stale : Rejection → Rejection
as_stale requires_store = stale_wakeup
as_stale foreign_run = stale_wakeup
as_stale not_suspended = stale_wakeup
as_stale r = r

-- resumeWake: a token is known by the position that it names.
unfoldable pub resume_wake : ℕ → Engine → Call → Steps → ℕ → World → Db → Resumed
unfolding check_run load_suspend_snapshot continue_from
resume_wake n eng call steps token w db =
    let (bad, w₁) = check_run eng call w db in
    elim bad [
      | some r ↦ rejected (as_stale r) w₁ db
      | none ↦
          if call.list_fails
          then rejected no_suspend_snapshot w₁ db
          else elim (load_suspend_snapshot db.snapshots) [
            | none ↦ rejected no_suspend_snapshot w₁ db
            | some snap ↦ elim (wakes snap) [
              | none ↦ rejected stale_wakeup w₁ db
              | some at ↦
                  if not (snap.step == token)
                  then rejected stale_wakeup w₁ db
                  else if not call.authorized
                  then rejected denied w₁ db
                  else continue_from n eng steps snap (payload_of snap) w₁ db
            ]
          ]
    ]
