-- ===== src/Workflow/State.antt =====
-- The state of executeFrames, the durable run record and snapshots, and the persist functions of
-- internal/runtime/workflow.go. A store's transaction writes everything or fails and writes
-- nothing; whether it fails is the environment's choice, by the number of the call.
use lebro.Common.{
  ◌≡◌, refl, ap, ℕ, ◌+◌, ◌*◌, ◌-◌, ◌^◌, Bool, true, false, not, Option, none, some, List, [], ◌∷◌,
  ◌++◌, if◌then◌else◌,
}
use lebro.Workflow.Model.{
  RawMessage, StepId, SuspendSignal, RetryPolicy, RunStatus, running, suspended, succeeded, Event,
  World, Env, emit,
}

pub data ErrorKind : Type 0 where
  invalid_step_input invalid_step_output invalid_branch_input step_failed step_panicked : ErrorKind
  branch_condition_failed no_branch_matched cancelled_run : ErrorKind
  max_iterations unauthorized : ErrorKind
  invalid_fan_out_input fan_out_input_mapper_failed fan_out_branch_failed : ErrorKind

pub record WorkflowError : Type 0 where
  pub kind : ErrorKind
  pub step : ℕ
  pub step_id : StepId

-- suspendEnvelope, with its wakeEnvelope.
pub record SuspendEnvelope : Type 0 where
  pub contract : RawMessage
  pub payload : RawMessage
  pub wake_at : Option ℕ

-- workflowSnapshotEnvelope with the sequence of its record.
pub record Snapshot : Type 0 where
  pub step : ℕ
  pub step_id : StepId
  pub output : RawMessage
  pub outputs : List RawMessage
  pub suspend : Option SuspendEnvelope
  pub path : List StepId
  pub sequence : ℕ

-- The fields of WorkflowRunRecord that change in a run.
pub record RunRecord : Type 0 where
  pub status : RunStatus
  pub current_step : ℕ
  pub current_step_id : StepId
  pub step_outputs : List RawMessage
  pub path : List StepId
  pub output : RawMessage
  pub failure : Option WorkflowError
  pub finished : Bool

pub record Db : Type 0 where
  pub saves : ℕ
  pub run : Option RunRecord
  pub snapshots : List Snapshot
  -- the wakeups that sleeps have scheduled: the instant, and the position that the token names
  pub wakeups : List (ℕ × ℕ)

-- What a run is configured with, and what surrounds it.
pub record Engine : Type 0 where
  pub env : Env
  pub bound : Bool
  pub save_fails : ℕ → Bool
  pub now : ℕ → ℕ
  pub overrides : List (StepId × RetryPolicy)

-- The variables of executeFrames, but for its frames.
pub record RunState : Type 0 where
  pub current : RawMessage
  pub completed : List RawMessage
  pub path : List StepId
  pub position : ℕ
  pub last_step_id : StepId
  pub last_position : ℕ
  pub world : World
  pub db : Db

abbrev pub log : Event → RunState → RunState
log e st = record st { world = emit e st.world }

unfoldable pub terminal_snapshot_sequence : ℕ → ℕ
terminal_snapshot_sequence position = position * 2 ^ 32 + (2 ^ 32 - 1)

-- One transaction: `none` when it fails.
unfoldable pub save :
    Engine → Option RunRecord → List Snapshot → List (ℕ × ℕ) → RunState → Bool × RunState
save eng run snaps wakes st =
    if eng.save_fails st.db.saves
    then (false, record st { db = record st.db { saves = st.db.saves + 1 } })
    else (
      true,
      record st {
        db = record {
          saves = st.db.saves + 1;
          run = run;
          snapshots = st.db.snapshots ++ snaps;
          wakeups = st.db.wakeups ++ wakes;
        };
      },
    )

abbrev pub boundary_record : RunStatus → ℕ → StepId → List RawMessage → RunState → RunRecord
boundary_record status position id outputs st = record {
  status = status;
  current_step = position;
  current_step_id = id;
  step_outputs = outputs;
  path = st.path;
  output = [];
  failure = none;
  finished = false;
}

unfoldable pub persist_step : Engine → StepId → RawMessage → RunState → Bool × RunState
unfolding save terminal_snapshot_sequence
persist_step eng id output st =
    if not eng.bound
    then (true, st)
    else (let outputs = st.completed ++ output ∷ [] in
        save eng (some (boundary_record running st.position id outputs st))
          (record {
            step = st.position;
            step_id = id;
            output = output;
            outputs = outputs;
            suspend = none;
            path = st.path;
            sequence = terminal_snapshot_sequence st.position;
          }
            ∷ [])
          [] st)

-- The snapshot of persistSuspend and persistSleep.
abbrev pub suspend_snapshot : StepId → SuspendEnvelope → RunState → Snapshot
suspend_snapshot id envelope st = record {
  step = st.position;
  step_id = id;
  output = [];
  outputs = st.completed;
  suspend = some envelope;
  path = st.path;
  sequence = terminal_snapshot_sequence st.position;
}

unfoldable pub persist_suspend : Engine → StepId → SuspendSignal → RunState → Bool × RunState
unfolding save terminal_snapshot_sequence
persist_suspend eng id signal st =
    if not eng.bound
    then (true, st)
    else save eng (some (boundary_record suspended st.position id st.completed st))
        (suspend_snapshot id
            (record { contract = signal.contract; payload = signal.payload; wake_at = none }) st
          ∷ [])
        [] st

-- A sleep needs a store.
unfoldable pub persist_sleep : Engine → StepId → ℕ → RunState → Bool × RunState
unfolding save terminal_snapshot_sequence
persist_sleep eng id at st =
    if not eng.bound
    then (false, st)
    else save eng (some (boundary_record suspended st.position id st.completed st))
        (suspend_snapshot id (record { contract = []; payload = st.current; wake_at = some at }) st
          ∷ [])
        ((at, st.position) ∷ []) st

abbrev pub last_output : List RawMessage → RawMessage
last_output [] = []
last_output (o ∷ []) = o
last_output (o ∷ os) = last_output os

abbrev pub is_succeeded : RunStatus → Bool
is_succeeded succeeded = true
is_succeeded _ = false

unfoldable pub terminal_record : RunStatus → Option WorkflowError → RunState → RunRecord
terminal_record status failure st = record {
  status = status;
  current_step = st.last_position;
  current_step_id = st.last_step_id;
  step_outputs = st.completed;
  path = st.path;
  output = if is_succeeded status then last_output st.completed else [];
  failure = failure;
  finished = true;
}

-- persistTerminal: its failure counts on the success path alone.
unfoldable pub persist_terminal :
    Engine → RunStatus → Option WorkflowError → RunState → Bool × RunState
unfolding save terminal_record
persist_terminal eng status failure st =
    if not eng.bound
    then (true, st)
    else (let (saved, st') = save eng (some (terminal_record status failure st)) [] [] st in
        (if is_succeeded status then saved else true, st'))

abbrev pub last_snapshot : List Snapshot → Option Snapshot
last_snapshot [] = none
last_snapshot (s ∷ []) = some s
last_snapshot (s ∷ t ∷ rest) = last_snapshot (t ∷ rest)

pub last_snapshot-append :
    (xs : List Snapshot) (s : Snapshot) → last_snapshot (xs ++ s ∷ []) ≡ some s
last_snapshot-append [] s = refl
last_snapshot-append (x ∷ []) s = refl
last_snapshot-append (x ∷ y ∷ xs) s = last_snapshot-append (y ∷ xs) s

-- The snapshots of suspensions.
abbrev pub suspends : List Snapshot → List Snapshot
suspends [] = []
suspends (s ∷ rest) = elim s.suspend [ none ↦ suspends rest | some _ ↦ s ∷ suspends rest ]

pub suspends-append : (xs ys : List Snapshot) → suspends (xs ++ ys) ≡ suspends xs ++ suspends ys
suspends-append [] ys = refl
suspends-append (x ∷ xs) ys = go x.suspend (suspends-append xs ys)
  where
    go :
        (o : Option SuspendEnvelope)
        → suspends (xs ++ ys) ≡ suspends xs ++ suspends ys
        → elim o [ none ↦ suspends (xs ++ ys) | some _ ↦ x ∷ suspends (xs ++ ys) ]
          ≡ elim o [ none ↦ suspends xs | some _ ↦ x ∷ suspends xs ] ++ suspends ys
    go none e = e
    go (some _) e = ap (λ (l : List Snapshot). x ∷ l) e
