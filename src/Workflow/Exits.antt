-- ===== src/Workflow/Exits.antt =====
-- The exits that the forms of step share in executeFrames of internal/runtime/workflow.go: failure,
-- cancellation, completion and suspension.
use lebro.Common.{ℕ, true, false, Option, none, some, [], ◌∷◌, ◌++◌, if◌then◌else◌}
use lebro.Workflow.Model.{
  RawMessage, StepId, SuspendSignal, RunStatus, suspended, failed, cancelled, step_finished,
  run_suspended, run_terminal,
}
use lebro.Workflow.Retry.{
  RetryOutcome, retry_failed, retry_cancelled, retry_panicked, retry_invalid_output,
  retry_suspended,
}
use lebro.Workflow.Tree.{Steps}
use lebro.Workflow.State.{
  ErrorKind, invalid_step_output, step_failed, step_panicked, cancelled_run, WorkflowError, Engine,
  RunState, log, persist_step, persist_suspend, persist_terminal,
}

pub record SuspendResult : Type 0 where
  pub step : ℕ
  pub step_id : StepId
  pub contract : RawMessage
  pub payload : RawMessage

-- WorkflowRunResult and the error beside it; its path is that of the state.
pub record Ended : Type 0 where
  pub status : RunStatus
  pub output : RawMessage
  pub suspend : Option SuspendResult
  pub failure : Option WorkflowError

-- What one round does: go on behind the step, go on in a branch, or return.
pub data Visit : Type 0 where
  next : RunState → Visit
  enter : Steps → RunState → Visit
  leave : Ended → RunState → Visit

abbrev pub error_at : ErrorKind → StepId → RunState → WorkflowError
error_at kind id st = record { kind = kind; step = st.position; step_id = id }

-- The failure exit that the forms of step share: step_finished, the terminal event, the record.
unfoldable pub fail_step : Engine → ErrorKind → StepId → RunState → Visit
unfolding persist_terminal
fail_step eng kind id st =
    let e = error_at kind id st in
    let st₁ =
      log (run_terminal st.position id failed) (log (step_finished st.position id false) st) in
    leave (record { status = failed; output = []; suspend = none; failure = some e })
      (persist_terminal eng failed (some e) st₁).1

-- A cancellation in the middle of a step.
unfoldable pub cancel_step : Engine → StepId → RunState → Visit
unfolding persist_terminal
cancel_step eng id st =
    let e = error_at cancelled_run id st in
    let st₁ =
      log (run_terminal st.position id cancelled) (log (step_finished st.position id false) st) in
    leave (record { status = cancelled; output = []; suspend = none; failure = some e })
      (persist_terminal eng cancelled (some e) st₁).1

-- A step that produced its output: the snapshot, then the step's events, then the new variables.
unfoldable pub complete_step : Engine → StepId → RawMessage → RunState → Visit
unfolding persist_step fail_step
complete_step eng id output st =
    let (saved, st₁) = persist_step eng id output st in
    if saved
    then next (record (log (step_finished st.position id true) st₁) {
      current = output;
      completed = st.completed ++ output ∷ [];
      last_step_id = id;
      last_position = st.position;
    })
    else fail_step eng step_failed id st₁

-- A suspension: persisted first, then announced.
unfoldable pub suspend_step : Engine → StepId → SuspendSignal → RunState → Visit
unfolding persist_suspend fail_step
suspend_step eng id signal st =
    let (saved, st₁) = persist_suspend eng id signal st in
    if saved
    then leave
        (record {
          status = suspended;
          output = [];
          suspend = some (record {
            step = st.position;
            step_id = signal.step_id;
            contract = signal.contract;
            payload = signal.payload;
          });
          failure = none;
        })
        (log (run_suspended st.position id) (log (step_finished st.position id true) st₁))
    else fail_step eng step_failed id st₁

unfoldable pub on_outcome : Engine → StepId → RetryOutcome → RunState → Visit
unfolding cancel_step fail_step suspend_step
on_outcome eng id (retry_cancelled _) st = cancel_step eng id st
on_outcome eng id (retry_panicked _) st = fail_step eng step_panicked id st
on_outcome eng id (retry_invalid_output _) st = fail_step eng invalid_step_output id st
on_outcome eng id (retry_suspended signal) st = suspend_step eng id signal st
on_outcome eng id (retry_failed _) st = fail_step eng step_failed id st

-- The failure exits of a loop: the error that is stored may name a child, the one that is returned
-- for a cancellation names the loop.
unfoldable pub leave_with :
    Engine → RunStatus → (returned stored : WorkflowError) → StepId → RunState → Visit
unfolding persist_terminal
leave_with eng status returned stored id st =
    leave (record { status = status; output = []; suspend = none; failure = some returned })
      (persist_terminal eng status (some stored)
        (log (run_terminal st.position id status) (log (step_finished st.position id false) st))).1

-- A loop that produced its output. A failure to persist it leaves no terminal record.
unfoldable pub complete_loop : Engine → StepId → RawMessage → RunState → Visit
unfolding persist_step
complete_loop eng id output st =
    let (saved, st₁) = persist_step eng id output st in
    if saved
    then next (record (log (step_finished st.position id true) st₁) {
      current = output;
      completed = st.completed ++ output ∷ [];
      last_step_id = id;
      last_position = st.position;
    })
    else leave
        (record {
          status = failed;
          output = [];
          suspend = none;
          failure = some (error_at step_failed id st);
        })
        (log (run_terminal st.position id failed) (log (step_finished st.position id false) st₁))
