-- ===== src/Workflow/Frames.antt =====
-- executeFrames of internal/runtime/workflow.go: the loop over the frame stack, and what one round
-- does at each form of step but the fan-out and the foreach. A frame is the part of its step list from its index on; the head of
-- a frame below the top is the branching step whose branch runs above it.
pub mod Rounds
pub mod Termination
pub mod Rule
use lebro.Common.{
  ℕ, zero, suc, ◌+◌, String, Bool, true, false, not, ◌&&◌, Option, none, some, List, [], ◌∷◌, ◌++◌,
  ltb, str_eq, if◌then◌else◌,
}
use lebro.Workflow.Model.{
  RawMessage, StepId, CompiledSchema, ContextError, SuspendSignal, RunStatus, running, suspended,
  succeeded, failed, cancelled, Event, step_started, step_finished, branch_selected, run_suspended,
  run_terminal, World, Env, emit, poll, accepts,
}
use lebro.Workflow.Retry.{
  RetryStep, RetryOutcome, retry_failed, retry_cancelled, retry_panicked, retry_invalid_output,
  retry_suspended, Retried, succeeded_with, ended, run_step_with_retry, resolve_retry_policy,
}
use lebro.Workflow.Tree.{
  StepInfo, CompiledStep, task, sleep, mapping, looping, branching, LoopConfig, Steps, nil, cons,
  Branches, Wake, sleep_for, sleep_until, info, entry_id, Selection, selected, condition_failed,
  no_branch_matched, select_branch,
}
use lebro.Workflow.State.{
  ErrorKind, invalid_step_input, invalid_step_output, invalid_branch_input, step_failed,
  step_panicked, branch_condition_failed, cancelled_run, WorkflowError, Engine, RunState, log,
  persist_step, persist_suspend, persist_sleep, persist_terminal,
}
use lebro.Workflow.State
use lebro.Workflow.Loop.{Round, done, halt, onward, execute_loop, CompiledLoop}
use lebro.Workflow.Exits.{
  error_at, fail_step, cancel_step, complete_step, on_outcome, leave_with, complete_loop,
}
use lebro.Workflow.Join.{is_cancellation}
pub use lebro.Workflow.Exits.{SuspendResult, Ended, Visit, next, enter, leave}

abbrev pub retry_step : StepInfo → RetryStep
retry_step i = record {
  step_id = i.id;
  handler = i.handler;
  output_schema = i.output_schema;
  suspend_schema = i.suspend_schema;
  retry = i.retry;
}

-- A step with a handler.
unfoldable pub run_task : Engine → StepInfo → RunState → Visit
unfolding complete_step on_outcome
run_task eng i st =
    let st₀ = log (step_started st.position i.id) st in
    if accepts i.input_schema st.current
    then (let (r, w) =
          run_step_with_retry eng.env st.position (retry_step i)
            (resolve_retry_policy i.retry eng.overrides i.id) st.current st₀.world in
        let st₁ = record st₀ { world = w } in
        elim r [
          | succeeded_with output ↦ complete_step eng i.id output st₁
          | ended o ↦ on_outcome eng i.id o st₁
        ])
    else fail_step eng invalid_step_input i.id st₀

-- A sleep passes its input through and suspends until the wakeup.
unfoldable pub run_sleep : Engine → StepInfo → Wake → RunState → Visit
unfolding persist_sleep fail_step
run_sleep eng i wake st =
    let st₀ = log (step_started st.position i.id) st in
    if not (accepts i.input_schema st.current)
    then fail_step eng invalid_step_input i.id st₀
    else if not (accepts i.output_schema st.current)
    then fail_step eng invalid_step_output i.id st₀
    else (let at : ℕ = elim wake [ sleep_for d ↦ eng.now st.world.polls + d | sleep_until t ↦ t ] in
        let (saved, st₁) = persist_sleep eng i.id at st₀ in
        if saved
        then leave
            (record {
              status = suspended;
              output = [];
              suspend = some (record {
                step = st.position;
                step_id = i.id;
                contract = [];
                payload = st.current;
              });
              failure = none;
            })
            (log (run_suspended st.position i.id) (log (step_finished st.position i.id true) st₁))
        else fail_step eng step_failed i.id st₁)

-- A branching step chooses a branch and notes its entry in the path.
unfoldable pub run_branching : Engine → StepInfo → Branches → String → RunState → Visit
unfolding fail_step
run_branching eng i branches default st =
    let st₀ = log (step_started st.position i.id) st in
    if accepts i.input_schema st.current
    then elim (select_branch branches default st.current) [
      | selected name steps ↦ enter steps (
          log (step_finished st.position i.id true)
            (record (log (branch_selected st.position i.id name) st₀) {
              path = st.path ++ entry_id steps ∷ [];
            }))
      | condition_failed ↦ fail_step eng branch_condition_failed i.id st₀
      | no_branch_matched ↦ fail_step eng State.no_branch_matched i.id st₀
    ]
    else fail_step eng invalid_branch_input i.id st₀

-- A map: a step with no handler.
unfoldable pub run_mapping : Engine → StepInfo → (RawMessage → Option RawMessage) → RunState → Visit
unfolding complete_step fail_step
run_mapping eng i map st =
    let st₀ = log (step_started st.position i.id) st in
    if not (accepts i.input_schema st.current)
    then fail_step eng invalid_step_input i.id st₀
    else elim (map st.current) [
      | none ↦ fail_step eng step_failed i.id st₀
      | some output ↦
          if not (accepts i.output_schema output)
          then fail_step eng invalid_step_output i.id st₀
          else complete_step eng i.id output st₀
    ]

-- What follows a loop.
unfoldable pub on_loop : Engine → StepId → Round → RunState → Visit
unfolding leave_with complete_loop
on_loop eng id (done output) st = complete_loop eng id output st
on_loop eng id (onward output) st = complete_loop eng id output st
on_loop eng id (halt e) st =
    if is_cancellation e
    then leave_with eng cancelled
        (record { kind = cancelled_run; step = st.position; step_id = id }) e id st
    else leave_with eng failed e e id st

unfoldable pub run_looping : Engine → StepInfo → LoopConfig → Steps → RunState → Visit
unfolding fail_step on_loop
run_looping eng i config steps st =
    let st₀ = log (step_started st.position i.id) st in
    if not (accepts i.input_schema st.current)
    then fail_step eng invalid_step_input i.id st₀
    else (let (r, st₁) =
          execute_loop eng (record { steps = steps; config = config }) i.id st.current st₀ in
        on_loop eng i.id r st₁)

unfoldable pub run_form : Engine → CompiledStep → RunState → Visit
unfolding run_task run_sleep run_branching run_mapping run_looping
run_form eng (task i) st = run_task eng i st
run_form eng (sleep i wake) st = run_sleep eng i wake st
run_form eng (mapping i f) st = run_mapping eng i f st
run_form eng (looping i config steps) st = run_looping eng i config steps st
run_form eng (branching i branches default) st = run_branching eng i branches default st

-- One round at a step: the position is counted and the context read before anything else.
unfoldable pub visit : Engine → CompiledStep → RunState → Visit
unfolding run_form persist_terminal
visit eng s st =
    let st₀ = record st { position = st.position + 1 } in
    let (err, w) = poll eng.env st₀.world in
    let st₁ = record st₀ { world = w } in
    elim err [
      | some c ↦
          let e = error_at cancelled_run (info s).id st₁ in
          leave (record { status = cancelled; output = []; suspend = none; failure = some e })
            (persist_terminal eng cancelled (some e)
              (log (run_terminal st₁.position (info s).id cancelled) st₁)).1
      | none ↦ run_form eng s st₁
    ]

-- What follows the loop: the terminal record decides between success and failure.
unfoldable pub finish : Engine → RunState → Ended × RunState
unfolding persist_terminal
finish eng st =
    let (saved, st₁) = persist_terminal eng succeeded none st in
    if saved
    then (
      record { status = succeeded; output = st.current; suspend = none; failure = none },
      log (run_terminal st.last_position st.last_step_id succeeded) st₁,
    )
    else (
      record {
        status = failed;
        output = [];
        suspend = none;
        failure = some (record { kind = step_failed; step = 0; step_id = "" });
      },
      log (run_terminal st.last_position st.last_step_id failed) st₁,
    )

-- `frames[len(frames)-1].index++`
unfoldable pub advance_top : List Steps → List Steps
advance_top [] = []
advance_top (nil ∷ fs) = nil ∷ fs
advance_top (cons _ rest ∷ fs) = rest ∷ fs

-- What the executor returns, with its frames at the return.
pub record Outcome : Type 0 where
  pub result : Ended
  pub state : RunState
  pub frames : List Steps

-- The loop on fuel: `none` when it runs out.
unfoldable pub execute_frames : ℕ → Engine → List Steps → RunState → Option Outcome
unfolding advance_top
execute_frames zero eng fs st = none
execute_frames (suc n) eng [] st =
    let r = finish eng st in some (record { result = r.0; state = r.1; frames = [] })
execute_frames (suc n) eng (nil ∷ fs) st = execute_frames n eng (advance_top fs) st
execute_frames (suc n) eng (cons s rest ∷ fs) st = elim (visit eng s st) [
  | next st' ↦ execute_frames n eng (rest ∷ fs) st'
  | enter steps st' ↦ execute_frames n eng (steps ∷ cons s rest ∷ fs) st'
  | leave e st' ↦ some (record { result = e; state = st'; frames = cons s rest ∷ fs })
]
