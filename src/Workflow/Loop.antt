-- ===== src/Workflow/Loop.antt =====
-- executeLoop of internal/runtime/workflow.go, with persistLoopCheckpoint: the rounds of a DoWhile
-- or DoUntil step.
pub mod Ends
pub mod Events
pub mod Keeps
mod Tests
use lebro.Common.{
  ℕ, zero, suc, ◌+◌, ◌*◌, ◌^◌, String, Bool, true, false, not, Option, none, some, List, [], ◌∷◌,
  ◌++◌, ◌==◌, if◌then◌else◌,
}
use lebro.Workflow.Model.{
  RawMessage, StepId, running, child_started, child_finished, ChildLabel, iteration, loop_started,
  loop_finished, World, emit, poll, accepts,
}
use lebro.Workflow.Retry.{
  RetryOutcome, retry_failed, retry_cancelled, retry_panicked, retry_invalid_output,
  retry_suspended, succeeded_with, ended, run_step_with_retry, resolve_retry_policy,
}
use lebro.Workflow.Tree.{
  CompiledStep, Steps, nil, cons, info, LoopMode, loop_while, loop_until, LoopConfig,
}
use lebro.Workflow.State.{
  ErrorKind, invalid_step_input, invalid_step_output, step_failed, step_panicked, cancelled_run,
  max_iterations, WorkflowError, Snapshot, Engine, RunState, log, save, boundary_record,
}
use lebro.Workflow.FanOut.{child_step}

-- compiledLoop.
pub record CompiledLoop : Type 0 where
  pub steps : Steps
  pub config : LoopConfig

-- What a part of a round decides: go on with a value, or end the loop.
pub data Round : Type 0 where
  onward : RawMessage → Round
  done : RawMessage → Round
  halt : WorkflowError → Round

-- What follows a part that goes on; the other ends stay.
unfoldable pub then_round :
    (RawMessage → RunState → Round × RunState) → Round × RunState → Round × RunState
then_round f (onward v, st) = f v st
then_round f (done v, st) = (done v, st)
then_round f (halt e, st) = (halt e, st)

abbrev pub halt_at : ErrorKind → StepId → RunState → Round
halt_at kind id st = halt (record { kind = kind; step = st.position; step_id = id })

unfoldable pub loop_error_kind : RetryOutcome → ErrorKind
loop_error_kind (retry_cancelled _) = cancelled_run
loop_error_kind (retry_panicked _) = step_panicked
loop_error_kind (retry_invalid_output _) = invalid_step_output
loop_error_kind (retry_suspended _) = invalid_step_output
loop_error_kind (retry_failed _) = step_failed

-- A read of the context: whether it is finished.
abbrev pub polled : Engine → RunState → Bool × RunState
polled eng st =
    let (err, w) = poll eng.env st.world in
    (elim err [ none ↦ false | some c ↦ true ], record st { world = w })

unfoldable pub run_loop_child :
    Engine → ChildLabel → CompiledStep → RawMessage → RunState → Round × RunState
unfolding loop_error_kind
run_loop_child eng name s current st =
    if accepts (info s).input_schema current
    then (let st₁ = log (child_started st.position (info s).id name) st in
        let (r, w) =
          run_step_with_retry eng.env st.position (child_step s)
            (resolve_retry_policy (info s).retry eng.overrides (info s).id) current st₁.world in
        let st₂ = record st₁ { world = w } in
        elim r [
          | succeeded_with output ↦
              (onward output, log (child_finished st.position (info s).id name true) st₂)
          | ended o ↦ (
            halt_at (loop_error_kind o) (info s).id st,
            log (child_finished st.position (info s).id name false) st₂,
          )
        ])
    else (halt_at invalid_step_input (info s).id st, st)

-- The body of a round: the children in order, the context read before each.
unfoldable pub run_body : Engine → ChildLabel → Steps → RawMessage → RunState → Round × RunState
unfolding run_loop_child then_round
run_body eng name nil current st = (onward current, st)
run_body eng name (cons s rest) current st =
    let (over, st₁) = polled eng st in
    if over
    then (halt_at cancelled_run (info s).id st, st₁)
    else then_round (run_body eng name rest) (run_loop_child eng name s current st₁)

-- The snapshot of a completed body; it carries no path.
abbrev pub checkpoint : StepId → ℕ → RawMessage → RunState → Snapshot
checkpoint id round output st = record {
  step = st.position;
  step_id = id;
  output = output;
  outputs = st.completed ++ output ∷ [];
  suspend = none;
  path = [];
  sequence = st.position * 2 ^ 32 + round;
}

unfoldable pub persist_loop_checkpoint :
    Engine → StepId → ℕ → RawMessage → RunState → Bool × RunState
unfolding save
persist_loop_checkpoint eng id round output st =
    if not eng.bound
    then (true, st)
    else save eng
        (some (record (boundary_record running st.position id (st.completed ++ output ∷ []) st) {
          path = [];
        }))
        (checkpoint id round output st ∷ []) [] st

abbrev pub continues : LoopMode → Bool → Bool
continues loop_while matched = matched
continues loop_until matched = not matched

-- What follows the condition.
unfoldable pub after_condition : CompiledLoop → StepId → Bool → Bool → RawMessage → RunState → Round
after_condition loop id last matched current st =
    if not (continues loop.config.mode matched)
    then done current
    else if last
    then halt_at max_iterations id st
    else onward current

-- What follows a completed body: checkpoint, context, condition, context.
unfoldable pub after_body :
    Engine → CompiledLoop → StepId → ℕ → Bool → RawMessage → RunState → Round × RunState
unfolding persist_loop_checkpoint after_condition
after_body eng loop id round last current st =
    let (saved, st₁) = persist_loop_checkpoint eng id round current st in
    let (over, st₂) = polled eng st₁ in
    let (over', st₃) = polled eng st₂ in
    if not saved
    then (halt_at step_failed id st, st₁)
    else if over
    then (halt_at cancelled_run id st, st₂)
    else elim (loop.config.condition current round) [
      | none ↦ (halt_at step_failed id st, st₂)
      | some matched ↦
          if over'
          then (halt_at cancelled_run id st, st₃)
          else (after_condition loop id last matched current st, st₃)
    ]

abbrev is_halt : Round → Bool
is_halt (halt _) = true
is_halt _ = false

-- The event that ends a round.
unfoldable pub close_iteration : StepId → ℕ → Round × RunState → Round × RunState
close_iteration id round (r, st) =
    (r, log (loop_finished st.position id round (not (is_halt r))) st)

-- One round: its events enclose the body and what follows it.
unfoldable pub run_iteration :
    Engine → CompiledLoop → StepId → ℕ → Bool → RawMessage → RunState → Round × RunState
unfolding run_body after_body then_round close_iteration
run_iteration eng loop id round last current st = close_iteration id round (
    then_round (after_body eng loop id round last) (
      run_body eng (iteration round) loop.steps current
        (log (loop_started st.position id round) st)))

-- The rounds, by how many are left.
unfoldable pub loop_rounds :
    Engine → CompiledLoop → StepId → (left round : ℕ) → RawMessage → RunState → Round × RunState
unfolding then_round
loop_rounds eng loop id zero round current st = (halt_at max_iterations id st, st)
loop_rounds eng loop id (suc left) round current st =
    let (over, st₁) = polled eng st in
    if over
    then (halt_at cancelled_run id st, st₁)
    else then_round (loop_rounds eng loop id left (round + 1))
        (run_iteration eng loop id round (left == 0) current st₁)

unfoldable pub execute_loop :
    Engine → CompiledLoop → StepId → RawMessage → RunState → Round × RunState
unfolding loop_rounds run_iteration
execute_loop eng loop id input st = loop_rounds eng loop id loop.config.limit 1 input st
