-- ===== src/Workflow/FanOut.antt =====
-- executeFanOutBranch of internal/runtime/workflow.go, which runs one branch of a fan-out step. The
-- schedule of the goroutines is not modelled.
mod Tests
use lebro.Common.{
  ℕ, zero, suc, ◌+◌, String, Bool, true, false, not, ◌&&◌, Option, none, some, List, [], ◌∷◌, ◌++◌,
  if◌then◌else◌,
}
use lebro.Workflow.Model.{
  RawMessage, StepId, Handler, panicked, RetryPolicy, RunStatus, succeeded, failed, cancelled,
  child_started, child_finished, branch_named, branch_selected, World, Env, emit, poll, accepts,
}
use lebro.Workflow.Retry.{
  RetryStep, RetryOutcome, retry_failed, retry_cancelled, retry_panicked, retry_invalid_output,
  retry_suspended, Retried, succeeded_with, ended, run_step_with_retry, resolve_retry_policy,
}
use lebro.Workflow.Tree.{
  StepInfo, CompiledStep, task, sleep, branching, Steps, nil, cons, info, Selection, selected,
  condition_failed, no_branch_matched, select_branch,
}
use lebro.Workflow.State.{
  ErrorKind, invalid_step_input, invalid_step_output, invalid_branch_input, step_failed,
  step_panicked, branch_condition_failed, cancelled_run, fan_out_input_mapper_failed,
  fan_out_branch_failed, WorkflowError,
}
use lebro.Workflow.State

-- fanOutBranchOutcome.
pub record BranchOutcome : Type 0 where
  pub output : RawMessage
  pub status : RunStatus
  pub failure : Option WorkflowError

-- compiledFanOutBranch: a mapper is a user function (value, error), `none` its error.
pub record FanOutBranch : Type 0 where
  pub name : String
  pub input_mapper : Option (RawMessage → Option RawMessage)
  pub steps : Steps

abbrev branch_failure : RunStatus → ErrorKind → ℕ → StepId → BranchOutcome
branch_failure status kind position id = record {
  output = [];
  status = status;
  failure = some (record { kind = kind; step = position; step_id = id });
}

-- Calling the handler of a step that has none panics, and the panic is recovered.
abbrev pub nil_handler : Handler
nil_handler calls input = panicked 0

abbrev pub handler_of : CompiledStep → Handler
handler_of (task i) = i.handler
handler_of _ = nil_handler

abbrev pub child_step : CompiledStep → RetryStep
child_step s = record {
  step_id = (info s).id;
  handler = handler_of s;
  output_schema = (info s).output_schema;
  suspend_schema = (info s).suspend_schema;
  retry = (info s).retry;
}

abbrev outcome_kind : RetryOutcome → ErrorKind
outcome_kind (retry_failed _) = step_failed
outcome_kind (retry_cancelled _) = cancelled_run
outcome_kind (retry_panicked _) = step_panicked
outcome_kind (retry_invalid_output _) = invalid_step_output
outcome_kind (retry_suspended _) = invalid_step_output

abbrev outcome_status : RetryOutcome → RunStatus
outcome_status (retry_cancelled _) = cancelled
outcome_status _ = failed

unfoldable pub append_steps : Steps → Steps → Steps
append_steps nil ys = ys
append_steps (cons s xs) ys = cons s (append_steps xs ys)

-- What one round over `remaining` does.
pub data Child : Type 0 where
  onward : RawMessage → Child
  into : Steps → Child
  out : BranchOutcome → Child

unfoldable pub run_child_branching : ℕ → String → CompiledStep → Selection → World → Child × World
run_child_branching position name s (selected n steps) w = (
  into steps,
  emit (child_finished position (info s).id (branch_named name) true)
      (emit (branch_selected position (info s).id n) w),
)
run_child_branching position name s condition_failed w = (
  out (branch_failure failed branch_condition_failed position (info s).id),
  emit (child_finished position (info s).id (branch_named name) false) w,
)
run_child_branching position name s no_branch_matched w = (
  out (branch_failure failed State.no_branch_matched position (info s).id),
  emit (child_finished position (info s).id (branch_named name) false) w,
)

unfoldable pub run_child_task :
    Env
    → List (StepId × RetryPolicy)
    → ℕ
    → String
    → CompiledStep
    → RawMessage
    → World
    → Child × World
run_child_task env overrides position name s current w =
    let (r, w') =
      run_step_with_retry env position (child_step s)
        (resolve_retry_policy (info s).retry overrides (info s).id) current w in
    elim r [
      | succeeded_with output ↦
          (onward output, emit (child_finished position (info s).id (branch_named name) true) w')
      | ended o ↦ (
        out (branch_failure (outcome_status o) (outcome_kind o) position (info s).id),
        emit (child_finished position (info s).id (branch_named name) false) w',
      )
    ]

unfoldable pub run_child :
    Env
    → List (StepId × RetryPolicy)
    → ℕ
    → String
    → CompiledStep
    → RawMessage
    → World
    → Child × World
unfolding run_child_branching run_child_task
run_child env overrides position name (branching i branches default) current w =
    if accepts i.input_schema current
    then run_child_branching position name (branching i branches default)
        (select_branch branches default current) w
    else (
      out (branch_failure failed invalid_branch_input position i.id),
      emit (child_finished position i.id (branch_named name) false) w,
    )
run_child env overrides position name s current w =
    if accepts (info s).input_schema current
    then run_child_task env overrides position name s current w
    else (
      out (branch_failure failed invalid_step_input position (info s).id),
      emit (child_finished position (info s).id (branch_named name) false) w,
    )

-- The loop over the remaining steps, on fuel.
unfoldable pub run_children :
    ℕ
    → Env
    → List (StepId × RetryPolicy)
    → ℕ
    → String
    → Steps
    → RawMessage
    → World
    → Option (BranchOutcome × World)
unfolding run_child append_steps
run_children zero env overrides position name remaining current w = none
run_children (suc n) env overrides position name nil current w =
    some (record { output = current; status = succeeded; failure = none }, w)
run_children (suc n) env overrides position name (cons s rest) current w =
    let (err, w₁) = poll env w in
    elim err [
      | some c ↦ some (branch_failure cancelled cancelled_run position (info s).id, w₁)
      | none ↦
          let w₂ = emit (child_started position (info s).id (branch_named name)) w₁ in
          let (c, w₃) = run_child env overrides position name s current w₂ in
          elim c [
            | onward output ↦ run_children n env overrides position name rest output w₃
            | into steps ↦
                run_children n env overrides position name (append_steps steps rest) current w₃
            | out o ↦ some (o, w₃)
          ]
    ]

unfoldable pub execute_fan_out_branch :
    ℕ
    → Env
    → List (StepId × RetryPolicy)
    → ℕ
    → StepId
    → FanOutBranch
    → RawMessage
    → World
    → Option (BranchOutcome × World)
unfolding run_children
execute_fan_out_branch n env overrides position fan_id b input w =
    let (err, w₁) = poll env w in
    elim err [
      | some c ↦ some (branch_failure cancelled cancelled_run position fan_id, w₁)
      | none ↦ elim b.input_mapper [
        | none ↦ run_children n env overrides position b.name b.steps input w₁
        | some mapper ↦ elim (mapper input) [
          | none ↦ some (branch_failure failed fan_out_input_mapper_failed position fan_id, w₁)
          | some mapped ↦ run_children n env overrides position b.name b.steps mapped w₁
        ]
      ]
    ]
