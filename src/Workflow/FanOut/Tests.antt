-- ===== src/Workflow/FanOut/Tests.antt =====
-- Fan-out branches run on concrete steps.
use lebro.Common.{◌≡◌, refl, Option, none, some, []}
use lebro.Workflow.Model.{Handler, returned, World, Env}
use lebro.Workflow.Tree.{StepInfo, sleep, sleep_for, nil, cons}
use lebro.Workflow.State.{ErrorKind, step_panicked}
use lebro.Workflow.Retry.{run_step_with_retry, resolve_retry_policy}
use lebro.Workflow.FanOut.{BranchOutcome, run_children}

abbrev alive : Env
alive = record { context = λ _. none }

abbrev start : World
start = record { polls = 0; calls = 0; events = [] }

abbrev step_with : Handler → StepInfo
step_with h = record {
  id = "call";
  handler = h;
  input_schema = none;
  output_schema = none;
  suspend_schema = none;
  retry = none;
}

abbrev kind_of : Option (BranchOutcome × World) → Option ErrorKind
kind_of none = none
kind_of (some r) = elim r.0.failure [ none ↦ none | some e ↦ some e.kind ]

-- The executor of branches invokes the handler of a sleep, which has none.
branch_sleep :
    kind_of (
      run_children 2 alive [] 3 "b"
        (cons (sleep (step_with (λ _ v. returned v)) (sleep_for 5)) nil)
        []
        start)
    ≡ some step_panicked
unfolding run_children run_step_with_retry resolve_retry_policy
branch_sleep = refl
