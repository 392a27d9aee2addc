-- ===== src/Workflow/Construction/Tests.antt =====
-- A workflow with branches and a loop, checked and built.
use lebro.Common.{◌≡◌, ◌≢◌, refl, true, false, Option, none, some, [], ◌∷◌, Distinct, String, pos}
use lebro.Workflow.Model.{Handler}
use lebro.Workflow.Tests.{append_byte}
use lebro.Workflow.Tree.{Steps, nil, verdict}
use lebro.Workflow.Retry.{validate_retry_policy}
use lebro.Workflow.Resume.Correct.{IsValidTree}
use lebro.Workflow.Definition.{
  StepHead, Step, step, StepList, no_steps, one_step, no_branches, one_branch, no_fan_out, fan_out,
  no_fan_out_branches, one_fan_out_branch, no_for_each, no_loop, loop,
}
use lebro.Workflow.StepChecks.{Validation}
use lebro.Workflow.Validation.{validate_step_tree}
use lebro.Workflow.Validation.Spec.{ListWellFormed, list_ids}
use lebro.Workflow.Validation.Sound.{fresh_validation, validate_sound}
use lebro.Workflow.Construction.{Toolkit, Construction, built, crashed, new_linear_workflow}
use lebro.Workflow.Construction.Safe.{new_linear_workflow_never_panics}
use lebro.Workflow.Construction.Valid.{new_linear_workflow-IsValidTree}

abbrev head_of : String → Option Handler → String → StepHead
head_of id handler default = record {
  id = id;
  handler = handler;
  input_schema = [];
  output_schema = [];
  suspend_schema = [];
  retry = none;
  default = default;
}

abbrev plain_step : String → Step
plain_step id =
    step (head_of id (some (append_byte 1)) "") no_branches no_fan_out none no_for_each no_loop
      no_loop none none

abbrev routed : Step
routed =
    step (head_of "route" none "no")
      (one_branch "yes" (some (λ input. verdict true)) (one_step (plain_step "accept") no_steps) (
        one_branch "no" (some (λ input. verdict false)) (one_step (plain_step "reject") no_steps)
          no_branches))
      no_fan_out none no_for_each no_loop no_loop none none

abbrev repeated : Step
repeated =
    step (head_of "again" none "") no_branches no_fan_out none no_for_each
      (loop (pos 3) (some (λ output round. some false)) (one_step (plain_step "body") no_steps))
      no_loop none none

abbrev defined : StepList
defined = one_step routed (one_step repeated no_steps)

-- With a fan-out step, which the tree does not have.
abbrev spread : StepList
spread =
    one_step
      (step (head_of "spread" none "") no_branches
        (fan_out "" (pos 2)
          (one_fan_out_branch "left" (one_step (plain_step "work") no_steps) no_fan_out_branches))
        none no_for_each no_loop no_loop none none)
      defined

abbrev checked : Validation
checked = record {
  seen = "spread" ∷ "work" ∷ "route" ∷ "accept" ∷ "reject" ∷ "again" ∷ "body" ∷ [];
  has_schema = false;
}

spread_lem : validate_step_tree spread fresh_validation ≡ some checked
unfolding validate_step_tree
spread_lem = refl

doubled_lem : validate_step_tree (one_step (plain_step "body") defined) fresh_validation ≡ none
unfolding validate_step_tree
doubled_lem = refl

validate_sound_example :
    ListWellFormed spread × Distinct (list_ids spread) × (checked.seen ≡ list_ids spread)
validate_sound_example = validate_sound spread checked spread_lem

abbrev toolkit : Toolkit
toolkit = record { json_valid = λ v. true; compiler = none; execute_map = λ path fields v. some v }

abbrev tree_of : Construction (Option Steps) → Steps
tree_of (built (some t)) = t
tree_of _ = nil

abbrev tree : Steps
tree = tree_of (new_linear_workflow toolkit "triage" defined)

tree_lem : new_linear_workflow toolkit "triage" defined ≡ built (some tree)
unfolding new_linear_workflow validate_retry_policy
tree_lem = refl

new_linear_workflow-IsValidTree_example : IsValidTree tree
new_linear_workflow-IsValidTree_example =
    new_linear_workflow-IsValidTree toolkit "triage" defined tree tree_lem

new_linear_workflow_never_panics_example : new_linear_workflow toolkit "triage" spread ≢ crashed
new_linear_workflow_never_panics_example = new_linear_workflow_never_panics toolkit "triage" spread
