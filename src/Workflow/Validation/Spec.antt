-- ===== src/Workflow/Validation/Spec.antt =====
-- What validateStepTree is to ensure, said of a whole tree: its step IDs, and its rules.
use lebro.Common.{ℕ, ◌≤◌, ◌<◌, ◌≡◌, ◌≢◌, String, true, List, [], ◌∷◌, ◌++◌, pos, Distinct, In}
use lebro.Workflow.Model.{StepId}
use lebro.Workflow.Definition.{
  Step, step, StepList, no_steps, one_step, BranchList, no_branches, one_branch, FanOut, no_fan_out,
  fan_out, FanOutBranches, no_fan_out_branches, one_fan_out_branch, ForEach, no_for_each, for_each,
  LoopForm, no_loop, loop, has_steps, is_set,
}
use lebro.Workflow.StepChecks.{control_count, max_loop_iterations}

-- The IDs of all steps of a definition, at any depth and in any form.
unfoldable mutual
  pub definition_ids : Step → List StepId
  definition_ids (step h bs fo m fe dw du s su) =
      h.id
      ∷ (branch_ids bs ++ (fan_out_ids fo ++ (for_each_ids fe ++ (loop_ids dw ++ loop_ids du))))

  pub list_ids : StepList → List StepId
  list_ids no_steps = []
  list_ids (one_step s rest) = definition_ids s ++ list_ids rest

  pub branch_ids : BranchList → List StepId
  branch_ids no_branches = []
  branch_ids (one_branch _ _ steps rest) = list_ids steps ++ branch_ids rest

  pub fan_out_ids : FanOut → List StepId
  fan_out_ids no_fan_out = []
  fan_out_ids (fan_out _ _ bs) = fan_out_branch_ids bs

  pub fan_out_branch_ids : FanOutBranches → List StepId
  fan_out_branch_ids no_fan_out_branches = []
  fan_out_branch_ids (one_fan_out_branch _ steps rest) = list_ids steps ++ fan_out_branch_ids rest

  pub for_each_ids : ForEach → List StepId
  for_each_ids no_for_each = []
  for_each_ids (for_each _ steps) = list_ids steps

  pub loop_ids : LoopForm → List StepId
  loop_ids no_loop = []
  loop_ids (loop _ _ steps) = list_ids steps

abbrev pub branch_names : BranchList → List String
branch_names no_branches = []
branch_names (one_branch name _ _ rest) = name ∷ branch_names rest

abbrev pub fan_out_names : FanOutBranches → List String
fan_out_names no_fan_out_branches = []
fan_out_names (one_fan_out_branch name _ rest) = name ∷ fan_out_names rest

-- A default is one of the branches.
abbrev pub DefaultNamed : String → BranchList → Type 0
DefaultNamed default no_branches = Unit
DefaultNamed default (one_branch name condition steps rest) =
    default ≢ "" → In default (branch_names (one_branch name condition steps rest))

-- Every step has a name and at most one form, a step without a form has a handler; every branch has
-- steps and a condition; a loop has a condition, steps and a bound; and so on below.
unfoldable mutual
  pub WellFormed : Step → Type 0
  WellFormed (step h bs fo m fe dw du s su) =
      (h.id ≢ "")
      × (control_count (step h bs fo m fe dw du s su) ≤ 1)
      × ((control_count (step h bs fo m fe dw du s su) ≡ 0) → is_set h.handler ≡ true)
      × BranchesWellFormed bs
      × Distinct (branch_names bs)
      × DefaultNamed h.default bs
      × FanOutWellFormed fo
      × ForEachWellFormed fe
      × LoopWellFormed dw
      × LoopWellFormed du

  pub ListWellFormed : StepList → Type 0
  ListWellFormed no_steps = Unit
  ListWellFormed (one_step s rest) = WellFormed s × ListWellFormed rest

  pub BranchesWellFormed : BranchList → Type 0
  BranchesWellFormed no_branches = Unit
  BranchesWellFormed (one_branch name condition steps rest) =
      (name ≢ "")
      × (is_set condition ≡ true)
      × (has_steps steps ≡ true)
      × ListWellFormed steps
      × BranchesWellFormed rest

  pub FanOutWellFormed : FanOut → Type 0
  FanOutWellFormed no_fan_out = Unit
  FanOutWellFormed (fan_out _ _ bs) = FanOutBranchesWellFormed bs × Distinct (fan_out_names bs)

  pub FanOutBranchesWellFormed : FanOutBranches → Type 0
  FanOutBranchesWellFormed no_fan_out_branches = Unit
  FanOutBranchesWellFormed (one_fan_out_branch name steps rest) =
      (name ≢ "") × (has_steps steps ≡ true) × ListWellFormed steps × FanOutBranchesWellFormed rest

  pub ForEachWellFormed : ForEach → Type 0
  ForEachWellFormed no_for_each = Unit
  ForEachWellFormed (for_each _ steps) = (has_steps steps ≡ true) × ListWellFormed steps

  pub LoopWellFormed : LoopForm → Type 0
  LoopWellFormed no_loop = Unit
  LoopWellFormed (loop limit condition steps) =
      (n : ℕ) × (limit ≡ pos n)
      × (0 < n)
      × (n ≤ max_loop_iterations)
      × (is_set condition ≡ true)
      × (has_steps steps ≡ true)
      × ListWellFormed steps
