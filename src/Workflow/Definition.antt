-- ===== src/Workflow/Definition.antt =====
-- The definition of a workflow as a caller writes it: Step, StepDefinition and the control-flow forms
-- of internal/runtime/workflow.go, before anything is checked or compiled.
use lebro.Common.{ℕ, String, Bool, true, false, Option, none, some, List, [], ◌∷◌, ℤ}
use lebro.Workflow.Model.{RawMessage, StepId, Handler, RetryPolicy}
use lebro.Workflow.Tree.{BranchPredicate}

-- The fields of a step's definition that hold no steps, and its handler.
pub record StepHead : Type 0 where
  pub id : StepId
  pub handler : Option Handler
  pub input_schema : RawMessage
  pub output_schema : RawMessage
  pub suspend_schema : RawMessage
  pub retry : Option RetryPolicy
  pub default : String

-- Map
pub record MapForm : Type 0 where
  pub path : String
  pub fields : List (String × String)

-- LoopPredicate, a user function (bool, error).
abbrev pub LoopPredicate : Type 0
LoopPredicate = RawMessage → ℕ → Option Bool

mutual
  -- a head; Branches, FanOut, Map, ForEach, DoWhile, DoUntil; the duration of Sleep; the instant of
  -- SleepUntil, `some none` for the zero time
  pub data Step : Type 0 where
    step :
        StepHead
        → BranchList
        → FanOut
        → Option MapForm
        → ForEach
        → LoopForm
        → LoopForm
        → Option ℤ
        → Option (Option ℕ)
        → Step

  pub data StepList : Type 0 where
    no_steps : StepList
    one_step : Step → StepList → StepList

  -- Branch: name, condition, steps
  pub data BranchList : Type 0 where
    no_branches : BranchList
    one_branch : String → Option BranchPredicate → StepList → BranchList → BranchList

  -- FanOut: failure policy, bound on parallel branches, branches
  pub data FanOut : Type 0 where
    no_fan_out : FanOut
    fan_out : String → ℤ → FanOutBranches → FanOut

  pub data FanOutBranches : Type 0 where
    no_fan_out_branches : FanOutBranches
    one_fan_out_branch : String → StepList → FanOutBranches → FanOutBranches

  pub data ForEach : Type 0 where
    no_for_each : ForEach
    for_each : ℤ → StepList → ForEach

  -- DoWhile and DoUntil: bound on iterations, condition, steps
  pub data LoopForm : Type 0 where
    no_loop : LoopForm
    loop : ℤ → Option LoopPredicate → StepList → LoopForm

abbrev pub has_branches : BranchList → Bool
has_branches no_branches = false
has_branches (one_branch _ _ _ _) = true

abbrev pub has_fan_out : FanOut → Bool
has_fan_out no_fan_out = false
has_fan_out (fan_out _ _ _) = true

abbrev pub has_fan_out_branches : FanOutBranches → Bool
has_fan_out_branches no_fan_out_branches = false
has_fan_out_branches (one_fan_out_branch _ _ _) = true

abbrev pub has_for_each : ForEach → Bool
has_for_each no_for_each = false
has_for_each (for_each _ _) = true

abbrev pub has_loop : LoopForm → Bool
has_loop no_loop = false
has_loop (loop _ _ _) = true

abbrev pub has_steps : StepList → Bool
has_steps no_steps = false
has_steps (one_step _ _) = true

abbrev pub is_set : {A : Type 0} → Option A → Bool
is_set none = false
is_set (some _) = true

abbrev pub is_given : RawMessage → Bool
is_given [] = false
is_given (_ ∷ _) = true

abbrev pub head : Step → StepHead
head (step h _ _ _ _ _ _ _ _) = h
