-- ===== src/Workflow/Tree.antt =====
-- The compiled step tree of internal/runtime/workflow.go: compiledStep, compiledBranch, and
-- selectBranch. A step's control-flow form is one constructor: `validateStepTree` admits no step
-- that combines two.
use lebro.Common.{
  ℕ, ◌+◌, String, Bool, true, false, Option, List, [], ◌∷◌, ◌++◌, str_eq, if◌then◌else◌,
}
use lebro.Workflow.Model.{RawMessage, StepId, CompiledSchema, Handler, RetryPolicy}

-- What a predicate answers, (bool, error): an error may be one that wraps
-- ErrWorkflowNoBranchMatched.
pub data Verdict : Type 0 where
  verdict : Bool → Verdict
  plain_failure no_match_failure : Verdict

-- A user function, which is documented to be pure and deterministic.
abbrev pub BranchPredicate : Type 0
BranchPredicate = RawMessage → Verdict

-- Sleep waits for a duration from now, SleepUntil for an instant.
pub data Wake : Type 0 where
  sleep_for sleep_until : ℕ → Wake

pub record StepInfo : Type 0 where
  pub id : StepId
  pub handler : Handler
  pub input_schema : Option CompiledSchema
  pub output_schema : Option CompiledSchema
  pub suspend_schema : Option CompiledSchema
  pub retry : Option RetryPolicy

pub data LoopMode : Type 0 where
  loop_while loop_until : LoopMode

-- compiledLoop but for its steps; its condition is a user function (bool, error), `none` its error.
pub record LoopConfig : Type 0 where
  pub limit : ℕ
  pub condition : RawMessage → ℕ → Option Bool
  pub mode : LoopMode

mutual
  pub data CompiledStep : Type 0 where
    -- a handler
    task : StepInfo → CompiledStep
    sleep : StepInfo → Wake → CompiledStep
    -- a map, by what executeMap does to a JSON text: `none` for an error
    mapping : StepInfo → (RawMessage → Option RawMessage) → CompiledStep
    -- a loop over child steps
    looping : StepInfo → LoopConfig → Steps → CompiledStep
    -- branches, and the name of the default one ("" for none)
    branching : StepInfo → Branches → String → CompiledStep

  pub data Steps : Type 0 where
    nil : Steps
    cons : CompiledStep → Steps → Steps

  pub data Branches : Type 0 where
    no_more : Branches
    branch : String → BranchPredicate → Steps → Branches → Branches

abbrev pub info : CompiledStep → StepInfo
info (task i) = i
info (sleep i _) = i
info (mapping i _) = i
info (looping i _ _) = i
info (branching i _ _) = i

-- compiledBranch.entryID: the ID of the branch's first step.
unfoldable pub entry_id : Steps → StepId
entry_id nil = ""
entry_id (cons s _) = (info s).id

-- A branch, or the kind of the error that its callers make of selectBranch's.
pub data Selection : Type 0 where
  selected : String → Steps → Selection
  condition_failed no_branch_matched : Selection

unfoldable pub find_branch : String → Branches → Selection
find_branch name no_more = no_branch_matched
find_branch name (branch n _ steps rest) =
    if str_eq n name then selected n steps else find_branch name rest

-- The predicates in order; `fallback` is what follows the loop over them.
unfoldable pub first_match : Selection → RawMessage → Branches → Selection
first_match fallback input no_more = fallback
first_match fallback input (branch n condition steps rest) =
    let others = first_match fallback input rest in
    elim (condition input) [
      | plain_failure ↦ condition_failed
      | no_match_failure ↦ no_branch_matched
      | verdict true ↦ selected n steps
      | verdict false ↦ others
    ]

unfoldable pub select_branch : Branches → String → RawMessage → Selection
unfolding find_branch first_match
select_branch branches default input =
    first_match (if str_eq default "" then no_branch_matched else find_branch default branches)
      input branches

-- The IDs of the steps of a tree that frames visit (the children of a loop are not), each step before
-- its branches' steps.
unfoldable mutual
  pub step_ids : CompiledStep → List StepId
  step_ids (task i) = i.id ∷ []
  step_ids (sleep i _) = i.id ∷ []
  step_ids (mapping i _) = i.id ∷ []
  step_ids (looping i _ _) = i.id ∷ []
  step_ids (branching i bs _) = i.id ∷ branches_ids bs

  pub steps_ids : Steps → List StepId
  steps_ids nil = []
  steps_ids (cons s rest) = step_ids s ++ steps_ids rest

  pub branches_ids : Branches → List StepId
  branches_ids no_more = []
  branches_ids (branch _ _ steps rest) = steps_ids steps ++ branches_ids rest

-- The rounds of the executor's loop that a tree can take.
unfoldable mutual
  pub step_weight : CompiledStep → ℕ
  step_weight (task _) = 1
  step_weight (sleep _ _) = 1
  step_weight (mapping _ _) = 1
  step_weight (looping _ _ _) = 1
  step_weight (branching _ bs _) = 1 + branches_weight bs

  pub steps_weight : Steps → ℕ
  steps_weight nil = 1
  steps_weight (cons s rest) = step_weight s + steps_weight rest

  pub branches_weight : Branches → ℕ
  branches_weight no_more = 0
  branches_weight (branch _ _ steps rest) = steps_weight steps + branches_weight rest
