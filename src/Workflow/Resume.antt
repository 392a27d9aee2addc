-- ===== src/Workflow/Resume.antt =====
-- resumeFrames of internal/runtime/workflow.go: the frame stack of a suspended run, rebuilt from
-- the path of selected branches and the ID of the step that suspended.
pub mod Ids
pub mod Rounds
pub mod Correct
use lebro.Common.{
  ℕ, zero, suc, String, Bool, true, false, Option, none, some, List, [], ◌∷◌, str_eq, if◌then◌else◌,
}
use lebro.Workflow.Model.{StepId}
use lebro.Workflow.Tree.{
  CompiledStep, branching, Steps, nil, cons, Branches, no_more, branch, info, entry_id,
}
use lebro.Workflow.Frames.{advance_top}
use lebro.Workflow.Frames.Rounds.{branches_of}

-- The loop over a step's branches for the entry ID that the path names.
unfoldable pub find_entry : StepId → Branches → Option Steps
find_entry e no_more = none
find_entry e (branch _ _ steps rest) =
    if str_eq (entry_id steps) e then some steps else find_entry e rest

-- The branch to walk into, with what the path is then.
unfoldable pub follow : Branches → List StepId → Option (Steps × List StepId)
unfolding find_entry
follow branches [] = none
follow branches (e ∷ path) = elim (find_entry e branches) [
  | none ↦ none
  | some steps ↦ some (steps, path)
]

-- The loop on fuel: `none` when it runs out, `some none` when the step is not found.
unfoldable pub resume_frames : ℕ → List Steps → List StepId → StepId → Option (Option (List Steps))
unfolding follow advance_top
resume_frames zero fs path id = none
resume_frames (suc n) [] path id = some none
resume_frames (suc n) (nil ∷ fs) path id = resume_frames n (advance_top fs) path id
resume_frames (suc n) (cons s rest ∷ fs) path id =
    let behind = resume_frames n (rest ∷ fs) path id in
    let inside : Option (Option (List Steps)) = elim (follow (branches_of s) path) [
      | none ↦ behind
      | some (steps, path') ↦ resume_frames n (steps ∷ cons s rest ∷ fs) path' id
    ] in
    if str_eq (info s).id id then some (some (rest ∷ fs)) else inside
