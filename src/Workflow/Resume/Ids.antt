-- ===== src/Workflow/Resume/Ids.antt =====
-- The step IDs that a frame stack has yet to visit, when all of them differ.
use mathlib.Core.List.{append_assoc}
use lebro.Common.{
  ◌≡◌, ◌≢◌, refl, ap, ◌∙◌, String, true, false, some, List, [], ◌∷◌, ◌++◌, inl, inr, arith, str_eq,
  eq_iff, In, Distinct, In-append_left, In-append_right, Distinct-append_right,
  Distinct-drop_middle, Distinct-append_ne,
}
use lebro.Workflow.Model.{StepId}
use lebro.Workflow.Tree.{
  CompiledStep, task, sleep, mapping, looping, branching, Steps, nil, cons, Branches, no_more,
  branch, info, entry_id, step_ids, steps_ids, branches_ids,
}
use lebro.Workflow.Frames.{advance_top}
use lebro.Workflow.Frames.Rounds.{IsBranchOf, branches_of}
use lebro.Workflow.Frames.Termination.{tail}
use lebro.Workflow.Resume.{find_entry}

abbrev pub below_ids : List Steps → List StepId
below_ids [] = []
below_ids (f ∷ fs) = steps_ids (tail f) ++ below_ids fs

abbrev pub frames_ids : List Steps → List StepId
frames_ids [] = []
frames_ids (f ∷ fs) = steps_ids f ++ below_ids fs

abbrev pub IsNonempty : Steps → Type 0
IsNonempty nil = ⊥
IsNonempty (cons _ _) = Unit

-- Every branch at every depth has a first step, as `validateStepTree` demands.
unfoldable mutual
  pub StepStarts : CompiledStep → Type 0
  StepStarts (task _) = Unit
  StepStarts (sleep _ _) = Unit
  StepStarts (mapping _ f) = Unit
  StepStarts (looping _ c ss) = Unit
  StepStarts (branching _ bs _) = BranchesStart bs

  pub StepsStart : Steps → Type 0
  StepsStart nil = Unit
  StepsStart (cons s rest) = StepStarts s × StepsStart rest

  pub BranchesStart : Branches → Type 0
  BranchesStart no_more = Unit
  BranchesStart (branch _ _ steps rest) = IsNonempty steps × (StepsStart steps × BranchesStart rest)

pub str_eq_self : (a : String) → str_eq a a ≡ true
str_eq_self a = (eq_iff a a).1 refl

pub str_ne : (a b : String) → a ≢ b → str_eq a b ≡ false
str_ne a b h = ground (arith, eq_iff a b)

-- An exhausted frame has no steps left to visit.
pub advance-ids : (fs : List Steps) → frames_ids (advance_top fs) ≡ frames_ids (nil ∷ fs)
unfolding advance_top steps_ids
advance-ids [] = refl
advance-ids (nil ∷ fs) = refl
advance-ids (cons s rest ∷ fs) = refl

step_ids_lem : (s : CompiledStep) → step_ids s ≡ (info s).id ∷ branches_ids (branches_of s)
unfolding step_ids
step_ids_lem (task i) = refl
step_ids_lem (sleep i w) = refl
step_ids_lem (mapping i f) = refl
step_ids_lem (looping i c ss) = refl
step_ids_lem (branching i bs d) = refl

-- The IDs of a stack, taken apart at its head step.
pub cons-ids :
    (s : CompiledStep) (rest : Steps) (fs : List Steps)
    → frames_ids (cons s rest ∷ fs)
      ≡ (info s).id ∷ (branches_ids (branches_of s) ++ frames_ids (rest ∷ fs))
unfolding steps_ids
cons-ids s rest fs =
    append_assoc (step_ids s) (steps_ids rest) (below_ids fs)
    ∙ ap (λ (l : List StepId). l ++ frames_ids (rest ∷ fs)) (step_ids_lem s)

entry-In : (t : Steps) → IsNonempty t → In (entry_id t) (steps_ids t)
unfolding entry_id steps_ids
entry-In nil h = absurd h
entry-In (cons s rest) h =
    In-append_left (info s).id (step_ids s) (steps_ids rest) (rw (step_ids_lem s) (inl refl))

pub branch-starts :
    (t : Steps) (bs : Branches) → IsBranchOf t bs → BranchesStart bs → IsNonempty t × StepsStart t
unfolding StepStarts
branch-starts t no_more b w = absurd b
branch-starts t (branch n c u rest) (inl e) w = subst_steps e (w.0, w.1.0)
  where
    subst_steps : t ≡ u → IsNonempty u × StepsStart u → IsNonempty t × StepsStart t
    subst_steps p h = rw p h
branch-starts t (branch n c u rest) (inr b) w = branch-starts t rest b w.1.1

pub branch-In :
    (a : StepId) (t : Steps) (bs : Branches)
    → IsBranchOf t bs
    → In a (steps_ids t)
    → In a (branches_ids bs)
unfolding steps_ids
branch-In a t no_more b h = absurd b
branch-In a t (branch n c u rest) (inl e) h =
    In-append_left a (steps_ids u) (branches_ids rest) (rw e at h)
branch-In a t (branch n c u rest) (inr b) h =
    In-append_right a (steps_ids u) (branches_ids rest) (branch-In a t rest b h)

pub branch-Distinct :
    (t : Steps) (bs : Branches) (r : List StepId)
    → IsBranchOf t bs
    → Distinct (branches_ids bs ++ r)
    → Distinct (steps_ids t ++ r)
unfolding steps_ids
branch-Distinct t no_more r b d = absurd b
branch-Distinct t (branch n c u rest) r (inl e) d =
    rw e (Distinct-drop_middle (steps_ids u) (branches_ids rest) r (rw append_assoc at d))
branch-Distinct t (branch n c u rest) r (inr b) d =
    branch-Distinct t rest r b
      (Distinct-append_right (steps_ids u) (branches_ids rest ++ r) (rw append_assoc at d))

-- The entry ID of a branch finds that branch.
pub find_entry-branch :
    (t : Steps) (bs : Branches)
    → IsBranchOf t bs
    → BranchesStart bs
    → Distinct (branches_ids bs)
    → find_entry (entry_id t) bs ≡ some t
unfolding find_entry steps_ids StepStarts
find_entry-branch t no_more b w d = absurd b
find_entry-branch t (branch n c u rest) (inl e) w d = rw e (rw (str_eq_self (entry_id u)))
find_entry-branch t (branch n c u rest) (inr b) w d =
    let apart =
      Distinct-append_ne (entry_id u) (entry_id t) (steps_ids u) (branches_ids rest) d
        (entry-In u w.0)
        (branch-In (entry_id t) t rest b (entry-In t (branch-starts t rest b w.1.1).0)) in
    rw (str_ne (entry_id u) (entry_id t) apart)
      (find_entry-branch t rest b w.1.1 (Distinct-append_right (steps_ids u) (branches_ids rest) d))
