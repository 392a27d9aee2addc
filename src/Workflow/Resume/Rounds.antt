-- ===== src/Workflow/Resume/Rounds.antt =====
-- What one round of resumeFrames does at a stack that an executor's round turned into another one.
use lebro.Common.{
  ℕ, zero, suc, ◌<◌, ◌≡◌, refl, ◌∙◌, false, Option, none, some, List, [], ◌∷◌, ◌++◌, inl, inr,
  arith, str_eq, In, Fresh, Distinct, In-append_left, In-append_right, In-append_cases,
  Distinct-append_left, Fresh-ne,
}
use lebro.Workflow.Model.{StepId}
use lebro.Workflow.Tree.{
  CompiledStep, task, sleep, mapping, looping, branching, Steps, nil, cons, no_more, info, entry_id,
  steps_ids, branches_ids,
}
use lebro.Workflow.State.{Engine, RunState}
use lebro.Workflow.Frames.{next, visit, advance_top}
use lebro.Workflow.Frames.Rounds.{IsBranchOf, branches_of}
use lebro.Workflow.Frames.Termination.{tail, frames_weight, entered-weight, cons-weight, weight_pos}
use lebro.Workflow.Resume.{follow, resume_frames}
use lebro.Workflow.Resume.Ids.{
  frames_ids, StepStarts, StepsStart, BranchesStart, str_eq_self, str_ne, cons-ids, branch-In,
  branch-Distinct, find_entry-branch,
}

abbrev pub BelowStart : List Steps → Type 0
BelowStart [] = Unit
BelowStart (f ∷ fs) = StepsStart (tail f) × BelowStart fs

abbrev pub FramesStart : List Steps → Type 0
FramesStart [] = Unit
FramesStart (f ∷ fs) = StepsStart f × BelowStart fs

pub advance-start : (fs : List Steps) → BelowStart fs → FramesStart (advance_top fs)
unfolding advance_top StepStarts
advance-start [] w = tt
advance-start (nil ∷ fs) w = w
advance-start (cons s rest ∷ fs) w = w

pub next_no_branches :
    (eng : Engine) (s : CompiledStep) (st st' : RunState)
    → visit eng s st ≡ next st'
    → branches_of s ≡ no_more
unfolding visit
next_no_branches eng (task i) st st' h = refl
next_no_branches eng (sleep i wake) st st' h = refl
next_no_branches eng (mapping i f) st st' h = refl
next_no_branches eng (looping i c ss) st st' h = refl
next_no_branches eng (branching i bs d) st st' h = ground arith

follow-none : (path : List StepId) → follow no_more path ≡ none
unfolding follow
follow-none [] = refl
follow-none (e ∷ path) = refl

-- The premises of an induction step, at a stack with the head step `s`.
module _ (s : CompiledStep) (rest : Steps) (fs : List Steps)
    (d : Distinct (frames_ids (cons s rest ∷ fs))) where
  head-Fresh : Fresh (info s).id (branches_ids (branches_of s) ++ frames_ids (rest ∷ fs))
  head-Fresh = (rw cons-ids at d).0

  pub rest-Distinct : Distinct (branches_ids (branches_of s) ++ frames_ids (rest ∷ fs))
  rest-Distinct = (rw cons-ids at d).1

  pub entered-Distinct :
      (t : Steps) → IsBranchOf t (branches_of s) → Distinct (frames_ids (t ∷ cons s rest ∷ fs))
  entered-Distinct t b = branch-Distinct t (branches_of s) (frames_ids (rest ∷ fs)) b rest-Distinct

  pub ahead_of_next :
      (a : StepId) → In a (frames_ids (rest ∷ fs)) → In a (frames_ids (cons s rest ∷ fs))
  ahead_of_next a h =
      rw (cons-ids s rest fs)
        (inr (In-append_right a (branches_ids (branches_of s)) (frames_ids (rest ∷ fs)) h))

  pub ahead_of_enter :
      (t : Steps) (a : StepId)
      → IsBranchOf t (branches_of s)
      → In a (frames_ids (t ∷ cons s rest ∷ fs))
      → In a (branches_ids (branches_of s) ++ frames_ids (rest ∷ fs))
  ahead_of_enter t a b h = elim (In-append_cases a (steps_ids t) (frames_ids (rest ∷ fs)) h) [
    | inl l ↦
        In-append_left a (branches_ids (branches_of s)) (frames_ids (rest ∷ fs))
          (branch-In a t (branches_of s) b l)
    | inr r ↦ In-append_right a (branches_ids (branches_of s)) (frames_ids (rest ∷ fs)) r
  ]

  not_here :
      (a : StepId)
      → In a (branches_ids (branches_of s) ++ frames_ids (rest ∷ fs))
      → str_eq (info s).id a ≡ false
  not_here a h =
      str_ne (info s).id a (
        Fresh-ne (info s).id a (branches_ids (branches_of s) ++ frames_ids (rest ∷ fs)) head-Fresh
          h)

  -- The three things that a round can do, on the side of resumeFrames.
  rebuild_here :
      (m : ℕ) (path : List StepId)
      → resume_frames (suc m) (cons s rest ∷ fs) path (info s).id ≡ some (some (rest ∷ fs))
  unfolding resume_frames
  rebuild_here m path = rw (str_eq_self (info s).id)

  rebuild_next :
      (m : ℕ) (path : List StepId) (id : StepId)
      → branches_of s ≡ no_more
      → In id (frames_ids (rest ∷ fs))
      → resume_frames (suc m) (cons s rest ∷ fs) path id ≡ resume_frames m (rest ∷ fs) path id
  unfolding resume_frames
  rebuild_next m path id none_of h =
      let off =
        not_here id
          (In-append_right id (branches_ids (branches_of s)) (frames_ids (rest ∷ fs)) h) in
      let e : follow (branches_of s) path ≡ none = rw none_of (follow-none path) in
      ground (arith, off, e)

  rebuild_enter :
      (m : ℕ) (t : Steps) (path : List StepId) (id : StepId)
      → BranchesStart (branches_of s)
      → IsBranchOf t (branches_of s)
      → In id (frames_ids (t ∷ cons s rest ∷ fs))
      → resume_frames (suc m) (cons s rest ∷ fs) (entry_id t ∷ path) id
        ≡ resume_frames m (t ∷ cons s rest ∷ fs) path id
  unfolding resume_frames
  rebuild_enter m t path id w b h =
      let off = not_here id (ahead_of_enter t id b h) in
      let found = find_entry-branch t (branches_of s) b w (
        Distinct-append_left (branches_ids (branches_of s)) (frames_ids (rest ∷ fs))
          rest-Distinct) in
      ground (arith, off, found)

  -- The same, for every fuel above the weight of the stack.
  pub fuel_next :
      (path : List StepId) (id : StepId) (found : Option (Option (List Steps)))
      → branches_of s ≡ no_more
      → In id (frames_ids (rest ∷ fs))
      → ((m : ℕ) → frames_weight (rest ∷ fs) < m → resume_frames m (rest ∷ fs) path id ≡ found)
      → (m : ℕ) → frames_weight (cons s rest ∷ fs) < m
      → resume_frames m (cons s rest ∷ fs) path id ≡ found
  fuel_next path id found none_of h r zero lt = absurd (omega arith)
  fuel_next path id found none_of h r (suc m) lt =
      rebuild_next m path id none_of h ∙ r m (omega (arith, cons-weight s rest, weight_pos s))

  pub fuel_enter :
      (t : Steps) (path : List StepId) (id : StepId) (found : Option (Option (List Steps)))
      → BranchesStart (branches_of s)
      → IsBranchOf t (branches_of s)
      → In id (frames_ids (t ∷ cons s rest ∷ fs))
      → ((m : ℕ)
          → frames_weight (t ∷ cons s rest ∷ fs) < m
          → resume_frames m (t ∷ cons s rest ∷ fs) path id ≡ found)
      → (m : ℕ) → frames_weight (cons s rest ∷ fs) < m
      → resume_frames m (cons s rest ∷ fs) (entry_id t ∷ path) id ≡ found
  fuel_enter t path id found w b h r zero lt = absurd (omega arith)
  fuel_enter t path id found w b h r (suc m) lt =
      rebuild_enter m t path id w b h
      ∙ r m (omega (arith, cons-weight s rest, entered-weight s t b))

  pub fuel_here :
      (path : List StepId) (m : ℕ)
      → frames_weight (cons s rest ∷ fs) < m
      → resume_frames m (cons s rest ∷ fs) path (info s).id ≡ some (some (rest ∷ fs))
  fuel_here path zero lt = absurd (omega arith)
  fuel_here path (suc m) lt = rebuild_here m path

pub step-start : (s : CompiledStep) → StepStarts s → BranchesStart (branches_of s)
unfolding StepStarts
step-start (task i) w = tt
step-start (sleep i wake) w = tt
step-start (mapping i f) w = tt
step-start (looping i c ss) w = tt
step-start (branching i bs d) w = w

pub cons-start :
    (s : CompiledStep) (rest : Steps) → StepsStart (cons s rest) → StepStarts s × StepsStart rest
unfolding StepStarts
cons-start s rest w = w
