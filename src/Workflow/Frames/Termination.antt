-- ===== src/Workflow/Frames/Termination.antt =====
-- executeFrames ends: a bound on its rounds by the size of the step tree.
use lebro.Common.{ℕ, zero, suc, ◌+◌, ◌≤◌, ◌<◌, ◌≡◌, refl, ap, some, List, [], ◌∷◌, inl, inr, arith}
use lebro.Workflow.Tree.{
  CompiledStep, task, sleep, mapping, looping, branching, Steps, nil, cons, Branches, no_more,
  branch, step_weight, steps_weight, branches_weight,
}
use lebro.Workflow.State.{Engine, RunState}
use lebro.Workflow.Frames.{Visit, next, enter, leave, visit, advance_top, Outcome, execute_frames}
use lebro.Workflow.Frames.Rounds.{IsBranchOf, branches_of, visit_enter}

-- What is left of a frame below the top once its head is behind it.
abbrev pub tail : Steps → Steps
tail nil = nil
tail (cons _ rest) = rest

abbrev pub below_weight : List Steps → ℕ
below_weight [] = 0
below_weight (f ∷ fs) = steps_weight (tail f) + below_weight fs

-- More than the rounds that the loop takes from these frames.
abbrev pub frames_weight : List Steps → ℕ
frames_weight [] = 0
frames_weight (f ∷ fs) = steps_weight f + below_weight fs

pub advance-weight : (fs : List Steps) → frames_weight (advance_top fs) ≡ below_weight fs
unfolding advance_top
advance-weight [] = refl
advance-weight (nil ∷ fs) = refl
advance-weight (cons s rest ∷ fs) = refl

branch-weight : (t : Steps) (bs : Branches) → IsBranchOf t bs → steps_weight t ≤ branches_weight bs
unfolding steps_weight
branch-weight t no_more h = elim h [ ]
branch-weight t (branch n c steps rest) (inl e) =
    omega (arith, ap (λ (u : Steps). steps_weight u) e)
branch-weight t (branch n c steps rest) (inr h) = omega (arith, branch-weight t rest h)

pub entered-weight :
    (s : CompiledStep) (t : Steps) → IsBranchOf t (branches_of s) → steps_weight t < step_weight s
unfolding steps_weight
entered-weight (task i) t h = elim h [ ]
entered-weight (sleep i wake) t h = elim h [ ]
entered-weight (mapping i f) t h = elim h [ ]
entered-weight (looping i c ss) t h = elim h [ ]
entered-weight (branching i bs default) t h = omega (arith, branch-weight t bs h)

pub weight_pos : (s : CompiledStep) → 0 < step_weight s
unfolding steps_weight
weight_pos (task i) = omega arith
weight_pos (sleep i wake) = omega arith
weight_pos (mapping i f) = omega arith
weight_pos (looping i c ss) = omega arith
weight_pos (branching i bs default) = omega arith

pub cons-weight :
    (s : CompiledStep) (rest : Steps)
    → steps_weight (cons s rest) ≡ step_weight s + steps_weight rest
unfolding steps_weight
cons-weight s rest = refl

pub nil-weight : steps_weight nil ≡ 1
unfolding steps_weight
nil-weight = refl

-- The loop returns from frames with `n` rounds.
abbrev pub Returns : ℕ → Engine → List Steps → RunState → Type 0
Returns n eng fs st = (o : Outcome) × (execute_frames n eng fs st ≡ some o)

round_ends :
    (n : ℕ) (eng : Engine) (s : CompiledStep) (rest : Steps) (fs : List Steps) (st : RunState)
    → ((fs' : List Steps) (st' : RunState) → frames_weight fs' < n → Returns n eng fs' st')
    → frames_weight (cons s rest ∷ fs) < suc n
    → (v : Visit) → visit eng s st ≡ v
    → Returns (suc n) eng (cons s rest ∷ fs) st
unfolding execute_frames
round_ends n eng s rest fs st ih h (next st') e =
    rw (execute_frames, e) (ih (rest ∷ fs) st' (omega (arith, cons-weight s rest, weight_pos s)))
round_ends n eng s rest fs st ih h (enter t st') e =
    let entered = entered-weight s t (visit_enter eng s st t st' e).0 in
    rw (execute_frames, e)
      (ih (t ∷ cons s rest ∷ fs) st' (omega (arith, cons-weight s rest, entered)))
round_ends n eng s rest fs st ih h (leave r st') e = rw (execute_frames, e) (_, refl)

-- With more fuel than the weight of the frames, which the step tree alone determines, the executor
-- returns: no handler, schema, predicate, context or store can make it loop.
pub execute_frames_ends :
    (n : ℕ) (eng : Engine) (fs : List Steps) (st : RunState)
    → frames_weight fs < n
    → Returns n eng fs st
unfolding execute_frames
execute_frames_ends zero eng fs st h = absurd (omega arith)
execute_frames_ends (suc n) eng [] st h = (_, refl)
execute_frames_ends (suc n) eng (nil ∷ fs) st h =
    execute_frames_ends n eng (advance_top fs) st (omega (arith, advance-weight fs, nil-weight))
execute_frames_ends (suc n) eng (cons s rest ∷ fs) st h =
    round_ends n eng s rest fs st (execute_frames_ends n eng) h (visit eng s st) refl
