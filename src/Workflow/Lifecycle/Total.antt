-- ===== src/Workflow/Lifecycle/Total.antt =====
-- Resume and resumeWake return.
use lebro.Common.{
  ℕ, zero, suc, ◌≤◌, ◌<◌, ◌≡◌, refl, Bool, true, false, Option, none, some, List, [], ◌∷◌, arith,
  str_eq,
}
use lebro.Workflow.Model.{RawMessage, StepId, World}
use lebro.Workflow.Tree.{
  CompiledStep, Steps, nil, cons, Branches, no_more, branch, info, steps_weight,
}
use lebro.Workflow.State.{Engine, Snapshot, Db}
use lebro.Workflow.Frames.{execute_frames, advance_top}
use lebro.Workflow.Frames.Rounds.{branches_of, IsBranchOf}
use lebro.Workflow.Frames.Termination.{
  frames_weight, advance-weight, entered-weight, weight_pos, cons-weight, nil-weight,
  execute_frames_ends,
}
use lebro.Workflow.Resume.{find_entry, follow, resume_frames}
use lebro.Workflow.Lifecycle.{
  Call, Resumed, rejected, resumed, unresolved, resuming, resume_state, check_run,
  load_suspend_snapshot, resume_checked, continue_from, resume, resume_wake, payload_of,
}

-- No more is left to do than from the frames `fs`.
abbrev NoMoreThan : List Steps → Option (List Steps) → Type 0
NoMoreThan fs none = Unit
NoMoreThan fs (some fs') = frames_weight fs' ≤ frames_weight fs

-- The frames are found, or known to be missing.
record Found (n : ℕ) (fs : List Steps) (path : List StepId) (id : StepId) : Type 0 where
  answer : Option (List Steps)
  answers : resume_frames n fs path id ≡ some answer
  no_more : NoMoreThan fs answer

lighter :
    (fs gs : List Steps) (r : Option (List Steps))
    → frames_weight fs ≤ frames_weight gs
    → NoMoreThan fs r
    → NoMoreThan gs r
lighter fs gs none h k = tt
lighter fs gs (some r) h k = omega (arith, k)

find_entry-IsBranchOf :
    (e : StepId) (bs : Branches) (t : Steps) → find_entry e bs ≡ some t → IsBranchOf t bs
unfolding find_entry
find_entry-IsBranchOf e no_more t h = ground (arith, h)
find_entry-IsBranchOf e (branch n c steps rest) t h = ground (arith, find_entry-IsBranchOf e rest t)

follow-IsBranchOf :
    (bs : Branches) (path : List StepId) (t : Steps) (p : List StepId)
    → follow bs path ≡ some (t, p)
    → IsBranchOf t bs
unfolding follow
follow-IsBranchOf bs [] t p h = ground (arith, h)
follow-IsBranchOf bs (e ∷ path) t p h = ground (arith, find_entry-IsBranchOf e bs t)

step_finds :
    (n : ℕ) (s : CompiledStep) (rest : Steps) (fs : List Steps) (path : List StepId) (id : StepId)
    → Found n (rest ∷ fs) path id
    → (inside : Option (Steps × List StepId)) → follow (branches_of s) path ≡ inside
    → ((t : Steps) (p : List StepId) → inside ≡ some (t, p) → Found n (t ∷ cons s rest ∷ fs) p id)
    → (here : Bool) → str_eq (info s).id id ≡ here
    → Found (suc n) (cons s rest ∷ fs) path id
unfolding resume_frames
step_finds n s rest fs path id behind inside e walk true h = record {
  answer = some (rest ∷ fs);
  answers = rw (resume_frames, h) refl;
  no_more = omega (arith, cons-weight s rest);
}
step_finds n s rest fs path id behind none e walk false h = record {
  answer = behind.answer;
  answers = rw (resume_frames, h, e) behind.answers;
  no_more =
      lighter (rest ∷ fs) (cons s rest ∷ fs) behind.answer (omega (arith, cons-weight s rest))
        behind.no_more;
}
step_finds n s rest fs path id behind (some (t, p)) e walk false h =
    let inner = walk t p refl in
    let entered = entered-weight s t (follow-IsBranchOf (branches_of s) path t p e) in
    record {
      answer = inner.answer;
      answers = rw (resume_frames, h, e) inner.answers;
      no_more =
          lighter (t ∷ cons s rest ∷ fs) (cons s rest ∷ fs) inner.answer
            (omega (arith, cons-weight s rest, entered)) inner.no_more;
    }

finds :
    (n : ℕ) (fs : List Steps) (path : List StepId) (id : StepId)
    → frames_weight fs < n
    → Found n fs path id
unfolding resume_frames
finds zero fs path id h = absurd (omega arith)
finds (suc n) [] path id h = record { answer = none; answers = refl; no_more = tt }
finds (suc n) (nil ∷ fs) path id h =
    let later = finds n (advance_top fs) path id (omega (arith, advance-weight fs, nil-weight)) in
    record {
      answer = later.answer;
      answers = later.answers;
      no_more =
          lighter (advance_top fs) (nil ∷ fs) later.answer
            (omega (arith, advance-weight fs, nil-weight)) later.no_more;
    }
finds (suc n) (cons s rest ∷ fs) path id h =
    step_finds n s rest fs path id
      (finds n (rest ∷ fs) path id (omega (arith, cons-weight s rest, weight_pos s)))
      (follow (branches_of s) path) refl
      (λ t p e. finds n (t ∷ cons s rest ∷ fs) p id (
        omega (
          arith,
          cons-weight s rest,
          entered-weight s t (follow-IsBranchOf (branches_of s) path t p e),
        )))
      (str_eq (info s).id id) refl

-- A call is decided: a rejection, or what the executor returned.
abbrev pub Decides : Resumed → Type 0
Decides (rejected _ _ _) = Unit
Decides (resumed none) = ⊥
Decides (resumed (some _)) = Unit
Decides unresolved = ⊥

module _ (n : ℕ) (eng : Engine) (steps : Steps) (fuel : steps_weight steps < n) where
  goes_on-Decides :
      (snap : Snapshot) (input : RawMessage) (w : World) (db : Db) (frames : List Steps)
      → frames_weight frames ≤ frames_weight (steps ∷ [])
      → Decides
          (resumed (execute_frames n (resuming eng) frames (resume_state frames snap input w db)))
  goes_on-Decides snap input w db frames h =
      let (o, e) =
        execute_frames_ends n (resuming eng) frames (resume_state frames snap input w db)
          (omega (arith, h, fuel)) in
      rw e tt

  continue_from-Decides :
      (snap : Snapshot) (input : RawMessage) (w : World) (db : Db)
      → Decides (continue_from n eng steps snap input w db)
  unfolding continue_from
  continue_from-Decides snap input w db =
      let f = finds n (steps ∷ []) snap.path snap.step_id (omega (arith, fuel)) in
      go f.answer f.answers f.no_more
    where
      go :
          (answer : Option (List Steps))
          → resume_frames n (steps ∷ []) snap.path snap.step_id ≡ some answer
          → NoMoreThan (steps ∷ []) answer
          → Decides (continue_from n eng steps snap input w db)
      go none e k = rw (continue_from, e) tt
      go (some frames) e k = rw (continue_from, e) (goes_on-Decides snap input w db frames k)

  resume_checked-Decides :
      (call : Call) (snap : Snapshot) (input : RawMessage) (w : World) (db : Db)
      → Decides (resume_checked n eng call steps snap input w db)
  unfolding resume_checked
  resume_checked-Decides call snap input w db =
      ground (arith, continue_from-Decides snap input w db)

resume-Decides :
    (n : ℕ) (eng : Engine) (call : Call) (steps : Steps) (input : RawMessage) (w : World) (db : Db)
    → steps_weight steps < n
    → (found : Option Snapshot) → load_suspend_snapshot db.snapshots ≡ found
    → Decides (resume n eng call steps input w db)
unfolding resume
resume-Decides n eng call steps input w db fuel none e = ground (arith, e)
resume-Decides n eng call steps input w db fuel (some snap) e = ground (
  arith,
  e,
  resume_checked-Decides n eng steps fuel call snap input (check_run eng call w db).1 db,
)

resume_wake-Decides :
    (n : ℕ) (eng : Engine) (call : Call) (steps : Steps) (token : ℕ) (w : World) (db : Db)
    → steps_weight steps < n
    → (found : Option Snapshot) → load_suspend_snapshot db.snapshots ≡ found
    → Decides (resume_wake n eng call steps token w db)
unfolding resume_wake
resume_wake-Decides n eng call steps token w db fuel none e = ground (arith, e)
resume_wake-Decides n eng call steps token w db fuel (some snap) e = ground (
  arith,
  e,
  continue_from-Decides n eng steps fuel snap (payload_of snap) (check_run eng call w db).1 db,
)

-- Resume and resumeWake always come to an answer: with more fuel than the weight of the step tree
-- they either reject the call or return what the executor returned, whatever the store holds.
pub resume_answers :
    (n : ℕ) (eng : Engine) (call : Call) (steps : Steps) (input : RawMessage) (token : ℕ)
    (w : World) (db : Db)
    → steps_weight steps < n
    → Decides (resume n eng call steps input w db)
      × Decides (resume_wake n eng call steps token w db)
resume_answers n eng call steps input token w db fuel = (
  resume-Decides n eng call steps input w db fuel (load_suspend_snapshot db.snapshots) refl,
  resume_wake-Decides n eng call steps token w db fuel (load_suspend_snapshot db.snapshots) refl,
)
