-- ===== src/Workflow/Resume/Correct.antt =====
-- resumeFrames rebuilds the frames that the executor had when it returned at a step.
use lebro.Common.{
  ℕ, zero, suc, ◌<◌, ◌≡◌, refl, ap, sym, ◌∙◌, subst, Option, some, List, [], ◌∷◌, ◌++◌, inl, inr,
  arith, In, Distinct, Distinct-append_right, append_assoc, append-nil,
}
use lebro.Workflow.Model.{StepId}
use lebro.Workflow.Tree.{
  CompiledStep, Steps, nil, cons, info, entry_id, steps_weight, steps_ids, branches_ids,
}
use lebro.Workflow.State.{Engine, RunState}
use lebro.Workflow.Frames.{
  Visit, next, enter, leave, Ended, visit, advance_top, Outcome, execute_frames,
}
use lebro.Workflow.Frames.Rounds.{branches_of, visit_enter, visit-next_path, visit_leave_path}
use lebro.Workflow.Frames.Termination.{frames_weight, advance-weight, nil-weight}
use lebro.Workflow.Resume.{resume_frames}
use lebro.Workflow.Resume.Ids.{frames_ids, StepsStart, advance-ids, cons-ids, branch-starts}
use lebro.Workflow.Resume.Rounds.{
  FramesStart, rest-Distinct, entered-Distinct, ahead_of_next, ahead_of_enter, fuel_next,
  fuel_enter, fuel_here, advance-start, next_no_branches, step-start, cons-start,
}

-- The stack stands at a step; `stop_id` is that step's ID.
abbrev pub IsAtStep : List Steps → Type 0
IsAtStep (cons _ _ ∷ _) = Unit
IsAtStep _ = ⊥

abbrev pub stop_id : List Steps → StepId
stop_id (cons s _ ∷ _) = (info s).id
stop_id _ = ""

-- What is to be shown of a return `o` from the frames `fs` and the path `before`.
record Rebuilt (fs : List Steps) (before : List StepId) (o : Outcome) : Type 0 where
  added : List StepId
  path : o.state.path ≡ before ++ added
  ahead : In (stop_id o.frames) (frames_ids fs)
  rebuilt :
      (m : ℕ)
      → frames_weight fs < m
      → resume_frames m fs added (stop_id o.frames) ≡ some (some (advance_top o.frames))

abbrev Induction : ℕ → Engine → Type 0
Induction n eng =
    (fs : List Steps) (st : RunState) (o : Outcome)
    → FramesStart fs
    → Distinct (frames_ids fs)
    → execute_frames n eng fs st ≡ some o
    → IsAtStep o.frames
    → Rebuilt fs st.path o

module _ (n : ℕ) (eng : Engine) (s : CompiledStep) (rest : Steps) (fs : List Steps) (st : RunState)
    (o : Outcome) (w : FramesStart (cons s rest ∷ fs))
    (d : Distinct (frames_ids (cons s rest ∷ fs))) (ih : Induction n eng)
    (at_step : IsAtStep o.frames) where
  after_next :
      (st' : RunState)
      → visit eng s st ≡ next st'
      → execute_frames n eng (rest ∷ fs) st' ≡ some o
      → Rebuilt (cons s rest ∷ fs) st.path o
  after_next st' v e =
      let r =
        ih (rest ∷ fs) st' o ((cons-start s rest w.0).1, w.1)
          (Distinct-append_right (branches_ids (branches_of s)) (frames_ids (rest ∷ fs))
            (rest-Distinct s rest fs d))
          e at_step in
      record {
        added = r.added;
        path = r.path ∙ ap (λ (p : List StepId). p ++ r.added) (visit-next_path eng s st st' v);
        ahead = ahead_of_next s rest fs d (stop_id o.frames) r.ahead;
        rebuilt =
            fuel_next s rest fs d r.added (stop_id o.frames) (some (some (advance_top o.frames)))
              (next_no_branches eng s st st' v) r.ahead r.rebuilt;
      }

  after_enter :
      (t : Steps) (st' : RunState)
      → visit eng s st ≡ enter t st'
      → execute_frames n eng (t ∷ cons s rest ∷ fs) st' ≡ some o
      → Rebuilt (cons s rest ∷ fs) st.path o
  after_enter t st' v e =
      let (b, path) = visit_enter eng s st t st' v in
      let start = step-start s (cons-start s rest w.0).0 in
      let r =
        ih (t ∷ cons s rest ∷ fs) st' o
          ((branch-starts t (branches_of s) b start).1, ((cons-start s rest w.0).1, w.1))
          (entered-Distinct s rest fs d t b) e at_step in
      record {
        added = entry_id t ∷ r.added;
        path =
            r.path
            ∙ ap (λ (p : List StepId). p ++ r.added) path
            ∙ append_assoc st.path (entry_id t ∷ []) r.added;
        ahead =
            rw (cons-ids s rest fs)
              (inr (ahead_of_enter s rest fs d t (stop_id o.frames) b r.ahead));
        rebuilt =
            fuel_enter s rest fs d t r.added (stop_id o.frames) (some (some (advance_top o.frames)))
              start b r.ahead r.rebuilt;
      }

Rebuilt-leave :
    (eng : Engine) (s : CompiledStep) (rest : Steps) (fs : List Steps) (st : RunState)
    → Distinct (frames_ids (cons s rest ∷ fs))
    → (r : Ended) (st' : RunState) → visit eng s st ≡ leave r st'
    → Rebuilt
        (cons s rest ∷ fs)
        st.path
        (record { result = r; state = st'; frames = cons s rest ∷ fs })
unfolding advance_top
Rebuilt-leave eng s rest fs st d r st' v = record {
  added = [];
  path = visit_leave_path eng s st r st' v ∙ sym (append-nil st.path);
  ahead = rw (cons-ids s rest fs) (inl refl);
  rebuilt = fuel_here s rest fs d [];
}

some_lem : {a b : Outcome} → some a ≡ some b → a ≡ b
some_lem e = cc

fuel_pop :
    (fs : List Steps) (path : List StepId) (id : StepId) (found : Option (Option (List Steps)))
    → ((m : ℕ)
        → frames_weight (advance_top fs) < m
        → resume_frames m (advance_top fs) path id ≡ found)
    → (m : ℕ) → frames_weight (nil ∷ fs) < m
    → resume_frames m (nil ∷ fs) path id ≡ found
unfolding resume_frames
fuel_pop fs path id found r zero lt = absurd (omega arith)
fuel_pop fs path id found r (suc m) lt = r m (omega (arith, advance-weight fs, nil-weight))

round-Rebuilt :
    (n : ℕ) (eng : Engine) (s : CompiledStep) (rest : Steps) (fs : List Steps) (st : RunState)
    → (o : Outcome) → FramesStart (cons s rest ∷ fs)
    → Distinct (frames_ids (cons s rest ∷ fs))
    → Induction n eng
    → IsAtStep o.frames
    → (v : Visit) → visit eng s st ≡ v
    → execute_frames (suc n) eng (cons s rest ∷ fs) st ≡ some o
    → Rebuilt (cons s rest ∷ fs) st.path o
unfolding execute_frames
round-Rebuilt n eng s rest fs st o w d ih at_step (next st') v e =
    after_next n eng s rest fs st o w d ih at_step st' v (rw (execute_frames, v) at e)
round-Rebuilt n eng s rest fs st o w d ih at_step (enter t st') v e =
    after_enter n eng s rest fs st o w d ih at_step t st' v (rw (execute_frames, v) at e)
round-Rebuilt n eng s rest fs st o w d ih at_step (leave r st') v e =
    subst (λ x. Rebuilt (cons s rest ∷ fs) st.path x) (some_lem (rw (execute_frames, v) at e))
      (Rebuilt-leave eng s rest fs st d r st' v)

rebuilt_all : (n : ℕ) (eng : Engine) → Induction n eng
unfolding execute_frames
rebuilt_all zero eng fs st o w d e at_step = cc
rebuilt_all (suc n) eng [] st o w d e at_step =
    absurd (subst (λ (x : Outcome). IsAtStep x.frames) (sym (some_lem e)) at_step)
rebuilt_all (suc n) eng (nil ∷ fs) st o w d e at_step =
    let r =
      rebuilt_all n eng (advance_top fs) st o (advance-start fs w.1) (rw (advance-ids fs) d) e
        at_step in
    record {
      added = r.added;
      path = r.path;
      ahead = rw (← advance-ids fs) r.ahead;
      rebuilt =
          fuel_pop fs r.added (stop_id o.frames) (some (some (advance_top o.frames))) r.rebuilt;
    }
rebuilt_all (suc n) eng (cons s rest ∷ fs) st o w d e at_step =
    round-Rebuilt n eng s rest fs st o w d (rebuilt_all n eng) at_step (visit eng s st) refl e

-- The step IDs of a workflow's tree all differ, and every branch has a first step.
pub record IsValidTree (steps : Steps) : Type 0 where
  pub distinct : Distinct (steps_ids steps)
  pub starts : StepsStart steps

-- Whenever the executor, started from the top of a valid tree, returns at a step (as it does when
-- the run suspends there), the path that it then holds and that step's ID lead resumeFrames to
-- exactly the executor's frames, advanced past the step. Any fuel above the weight of the tree is
-- enough.
pub resume_frames_correct :
    (n m : ℕ) (eng : Engine) (steps : Steps) (st : RunState) (o : Outcome)
    → IsValidTree steps
    → st.path ≡ []
    → execute_frames n eng (steps ∷ []) st ≡ some o
    → IsAtStep o.frames
    → steps_weight steps < m
    → resume_frames m (steps ∷ []) o.state.path (stop_id o.frames)
      ≡ some (some (advance_top o.frames))
resume_frames_correct n m eng steps st o v fresh run at_step fuel =
    let r =
      rebuilt_all n eng (steps ∷ []) st o (v.starts, tt) (rw append-nil v.distinct) run at_step in
    let path : o.state.path ≡ r.added = r.path ∙ ap (λ (p : List StepId). p ++ r.added) fresh in
    rw path (r.rebuilt m (omega arith))
