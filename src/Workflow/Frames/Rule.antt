-- ===== src/Workflow/Frames/Rule.antt =====
-- The invariant rule of executeFrames: what every round keeps holds of every return.
use lebro.Common.{ℕ, zero, suc, ◌≡◌, refl, subst, some, List, [], ◌∷◌}
use lebro.Workflow.Tree.{CompiledStep, Steps, nil, cons}
use lebro.Workflow.State.{Engine, RunState}
use lebro.Workflow.Frames.{
  Visit, next, enter, leave, Ended, visit, finish, advance_top, Outcome, execute_frames,
}

-- `Keep` holds between rounds, `Post` of what is returned.
pub record Rule (eng : Engine) (Keep : RunState → Type 0) (Post : Outcome → Type 0) : Type 0 where
  pub on_next :
      (s : CompiledStep) (st st' : RunState) → Keep st → visit eng s st ≡ next st' → Keep st'
  pub on_enter :
      (s : CompiledStep) (st : RunState) (t : Steps) (st' : RunState)
      → Keep st
      → visit eng s st ≡ enter t st'
      → Keep st'
  pub on_leave :
      (s : CompiledStep) (rest : Steps) (fs : List Steps) (st : RunState) (e : Ended)
      (st' : RunState)
      → Keep st
      → visit eng s st ≡ leave e st'
      → Post (record { result = e; state = st'; frames = cons s rest ∷ fs })
  pub on_finish :
      (st : RunState)
      → Keep st
      → Post (record { result = (finish eng st).0; state = (finish eng st).1; frames = [] })

module _ {Keep : RunState → Type 0} {Post : Outcome → Type 0} (eng : Engine)
    (rule : Rule eng Keep Post) where
  abbrev Rounds : ℕ → Type 0
  Rounds n =
      (fs : List Steps) (st : RunState) (o : Outcome)
      → Keep st
      → execute_frames n eng fs st ≡ some o
      → Post o

  some_lem : {a b : Outcome} → some a ≡ some b → a ≡ b
  some_lem e = cc

  round_rule :
      (n : ℕ) (s : CompiledStep) (rest : Steps) (fs : List Steps) (st : RunState) (o : Outcome)
      → Rounds n
      → Keep st
      → (v : Visit) → visit eng s st ≡ v
      → execute_frames (suc n) eng (cons s rest ∷ fs) st ≡ some o
      → Post o
  unfolding execute_frames
  round_rule n s rest fs st o ih k (next st') v e =
      ih (rest ∷ fs) st' o (rule.on_next s st st' k v) (rw (execute_frames, v) at e)
  round_rule n s rest fs st o ih k (enter t st') v e =
      ih (t ∷ cons s rest ∷ fs) st' o (rule.on_enter s st t st' k v) (rw (execute_frames, v) at e)
  round_rule n s rest fs st o ih k (leave r st') v e =
      subst Post (some_lem (rw (execute_frames, v) at e)) (rule.on_leave s rest fs st r st' k v)

  pub execute_frames_rule : (n : ℕ) → Rounds n
  unfolding execute_frames
  execute_frames_rule zero fs st o k e = cc
  execute_frames_rule (suc n) [] st o k e = subst Post (some_lem e) (rule.on_finish st k)
  execute_frames_rule (suc n) (nil ∷ fs) st o k e = execute_frames_rule n (advance_top fs) st o k e
  execute_frames_rule (suc n) (cons s rest ∷ fs) st o k e =
      round_rule n s rest fs st o (execute_frames_rule n) k (visit eng s st) refl e
