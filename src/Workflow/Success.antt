-- ===== src/Workflow/Success.antt =====
-- The durable record of a run that succeeds, and the output that it keeps.
use lebro.Common.{
  ℕ, zero, suc, ◌≡◌, ◌≢◌, refl, subst, true, none, some, List, [], ◌∷◌, ◌++◌, ◌⊎◌, inl, inr, arith,
}
use lebro.Workflow.Model.{RawMessage, succeeded}
use lebro.Workflow.Loop.Keeps.{loop-Keeps, begun}
use lebro.Workflow.Tree.{CompiledStep, task, sleep, mapping, looping, branching, Steps, nil}
use lebro.Workflow.State.{Engine, RunState, terminal_record, last_output}
use lebro.Workflow.Frames.{
  next, enter, leave, Ended, visit, finish, advance_top, Outcome, execute_frames,
}
use lebro.Workflow.Frames.Rule.{execute_frames_rule}

last_output-append : (xs : List RawMessage) (o : RawMessage) → last_output (xs ++ o ∷ []) ≡ o
last_output-append [] o = refl
last_output-append (x ∷ []) o = refl
last_output-append (x ∷ y ∷ xs) o = last_output-append (y ∷ xs) o

-- The input of the next step is the output of the last completed one, if there is one.
abbrev pub IsCurrent : RunState → Type 0
IsCurrent st = (st.completed ≡ []) ⊎ (st.current ≡ last_output st.completed)

next-IsCurrent :
    (eng : Engine) (s : CompiledStep) (st st' : RunState)
    → visit eng s st ≡ next st'
    → st'.current ≡ last_output st'.completed
unfolding visit
next-IsCurrent eng (task i) st st' h = grind (arith, last_output-append)
next-IsCurrent eng (sleep i wake) st st' h = ground arith
next-IsCurrent eng (mapping i f) st st' h = grind (arith, last_output-append)
next-IsCurrent eng (looping i c ss) st st' h = grind (arith, last_output-append)
next-IsCurrent eng (branching i bs d) st st' h = ground arith

enter-IsCurrent :
    (eng : Engine) (s : CompiledStep) (st : RunState) (t : Steps) (st' : RunState)
    → visit eng s st ≡ enter t st'
    → (st'.current ≡ st.current) × (st'.completed ≡ st.completed)
unfolding visit
enter-IsCurrent eng (task i) st t st' h = ground arith
enter-IsCurrent eng (sleep i wake) st t st' h = ground arith
enter-IsCurrent eng (mapping i f) st t st' h = ground arith
enter-IsCurrent eng (looping i c ss) st t st' h =
    ground (arith, loop-Keeps eng (record { steps = ss; config = c }) i.id st.current (begun i st))
enter-IsCurrent eng (branching i bs d) st t st' h = ground arith

leave_not_succeeded :
    (eng : Engine) (s : CompiledStep) (st : RunState) (e : Ended) (st' : RunState)
    → visit eng s st ≡ leave e st'
    → e.status ≢ succeeded
unfolding visit
leave_not_succeeded eng (task i) st e st' h = λ p. ground arith
leave_not_succeeded eng (sleep i wake) st e st' h = λ p. ground arith
leave_not_succeeded eng (mapping i f) st e st' h = λ p. ground arith
leave_not_succeeded eng (looping i c ss) st e st' h = λ p.
    ground (arith, loop-Keeps eng (record { steps = ss; config = c }) i.id st.current (begun i st))
leave_not_succeeded eng (branching i bs d) st e st' h = λ p. ground arith

some_lem : {a b : Outcome} → some a ≡ some b → a ≡ b
some_lem e = cc

module _ (eng : Engine) (bound : eng.bound ≡ true) where
  finish-record :
      (st : RunState)
      → (finish eng st).0.status ≡ succeeded
      → ((finish eng st).1.db.run ≡ some (terminal_record succeeded none (finish eng st).1))
        × ((finish eng st).0.output ≡ st.current)
        × ((finish eng st).1.completed ≡ st.completed)
  unfolding finish
  finish-record st h = ground arith

  -- A run that starts with nothing completed, is bound to a store and is reported as succeeded has
  -- its terminal record stored: status succeeded, finished, with the run's outputs and path. The
  -- record's output is the reported one, unless no step completed.
  pub durable_success :
      (n : ℕ) (fs : List Steps) (st : RunState) (o : Outcome)
      → st.completed ≡ []
      → execute_frames n eng fs st ≡ some o
      → o.result.status ≡ succeeded
      → (o.state.db.run ≡ some (terminal_record succeeded none o.state))
        × ((o.state.completed ≡ [])
            ⊎ ((terminal_record succeeded none o.state).output ≡ o.result.output))
  unfolding terminal_record
  durable_success n fs st o fresh =
      execute_frames_rule {Keep = IsCurrent}
        {Post = λ x.
          x.result.status ≡ succeeded
          → (x.state.db.run ≡ some (terminal_record succeeded none x.state))
            × ((x.state.completed ≡ [])
                ⊎ ((terminal_record succeeded none x.state).output ≡ x.result.output))}
        eng
        (record {
          on_next = λ s x x' k h. inr (next-IsCurrent eng s x x' h);
          on_enter = λ s x t x' k h. ground (arith, enter-IsCurrent eng s x t x' h);
          on_leave = λ s rest fs' x e x' k h p. absurd (leave_not_succeeded eng s x e x' h p);
          on_finish = λ x k h. ((finish-record x h).0, ground (arith, finish-record x h));
        })
        n fs st o (inl fresh)

  abbrev KeepsOutput : RunState → Outcome → Type 0
  KeepsOutput st o =
      o.result.status ≡ succeeded
      → (o.result.output ≡ st.current)
        × (o.state.db.run ≡ some (terminal_record succeeded none o.state))
        × ((terminal_record succeeded none o.state).output ≡ last_output st.completed)

  finish-KeepsOutput :
      (st : RunState)
      → KeepsOutput st
          (record { result = (finish eng st).0; state = (finish eng st).1; frames = [] })
  unfolding terminal_record
  finish-KeepsOutput st h = let r = finish-record st h in (r.1, r.0, ground (arith, r))

  -- A run with no step left returns its current value, and its record keeps the last output.
  pub nothing_left :
      (n : ℕ) (st : RunState) (o : Outcome)
      → execute_frames n eng (nil ∷ []) st ≡ some o
      → KeepsOutput st o
  unfolding execute_frames advance_top
  nothing_left zero st o run = absurd (ground (arith, run))
  nothing_left (suc zero) st o run = absurd (ground (arith, run))
  nothing_left (suc (suc n)) st o run =
      subst (KeepsOutput st) (some_lem run) (finish-KeepsOutput st)
