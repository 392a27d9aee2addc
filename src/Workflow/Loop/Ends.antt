-- ===== src/Workflow/Loop/Ends.antt =====
-- How a loop ends, and what it leaves in the store.
use lebro.Common.{
  ℕ, zero, suc, ◌+◌, ◌≤◌, ◌<◌, ◌≡◌, ◌≢◌, Bool, true, false, Option, none, some, ◌⊎◌, arith, ◌==◌,
  if◌then◌else◌,
}
use lebro.Workflow.Model.{ChildLabel, iteration, RawMessage, StepId, loop_started}
use lebro.Workflow.Tree.{CompiledStep, Steps, nil, cons}
use lebro.Workflow.State.{cancelled_run, Engine, RunState, log, last_snapshot, last_snapshot-append}
use lebro.Workflow.Loop.{
  CompiledLoop, Round, halt_at, onward, done, halt, continues, polled, checkpoint, then_round,
  run_loop_child, run_body, after_body, close_iteration, run_iteration, loop_rounds, execute_loop,
}

-- How a part ends well, by what it is followed by.
then_round-done :
    (P : Round × RunState → Type 0) (f : RawMessage → RunState → Round × RunState)
    (r : Round × RunState) (out : RawMessage)
    → ((v : RawMessage) (st : RunState) → (f v st).0 ≡ done out → P (f v st))
    → (r.0 ≡ done out → P r)
    → (then_round f r).0 ≡ done out
    → P (then_round f r)
unfolding then_round
then_round-done P f (onward v, st) out on_onward on_done h = on_onward v st h
then_round-done P f (done v, st) out on_onward on_done h = on_done h
then_round-done P f (halt e, st) out on_onward on_done h = cc

-- The same of a test that leaves early.
unless_done :
    (P : Round × RunState → Type 0) (b : Bool) (x y : Round × RunState) (out : RawMessage)
    → x.0 ≢ done out
    → (y.0 ≡ done out → P y)
    → (if b then x else y).0 ≡ done out
    → P (if b then x else y)
unless_done P true x y out early f h = absurd (early h)
unless_done P false x y out early f h = f h

child_not_done :
    (eng : Engine) (name : ChildLabel) (s : CompiledStep) (current : RawMessage) (st : RunState)
    (out : RawMessage)
    → (run_loop_child eng name s current st).0 ≢ done out
unfolding run_loop_child
child_not_done eng name s current st out e = ground arith

body_not_done :
    (eng : Engine) (name : ChildLabel) (ss : Steps) (current : RawMessage) (st : RunState)
    (out : RawMessage)
    → (run_body eng name ss current st).0 ≢ done out
unfolding run_body
body_not_done eng name nil current st out e = ground arith
body_not_done eng name (cons s rest) current st out e =
    let st₁ = (polled eng st).1 in
    let ends =
      then_round-done (λ _. ⊥) (run_body eng name rest) (run_loop_child eng name s current st₁) out
        (λ v x h. body_not_done eng name rest v x out h)
        (child_not_done eng name s current st₁ out) in
    ground (arith, ends)

abbrev pub bool_of : Option Bool → Bool
bool_of none = false
bool_of (some b) = b

module _ (eng : Engine) (loop : CompiledLoop) (id : StepId) where
  -- A loop that ends well in round `k`: its condition, asked about the output, has an answer, the
  -- answer says to stop, and in a bound run the newest snapshot is the checkpoint of that round.
  abbrev pub Stopped : ℕ → RawMessage → RunState → Type 0
  Stopped k out st =
      (loop.config.condition out k ≡ some (bool_of (loop.config.condition out k)))
      × (continues loop.config.mode (bool_of (loop.config.condition out k)) ≡ false)
      × ((eng.bound ≡ false) ⊎ (last_snapshot st.db.snapshots ≡ some (checkpoint id k out st)))

  after_body-Stopped :
      (round : ℕ) (last : Bool) (current : RawMessage) (st : RunState) (out : RawMessage)
      → (after_body eng loop id round last current st).0 ≡ done out
      → Stopped round out (after_body eng loop id round last current st).1
  unfolding after_body
  after_body-Stopped round last current st out h =
      ground (arith, last_snapshot-append st.db.snapshots (checkpoint id round current st))

  close-Stopped :
      (k round : ℕ) (out : RawMessage) (r : Round × RunState)
      → ((r.0 ≡ done out) → Stopped k out r.1)
      → (close_iteration id round r).0 ≡ done out
      → Stopped k out (close_iteration id round r).1
  unfolding close_iteration
  close-Stopped k round out (r, st) f h = f h

  round-Stopped :
      (round : ℕ) (last : Bool) (current : RawMessage) (st : RunState) (out : RawMessage)
      → (run_iteration eng loop id round last current st).0 ≡ done out
      → Stopped round out (run_iteration eng loop id round last current st).1
  unfolding run_iteration
  round-Stopped round last current st out =
      let st₀ = log (loop_started st.position id round) st in
      let r = run_body eng (iteration round) loop.steps current st₀ in
      close-Stopped round round out (then_round (after_body eng loop id round last) r) (
        then_round-done (λ x. Stopped round out x.1) (after_body eng loop id round last) r out
          (λ v x. after_body-Stopped round last v x out)
          (λ h. absurd (body_not_done eng (iteration round) loop.steps current st₀ out h)))

  abbrev pub StoppedBetween : ℕ → ℕ → RawMessage → RunState → Type 0
  StoppedBetween lo hi out st = (k : ℕ) × (lo ≤ k) × (k < hi) × Stopped k out st

  rounds-Stopped :
      (left round : ℕ) (current : RawMessage) (st : RunState) (out : RawMessage)
      → (loop_rounds eng loop id left round current st).0 ≡ done out
      → StoppedBetween round (round + left) out (loop_rounds eng loop id left round current st).1
  unfolding loop_rounds
  rounds-Stopped zero round current st out = λ h. cc
  rounds-Stopped (suc left) round current st out =
      let st₁ = (polled eng st).1 in
      let r = run_iteration eng loop id round (left == 0) current st₁ in
      let P : Round × RunState → Type 0 = λ x. StoppedBetween round (round + suc left) out x.1 in
      unless_done P (polled eng st).0 (halt_at cancelled_run id st, st₁)
        (then_round (loop_rounds eng loop id left (round + 1)) r) out (λ e. cc)
        (then_round-done P (loop_rounds eng loop id left (round + 1)) r out
          (λ v x h.
            let (k, low, high, stopped) = rounds-Stopped left (round + 1) v x out h in
            (k, omega arith, omega arith, stopped))
          (λ h.
            (round, omega arith, omega arith, round-Stopped round (left == 0) current st₁ out h)))

  -- A loop that ends well does so in one of its rounds 1 to its limit: its condition, asked about
  -- the output in that round, says to stop, and in a bound run the newest snapshot is the checkpoint
  -- of that round, with the output.
  pub loop_stops :
      (input : RawMessage) (st : RunState) (out : RawMessage)
      → (execute_loop eng loop id input st).0 ≡ done out
      → StoppedBetween 1 (1 + loop.config.limit) out (execute_loop eng loop id input st).1
  unfolding execute_loop
  loop_stops input st out = rounds-Stopped loop.config.limit 1 input st out
