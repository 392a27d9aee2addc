-- ===== src/Workflow/Loop/Keeps.antt =====
-- What a loop leaves alone: the path, the outputs completed before it, the position, and what was
-- announced of the run's end; and it stores no suspension.
use lebro.Common.{ℕ, zero, suc, ◌+◌, ◌≡◌, refl, Bool, arith, append-nil, ◌==◌}
use lebro.Workflow.Model.{ChildLabel, iteration, RawMessage, StepId, loop_started, step_started}
use lebro.Workflow.Retry.Announcements.{announcements, announcements-append, retry-announcements}
use lebro.Workflow.Tree.{StepInfo, CompiledStep, Steps, nil, cons}
use lebro.Workflow.State.{Engine, RunState, log, suspends, suspends-append}
use lebro.Workflow.Loop.{
  CompiledLoop, Round, onward, done, halt, polled, then_round, run_loop_child, run_body, after_body,
  close_iteration, run_iteration, loop_rounds, execute_loop,
}

-- What follows a part, by a rule for what it is followed by.
pub then_round_rule :
    (Q P : RunState → Type 0) (f : RawMessage → RunState → Round × RunState) (r : Round × RunState)
    → ((v : RawMessage) (st : RunState) → Q st → P (f v st).1)
    → ((st : RunState) → Q st → P st)
    → Q r.1
    → P (then_round f r).1
unfolding then_round
then_round_rule Q P f (onward v, st) on_onward weaken q = on_onward v st q
then_round_rule Q P f (done v, st) on_onward weaken q = weaken st q
then_round_rule Q P f (halt e, st) on_onward weaken q = weaken st q

abbrev pub Keeps : RunState → RunState → Type 0
Keeps st st' =
    (st'.path ≡ st.path)
    × (st'.completed ≡ st.completed)
    × (st'.position ≡ st.position)
    × (announcements st'.world.events ≡ announcements st.world.events)
    × (suspends st'.db.snapshots ≡ suspends st.db.snapshots)

child-Keeps :
    (eng : Engine) (name : ChildLabel) (s : CompiledStep) (current : RawMessage) (st : RunState)
    → Keeps st (run_loop_child eng name s current st).1
unfolding run_loop_child
child-Keeps eng name s current st = (
  ground arith,
  ground arith,
  ground arith,
  grind (arith, announcements-append, append-nil, retry-announcements),
  ground arith,
)

body-Keeps :
    (eng : Engine) (name : ChildLabel) (ss : Steps) (current : RawMessage) (st : RunState)
    → Keeps st (run_body eng name ss current st).1
unfolding run_body
body-Keeps eng name nil current st = (refl, refl, refl, refl, refl)
body-Keeps eng name (cons s rest) current st =
    let st₁ = (polled eng st).1 in
    let r = run_loop_child eng name s current st₁ in
    ground (
      arith,
      then_round_rule (Keeps st) (Keeps st) (run_body eng name rest) r
          (λ v x p. ground (arith, p, body-Keeps eng name rest v x)) (λ x p. p)
          (child-Keeps eng name s current st₁),
    )

module _ (eng : Engine) (loop : CompiledLoop) (id : StepId) where
  after-Keeps :
      (round : ℕ) (last : Bool) (current : RawMessage) (st : RunState)
      → Keeps st (after_body eng loop id round last current st).1
  unfolding after_body
  after-Keeps round last current st = (
    ground arith,
    ground arith,
    ground arith,
    ground arith,
    grind (arith, suspends-append, append-nil),
  )

  round-Keeps :
      (round : ℕ) (last : Bool) (current : RawMessage) (st : RunState)
      → Keeps st (run_iteration eng loop id round last current st).1
  unfolding run_iteration close_iteration
  round-Keeps round last current st =
      let st₀ = log (loop_started st.position id round) st in
      let r = run_body eng (iteration round) loop.steps current st₀ in
      let inside =
        then_round_rule (Keeps st₀) (Keeps st₀) (after_body eng loop id round last) r
          (λ v x p. ground (arith, p, after-Keeps round last v x)) (λ x p. p)
          (body-Keeps eng (iteration round) loop.steps current st₀) in
      (
        ground (arith, inside),
        ground (arith, inside),
        ground (arith, inside),
        grind (arith, announcements-append, append-nil, inside),
        ground (arith, inside),
      )

  rounds-Keeps :
      (left round : ℕ) (current : RawMessage) (st : RunState)
      → Keeps st (loop_rounds eng loop id left round current st).1
  unfolding loop_rounds
  rounds-Keeps zero round current st = (refl, refl, refl, refl, refl)
  rounds-Keeps (suc left) round current st =
      let st₁ = (polled eng st).1 in
      let r = run_iteration eng loop id round (left == 0) current st₁ in
      ground (
        arith,
        then_round_rule (Keeps st) (Keeps st) (loop_rounds eng loop id left (round + 1)) r
            (λ v x p. ground (arith, p, rounds-Keeps left (round + 1) v x)) (λ x p. p)
            (round-Keeps round (left == 0) current st₁),
      )

  pub loop-Keeps :
      (input : RawMessage) (st : RunState) → Keeps st (execute_loop eng loop id input st).1
  unfolding execute_loop
  loop-Keeps input st = rounds-Keeps loop.config.limit 1 input st

-- The state in which a visit comes to its step.
abbrev pub begun : StepInfo → RunState → RunState
begun i st = log (step_started (st.position + 1) i.id) (record st {
  position = st.position + 1;
  world = record st.world { polls = st.world.polls + 1 };
})
