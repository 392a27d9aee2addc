-- ===== src/Workflow/Loop/Events.antt =====
-- The events of a loop's rounds.
use lebro.Common.{
  ℕ, zero, suc, ◌+◌, ◌≤◌, ◌≡◌, refl, Bool, Option, List, [], ◌∷◌, ◌++◌, arith, ◌==◌, append-nil,
}
use lebro.Workflow.Model.{
  ChildLabel, iteration, RawMessage, StepId, RetryPolicy, Event, loop_started, loop_finished, World,
  Env,
}
use lebro.Workflow.Retry.{RetryStep, run_attempt, retry_loop, run_step_with_retry, max_attempts}
use lebro.Workflow.Tree.{CompiledStep, Steps, nil, cons}
use lebro.Workflow.Loop.Keeps.{then_round_rule}
use lebro.Workflow.State.{Engine, RunState, log}
use lebro.Workflow.Loop.{
  CompiledLoop, polled, run_loop_child, run_body, after_body, close_iteration, run_iteration,
  loop_rounds, execute_loop,
}

-- Each round's start, by its position and number, and its end.
abbrev pub starts : List Event → ℕ
starts [] = 0
starts (loop_started _ _ _ ∷ es) = suc (starts es)
starts (_ ∷ es) = starts es

abbrev pub ends : List Event → ℕ
ends [] = 0
ends (loop_finished _ _ _ _ ∷ es) = suc (ends es)
ends (_ ∷ es) = ends es

starts-append : (xs ys : List Event) → starts (xs ++ ys) ≡ starts xs + starts ys
starts-append [] ys = omega arith
starts-append (loop_started _ _ _ ∷ xs) ys = omega (arith, starts-append xs ys)
starts-append (_ ∷ xs) ys = starts-append xs ys

ends-append : (xs ys : List Event) → ends (xs ++ ys) ≡ ends xs + ends ys
ends-append [] ys = omega arith
ends-append (loop_finished _ _ _ _ ∷ xs) ys = omega (arith, ends-append xs ys)
ends-append (_ ∷ xs) ys = ends-append xs ys

-- From `a` to `b`, as many rounds end as start.
abbrev Balanced : List Event → List Event → Type 0
Balanced a b = starts b + ends a ≡ ends b + starts a

abbrev Silent : List Event → List Event → Type 0
Silent a b = (starts b ≡ starts a) × (ends b ≡ ends a)

attempt-Silent :
    (env : Env) (attempt : ℕ) (last : Bool) (position : ℕ) (step : RetryStep)
    (policy : Option RetryPolicy) (input : RawMessage) (w : World)
    → Silent w.events (run_attempt env attempt last position step policy input w).1.events
unfolding run_attempt
attempt-Silent env attempt last position step policy input w =
    (grind (arith, starts-append, append-nil), grind (arith, ends-append, append-nil))

loop-Silent :
    (env : Env) (left attempt position : ℕ) (step : RetryStep) (policy : Option RetryPolicy)
    (input : RawMessage) (w : World)
    → Silent w.events (retry_loop env left attempt position step policy input w).1.events
unfolding retry_loop
loop-Silent env zero attempt position step policy input w = (refl, refl)
loop-Silent env (suc left) attempt position step policy input w =
    let r = run_attempt env attempt (left == 0) position step policy input w in
    ground (
      arith,
      attempt-Silent env attempt (left == 0) position step policy input w,
      loop-Silent env left (attempt + 1) position step policy input r.1,
    )

retry-Silent :
    (env : Env) (position : ℕ) (step : RetryStep) (policy : Option RetryPolicy) (input : RawMessage)
    (w : World)
    → Silent w.events (run_step_with_retry env position step policy input w).1.events
unfolding run_step_with_retry
retry-Silent env position step policy input w =
    loop-Silent env (max_attempts policy) 1 position step policy input w

child-Silent :
    (eng : Engine) (name : ChildLabel) (s : CompiledStep) (current : RawMessage) (st : RunState)
    → Silent st.world.events (run_loop_child eng name s current st).1.world.events
unfolding run_loop_child
child-Silent eng name s current st = (
  grind (arith, starts-append, append-nil, retry-Silent),
  grind (arith, ends-append, append-nil, retry-Silent),
)

body-Silent :
    (eng : Engine) (name : ChildLabel) (ss : Steps) (current : RawMessage) (st : RunState)
    → Silent st.world.events (run_body eng name ss current st).1.world.events
unfolding run_body
body-Silent eng name nil current st = (refl, refl)
body-Silent eng name (cons s rest) current st =
    let st₁ = (polled eng st).1 in
    let r = run_loop_child eng name s current st₁ in
    ground (
      arith,
      then_round_rule (λ x. Silent st.world.events x.world.events)
          (λ x. Silent st.world.events x.world.events) (run_body eng name rest) r
          (λ v x p. ground (arith, p, body-Silent eng name rest v x)) (λ x p. p)
          (child-Silent eng name s current st₁),
    )

module _ (eng : Engine) (loop : CompiledLoop) (id : StepId) where
  after-Silent :
      (round : ℕ) (last : Bool) (current : RawMessage) (st : RunState)
      → Silent st.world.events (after_body eng loop id round last current st).1.world.events
  unfolding after_body
  after-Silent round last current st = ground arith

  -- A round starts once and ends once.
  round_once :
      (round : ℕ) (last : Bool) (current : RawMessage) (st : RunState)
      → let st' = (run_iteration eng loop id round last current st).1 in
        (starts st'.world.events ≡ starts st.world.events + 1)
        × (ends st'.world.events ≡ ends st.world.events + 1)
  unfolding run_iteration close_iteration
  round_once round last current st =
      let st₀ = log (loop_started st.position id round) st in
      let r = run_body eng (iteration round) loop.steps current st₀ in
      let silent =
        then_round_rule (λ x. Silent st₀.world.events x.world.events)
          (λ x. Silent st₀.world.events x.world.events) (after_body eng loop id round last) r
          (λ v x p. ground (arith, p, after-Silent round last v x)) (λ x p. p)
          (body-Silent eng (iteration round) loop.steps current st₀) in
      (grind (arith, starts-append, silent), grind (arith, ends-append, silent))

  -- From `st` to `st'`, as many rounds end as start, and these are at most `n`.
  abbrev pub RoundsWithin : ℕ → RunState → RunState → Type 0
  RoundsWithin n st st' =
      (starts st'.world.events + ends st.world.events
        ≡ ends st'.world.events + starts st.world.events)
      × (starts st'.world.events ≤ starts st.world.events + n)

  rounds-RoundsWithin :
      (left round : ℕ) (current : RawMessage) (st : RunState)
      → RoundsWithin left st (loop_rounds eng loop id left round current st).1
  unfolding loop_rounds
  rounds-RoundsWithin zero round current st = ground arith
  rounds-RoundsWithin (suc left) round current st =
      let st₁ = (polled eng st).1 in
      let r = run_iteration eng loop id round (left == 0) current st₁ in
      let rounds =
        then_round_rule
          (λ x.
            (starts x.world.events ≡ starts st.world.events + 1)
            × (ends x.world.events ≡ ends st.world.events + 1))
          (λ x. RoundsWithin (suc left) st x) (loop_rounds eng loop id left (round + 1)) r
          (λ v x q. ground (arith, q, rounds-RoundsWithin left (round + 1) v x))
          (λ x q. ground (arith, q)) (round_once round (left == 0) current st₁) in
      ground (arith, rounds)

  -- A loop runs at most as many rounds as its limit, and, however it ends, announces the end of
  -- every round that it announced the start of.
  pub loop_rounds_bounded :
      (input : RawMessage) (st : RunState)
      → RoundsWithin loop.config.limit st (execute_loop eng loop id input st).1
  unfolding execute_loop
  loop_rounds_bounded input st = rounds-RoundsWithin loop.config.limit 1 input st
