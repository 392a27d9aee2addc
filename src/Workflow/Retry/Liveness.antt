-- ===== src/Workflow/Retry/Liveness.antt =====
-- What the retry loop reaches while the context is alive: a success within the attempts, or the
-- last error after all of them.
use lebro.Common.{ℕ, zero, suc, ◌+◌, ◌<◌, ◌≡◌, Bool, true, false, Option, none, arith, ◌==◌}
use lebro.Workflow.Model.{
  RawMessage, plain_error, returned, erred, RetryPolicy, World, Env, accepts,
}
use lebro.Workflow.Retry.{
  RetryStep, succeeded_with, ended, output, stop, again, max_attempts, run_attempt, retry_loop,
  run_step_with_retry, retry_failed, handler_cause,
}
use lebro.Workflow.Retry.Bounds.{retries}

zero_shift : (a : ℕ) → a + 0 ≡ a
zero_shift a = omega arith

shift : (a b j : ℕ) → b ≡ a + 1 → b + j ≡ a + suc j
shift a b j e = omega arith

module _ (env : Env) (alive : (k : ℕ) → env.context k ≡ none) (position : ℕ) (step : RetryStep)
    (policy : Option RetryPolicy) (input : RawMessage) where
  live_again :
      (attempt : ℕ) (w : World)
      → retries policy (step.handler w.calls input) ≡ true
      → ((run_attempt env attempt false position step policy input w).0 ≡ again)
        × ((run_attempt env attempt false position step policy input w).1.calls ≡ w.calls + 1)
  unfolding run_attempt
  live_again attempt w h =
      ground (arith, alive w.polls, alive (w.polls + 1), alive (w.polls + 1 + 1))

  live_output :
      (attempt : ℕ) (last : Bool) (w : World) (out : RawMessage)
      → step.handler w.calls input ≡ returned out
      → accepts step.output_schema out ≡ true
      → ((run_attempt env attempt last position step policy input w).0 ≡ output out)
        × ((run_attempt env attempt last position step policy input w).1.calls ≡ w.calls + 1)
  unfolding run_attempt
  live_output attempt last w out h acc =
      ground (arith, alive w.polls, alive (w.polls + 1), alive (w.polls + 1 + 1))

  live_last :
      (attempt : ℕ) (w : World) (n : ℕ)
      → step.handler w.calls input ≡ erred (plain_error n)
      → ((run_attempt env attempt true position step policy input w).0
          ≡ stop (retry_failed (handler_cause (plain_error n))))
        × ((run_attempt env attempt true position step policy input w).1.calls ≡ w.calls + 1)
  unfolding run_attempt
  live_last attempt w n h =
      ground (arith, alive w.polls, alive (w.polls + 1), alive (w.polls + 1 + 1))

  loop_reaches :
      (fails left attempt : ℕ) (w : World) (out : RawMessage)
      → fails < left
      → ((j : ℕ) → j < fails → retries policy (step.handler (w.calls + j) input) ≡ true)
      → step.handler (w.calls + fails) input ≡ returned out
      → accepts step.output_schema out ≡ true
      → ((retry_loop env left attempt position step policy input w).0 ≡ succeeded_with out)
        × ((retry_loop env left attempt position step policy input w).1.calls ≡ w.calls + fails + 1)
  unfolding retry_loop
  loop_reaches fails zero attempt w out lt retried found acc = absurd (omega arith)
  loop_reaches zero (suc left) attempt w out lt retried found acc =
      let e : w.calls + 0 ≡ w.calls = omega arith in
      let found' : step.handler w.calls input ≡ returned out = rw e at found in
      ground (arith, live_output attempt (left == 0) w out found' acc)
  loop_reaches (suc fails) (suc zero) attempt w out lt retried found acc = absurd (omega arith)
  loop_reaches (suc fails) (suc (suc left)) attempt w out lt retried found acc =
      let first = live_again attempt w (rw (zero_shift w.calls) at (retried 0 (omega arith))) in
      let w' = (run_attempt env attempt false position step policy input w).1 in
      let rest =
        loop_reaches fails (suc left) (attempt + 1) w' out (omega arith)
          (λ j h. rw (shift w.calls w'.calls j first.1) (retried (suc j) (omega arith)))
          (rw (shift w.calls w'.calls fails first.1) found) acc in
      ground (arith, first, rest)

  loop_exhausts :
      (left attempt : ℕ) (w : World) (n : ℕ)
      → ((j : ℕ) → j < left → retries policy (step.handler (w.calls + j) input) ≡ true)
      → step.handler (w.calls + left) input ≡ erred (plain_error n)
      → ((retry_loop env (suc left) attempt position step policy input w).0
          ≡ ended (retry_failed (handler_cause (plain_error n))))
        × ((retry_loop env (suc left) attempt position step policy input w).1.calls
            ≡ w.calls + suc left)
  unfolding retry_loop
  loop_exhausts zero attempt w n retried lasts =
      let lasts' = rw (zero_shift w.calls) at lasts in ground (arith, live_last attempt w n lasts')
  loop_exhausts (suc left) attempt w n retried lasts =
      let first = live_again attempt w (rw (zero_shift w.calls) at (retried 0 (omega arith))) in
      let w' = (run_attempt env attempt false position step policy input w).1 in
      let rest =
        loop_exhausts left (attempt + 1) w' n
          (λ j h. rw (shift w.calls w'.calls j first.1) (retried (suc j) (omega arith)))
          (rw (shift w.calls w'.calls left first.1) lasts) in
      ground (arith, first, rest)

  -- While the context is alive: if the first `fails` invocations answer with retryable errors,
  -- fewer than the policy's attempts, and the next one returns an output that the schema accepts,
  -- then the run succeeds with that output, after exactly `fails + 1` invocations.
  pub retry_reaches_success :
      (fails : ℕ) (w : World) (out : RawMessage)
      → fails < max_attempts policy
      → ((j : ℕ) → j < fails → retries policy (step.handler (w.calls + j) input) ≡ true)
      → step.handler (w.calls + fails) input ≡ returned out
      → accepts step.output_schema out ≡ true
      → let r = run_step_with_retry env position step policy input w in
        (r.0 ≡ succeeded_with out) × (r.1.calls ≡ w.calls + fails + 1)
  unfolding run_step_with_retry
  retry_reaches_success fails w = loop_reaches fails (max_attempts policy) 1 w

  -- While the context is alive: if every invocation but the last that the policy allows answers
  -- with a retryable error, and the last with any plain error, then the run fails with that last
  -- error, after exactly `max_attempts` invocations.
  pub retry_exhausts :
      (left : ℕ) (w : World) (n : ℕ)
      → max_attempts policy ≡ suc left
      → ((j : ℕ) → j < left → retries policy (step.handler (w.calls + j) input) ≡ true)
      → step.handler (w.calls + left) input ≡ erred (plain_error n)
      → let r = run_step_with_retry env position step policy input w in
        (r.0 ≡ ended (retry_failed (handler_cause (plain_error n))))
        × (r.1.calls ≡ w.calls + max_attempts policy)
  unfolding run_step_with_retry
  retry_exhausts left w n all retried lasts = rw all (loop_exhausts left 1 w n retried lasts)
