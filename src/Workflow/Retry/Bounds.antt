-- ===== src/Workflow/Retry/Bounds.antt =====
-- What a run of the retry loop invokes: how often, and after which answers.
use lebro.Common.{
  ℕ, zero, suc, ◌+◌, ◌-◌, ◌≤◌, ◌<◌, ◌≡◌, ◌≢◌, Bool, true, false, Option, none, some, arith, ◌==◌,
}
use lebro.Workflow.Model.{
  RawMessage, SuspendSignal, plain_error, Handled, returned, erred, RetryPolicy, World, Env,
  accepts,
}
use lebro.Workflow.Retry.{
  RetryStep, succeeded_with, ended, output, stop, again, policy_retries, max_attempts, run_attempt,
  retry_loop, run_step_with_retry, retry_failed, retry_suspended, exited_cause,
}

-- An answer that lets the loop go on to a further attempt.
abbrev pub retries : Option RetryPolicy → Handled → Bool
retries policy (erred (plain_error n)) = policy_retries policy (plain_error n)
retries policy _ = false

pub max_attempts_pos : (policy : Option RetryPolicy) → 0 < max_attempts policy
unfolding max_attempts
max_attempts_pos none = omega arith
max_attempts_pos (some policy) = ground arith

module _ (env : Env) (position : ℕ) (step : RetryStep) (policy : Option RetryPolicy)
    (input : RawMessage) where
  pub attempt-calls :
      (attempt : ℕ) (last : Bool) (w : World)
      → (w.calls ≤ (run_attempt env attempt last position step policy input w).1.calls)
        × ((run_attempt env attempt last position step policy input w).1.calls ≤ w.calls + 1)
  unfolding run_attempt
  attempt-calls attempt last w = ground arith

  pub attempt_again :
      (attempt : ℕ) (last : Bool) (w : World)
      → (run_attempt env attempt last position step policy input w).0 ≡ again
      → (last ≡ false)
        × (retries policy (step.handler w.calls input) ≡ true)
        × ((run_attempt env attempt last position step policy input w).1.calls ≡ w.calls + 1)
  unfolding run_attempt
  attempt_again attempt last w h = ground arith

  pub loop-calls :
      (left attempt : ℕ) (w : World)
      → (w.calls ≤ (retry_loop env left attempt position step policy input w).1.calls)
        × ((retry_loop env left attempt position step policy input w).1.calls ≤ w.calls + left)
  unfolding retry_loop
  loop-calls zero attempt w = ground arith
  loop-calls (suc left) attempt w =
      let r = run_attempt env attempt (left == 0) position step policy input w in
      ground (arith, attempt-calls attempt (left == 0) w, loop-calls left (attempt + 1) r.1)

  attempt_exit :
      (attempt : ℕ) (last : Bool) (w : World)
      → (run_attempt env attempt last position step policy input w).0
        ≢ stop (retry_failed exited_cause)
  unfolding run_attempt
  attempt_exit attempt last w e = ground arith

  -- The loop leaves by one of its returns: the statement behind it is not reached.
  loop_exit :
      (left attempt : ℕ) (w : World)
      → 0 < left
      → (retry_loop env left attempt position step policy input w).0
        ≢ ended (retry_failed exited_cause)
  unfolding retry_loop
  loop_exit zero attempt w some_left e = absurd (omega arith)
  loop_exit (suc zero) attempt w some_left e =
      ground (arith, attempt_exit attempt true w, attempt_again attempt true w)
  loop_exit (suc (suc left)) attempt w some_left e =
      let r = run_attempt env attempt (suc left == 0) position step policy input w in
      ground (
        arith,
        attempt_exit attempt (suc left == 0) w,
        loop_exit (suc left) (attempt + 1) r.1 (omega arith),
      )

  loop_only_retries :
      (left attempt : ℕ) (w : World) (k : ℕ)
      → w.calls ≤ k
      → k + 1 < (retry_loop env left attempt position step policy input w).1.calls
      → retries policy (step.handler k input) ≡ true
  unfolding retry_loop
  loop_only_retries zero attempt w k lo hi = absurd (omega arith)
  loop_only_retries (suc left) attempt w k lo hi =
      let r = run_attempt env attempt (left == 0) position step policy input w in
      ground (
        arith,
        attempt-calls attempt (left == 0) w,
        attempt_again attempt (left == 0) w,
        loop_only_retries left (attempt + 1) r.1 k,
      )

  attempt_output :
      (attempt : ℕ) (last : Bool) (w : World) (out : RawMessage)
      → (run_attempt env attempt last position step policy input w).0 ≡ output out
      → (step.handler w.calls input ≡ returned out)
        × (accepts step.output_schema out ≡ true)
        × ((run_attempt env attempt last position step policy input w).1.calls ≡ w.calls + 1)
  unfolding run_attempt
  attempt_output attempt last w out h = ground arith

  loop_output :
      (left attempt : ℕ) (w : World) (out : RawMessage)
      → (retry_loop env left attempt position step policy input w).0 ≡ succeeded_with out
      → let calls = (retry_loop env left attempt position step policy input w).1.calls in
        (w.calls < calls)
        × (step.handler (calls - 1) input ≡ returned out)
        × (accepts step.output_schema out ≡ true)
  unfolding retry_loop
  loop_output zero attempt w out h = ground arith
  loop_output (suc left) attempt w out h =
      let r = run_attempt env attempt (left == 0) position step policy input w in
      ground (
        arith,
        attempt-calls attempt (left == 0) w,
        attempt_output attempt (left == 0) w out,
        loop_output left (attempt + 1) r.1 out,
      )

  -- A step's handler is invoked at most `max_attempts` times in one run of the retry loop, every
  -- invocation but the last answered with an error that the policy retries, and the loop always
  -- ends by one of its returns.
  pub retry_explained :
      (w : World)
      → let r = run_step_with_retry env position step policy input w in
        (r.1.calls ≤ w.calls + max_attempts policy)
        × ((k : ℕ) → w.calls ≤ k → k + 1 < r.1.calls → retries policy (step.handler k input) ≡ true)
        × (r.0 ≢ ended (retry_failed exited_cause))
  unfolding run_step_with_retry
  retry_explained w = (
    (loop-calls (max_attempts policy) 1 w).1,
    loop_only_retries (max_attempts policy) 1 w,
    loop_exit (max_attempts policy) 1 w (max_attempts_pos policy),
  )

  -- A run that succeeds returns what the last invocation of the handler returned, and the step's
  -- output schema accepts it.
  pub retry_success_sound :
      (w : World) (out : RawMessage)
      → (run_step_with_retry env position step policy input w).0 ≡ succeeded_with out
      → let calls = (run_step_with_retry env position step policy input w).1.calls in
        (w.calls < calls)
        × (step.handler (calls - 1) input ≡ returned out)
        × (accepts step.output_schema out ≡ true)
  unfolding run_step_with_retry
  retry_success_sound w = loop_output (max_attempts policy) 1 w

  attempt_suspended :
      (attempt : ℕ) (last : Bool) (w : World) (signal : SuspendSignal)
      → (run_attempt env attempt last position step policy input w).0
        ≡ stop (retry_suspended signal)
      → signal.step_id ≡ step.step_id
  unfolding run_attempt
  attempt_suspended attempt last w signal h = ground arith

  loop_suspended :
      (left attempt : ℕ) (w : World) (signal : SuspendSignal)
      → (retry_loop env left attempt position step policy input w).0
        ≡ ended (retry_suspended signal)
      → signal.step_id ≡ step.step_id
  unfolding retry_loop
  loop_suspended zero attempt w signal h = ground arith
  loop_suspended (suc left) attempt w signal h =
      let r = run_attempt env attempt (left == 0) position step policy input w in
      ground (
        arith,
        attempt_suspended attempt (left == 0) w signal,
        loop_suspended left (attempt + 1) r.1 signal,
      )

  -- Whatever step the handler's signal named, the signal that leaves the loop names this one.
  pub retry_suspended_id :
      (w : World) (signal : SuspendSignal)
      → (run_step_with_retry env position step policy input w).0 ≡ ended (retry_suspended signal)
      → signal.step_id ≡ step.step_id
  unfolding run_step_with_retry
  retry_suspended_id w = loop_suspended (max_attempts policy) 1 w
