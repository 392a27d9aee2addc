-- ===== src/Workflow/Retry/Events.antt =====
-- The step_attempt_started and step_attempt_finished events of one run of the retry loop.
use lebro.Common.{
  ℕ, zero, suc, ◌+◌, ◌<◌, ◌≡◌, Bool, true, false, ◌&&◌, Option, List, [], ◌∷◌, ◌++◌, arith, ◌==◌,
  if◌then◌else◌, ltb,
}
use lebro.Workflow.Model.{
  RawMessage, Event, attempt_started, attempt_finished, RetryPolicy, World, Env,
}
use lebro.Workflow.Retry.{
  RetryStep, Attempt, stop, Retried, ended, run_attempt, delay_of, retry_loop, run_step_with_retry,
  max_attempts, retry_failed, retry_invalid_output, no_signal_cause, no_suspend_schema_cause,
  RetryOutcome,
}
use lebro.Workflow.Retry.Bounds.{attempt_again, max_attempts_pos}

abbrev pub opens : List Event → ℕ
opens [] = 0
opens (attempt_started _ _ _ _ ∷ es) = suc (opens es)
opens (_ ∷ es) = opens es

abbrev pub closes : List Event → ℕ
closes [] = 0
closes (attempt_finished _ _ _ _ _ ∷ es) = suc (closes es)
closes (_ ∷ es) = closes es

-- The two ways out of an attempt that emit no step_attempt_finished event.
abbrev pub is_silent : RetryOutcome → Bool
is_silent (retry_failed no_signal_cause) = true
is_silent (retry_invalid_output no_suspend_schema_cause) = true
is_silent _ = false

abbrev silent_attempt : Attempt → Bool
silent_attempt (stop o) = is_silent o
silent_attempt _ = false

abbrev pub ends_silently : Retried → Bool
ends_silently (ended o) = is_silent o
ends_silently _ = false

opens-append : (xs ys : List Event) → opens (xs ++ ys) ≡ opens xs + opens ys
opens-append [] ys = omega arith
opens-append (attempt_started _ _ _ _ ∷ xs) ys = omega (arith, opens-append xs ys)
opens-append (_ ∷ xs) ys = opens-append xs ys

closes-append : (xs ys : List Event) → closes (xs ++ ys) ≡ closes xs + closes ys
closes-append [] ys = omega arith
closes-append (attempt_finished _ _ _ _ _ ∷ xs) ys = omega (arith, closes-append xs ys)
closes-append (_ ∷ xs) ys = closes-append xs ys

module _ (env : Env) (position : ℕ) (step : RetryStep) (policy : Option RetryPolicy)
    (input : RawMessage) where
  first-events :
      (last : Bool) (w : World)
      → (run_attempt env 1 last position step policy input w).1.events ≡ w.events
  unfolding run_attempt
  first-events last w = ground arith

  first_silent :
      (last : Bool) (w : World)
      → silent_attempt (run_attempt env 1 last position step policy input w).0 ≡ true
      → (run_attempt env 1 last position step policy input w).1.calls ≡ w.calls + 1
  unfolding run_attempt
  first_silent last w h = ground arith

  later_attempt :
      (attempt : ℕ) (last : Bool) (w : World)
      → 1 < attempt
      → let r = run_attempt env attempt last position step policy input w in
        opens r.1.events + closes w.events
        ≡ closes r.1.events + opens w.events + (if silent_attempt r.0 then 1 else 0)
  unfolding run_attempt
  later_attempt attempt last w later =
      let opened = attempt_started position step.step_id attempt (delay_of policy) in
      let closed =
        λ (ok : Bool). attempt_finished position step.step_id attempt (delay_of policy) ok in
      let es = w.events ++ opened ∷ [] in
      ground (
        arith,
        opens-append w.events (opened ∷ []),
        closes-append w.events (opened ∷ []),
        opens-append es (closed true ∷ []),
        closes-append es (closed true ∷ []),
        opens-append es (closed false ∷ []),
        closes-append es (closed false ∷ []),
      )

  later_loop :
      (left attempt : ℕ) (w : World)
      → 1 < attempt
      → let r = retry_loop env left attempt position step policy input w in
        opens r.1.events + closes w.events
        ≡ closes r.1.events + opens w.events + (if ends_silently r.0 then 1 else 0)
  unfolding retry_loop
  later_loop zero attempt w later = ground arith
  later_loop (suc left) attempt w later =
      let r = run_attempt env attempt (left == 0) position step policy input w in
      ground (
        arith,
        later_attempt attempt (left == 0) w later,
        later_loop left (attempt + 1) r.1 (omega arith),
      )

  silent_calls :
      (left attempt : ℕ) (w : World)
      → ends_silently (retry_loop env left attempt position step policy input w).0 ≡ true
      → w.calls < (retry_loop env left attempt position step policy input w).1.calls
  unfolding retry_loop run_attempt
  silent_calls zero attempt w h = ground arith
  silent_calls (suc left) attempt w h =
      let r = run_attempt env attempt (left == 0) position step policy input w in
      ground (arith, silent_calls left (attempt + 1) r.1)

  loop-events :
      (left : ℕ) (w : World)
      → 0 < left
      → let r = retry_loop env left 1 position step policy input w in
        opens r.1.events + closes w.events
        ≡ closes r.1.events
          + opens w.events
          + (if ends_silently r.0 && ltb (w.calls + 1) r.1.calls then 1 else 0)
  unfolding retry_loop
  loop-events zero w some_left = absurd (omega arith)
  loop-events (suc left) w some_left =
      let r = run_attempt env 1 (left == 0) position step policy input w in
      ground (
        arith,
        first-events (left == 0) w,
        first_silent (left == 0) w,
        attempt_again env position step policy input 1 (left == 0) w,
        later_loop left 2 r.1 (omega arith),
        silent_calls left 2 r.1,
      )

  -- The step_attempt_started and step_attempt_finished events of a run come in equal numbers, but
  -- for one started event too many when the run made more than one invocation and the last one
  -- asked to suspend without a signal, or at a step without a suspend schema.
  pub retry_event_balance :
      (w : World)
      → let r = run_step_with_retry env position step policy input w in
        opens r.1.events + closes w.events
        ≡ closes r.1.events
          + opens w.events
          + (if ends_silently r.0 && ltb (w.calls + 1) r.1.calls then 1 else 0)
  unfolding run_step_with_retry
  retry_event_balance w = loop-events (max_attempts policy) w (max_attempts_pos policy)
