-- ===== src/Workflow/Retry/Tests.antt =====
-- Runs of the retry loop on concrete steps, and its theorems applied to them.
use lebro.Common.{
  ℕ, ◌+◌, ◌-◌, ◌≤◌, ◌<◌, ◌≡◌, ◌≢◌, refl, ap, true, ◌&&◌, Option, none, some, [], ◌∷◌, arith, ltb,
  pos, if◌then◌else◌,
}
use lebro.Workflow.Model.{
  suspend_sentinel, plain_error, returned, erred, Handler, RetryPolicy, World, Env, accepts,
}
use lebro.Workflow.Retry.{
  RetryStep, succeeded_with, ended, retry_failed, handler_cause, exited_cause, max_attempts,
  policy_retries, run_step_with_retry,
}
use lebro.Workflow.Retry.Bounds.{retries, retry_explained, retry_success_sound}
use lebro.Workflow.Retry.Liveness.{retry_reaches_success, retry_exhausts}
use lebro.Workflow.Retry.Events.{opens, closes, ends_silently, retry_event_balance}

abbrev alive : Env
alive = record { context = λ _. none }

abbrev start : World
start = record { polls = 0; calls = 0; events = [] }

abbrev three : Option RetryPolicy
three = some (record { attempts = pos 3; delay = pos 5; retryable = none })

-- Fails until `n` invocations are behind it, then returns the byte 7.
abbrev flaky : ℕ → Handler
flaky n calls input = if ltb calls n then erred (plain_error calls) else returned (7 ∷ [])

abbrev step_with : Handler → RetryStep
step_with h = record {
  step_id = "a";
  handler = h;
  output_schema = none;
  suspend_schema = none;
  retry = none;
}

flaky-retries : (n j : ℕ) → j < n → retries three (flaky n (0 + j) []) ≡ true
unfolding run_step_with_retry policy_retries
flaky-retries n j h = ground arith

retry_explained_example :
    let r = run_step_with_retry alive 1 (step_with (flaky 2)) three [] start in
    (r.1.calls ≤ 0 + max_attempts three)
    × ((k : ℕ) → 0 ≤ k → k + 1 < r.1.calls → retries three (flaky 2 k []) ≡ true)
    × (r.0 ≢ ended (retry_failed exited_cause))
retry_explained_example = retry_explained alive 1 (step_with (flaky 2)) three [] start

flaky_succeeds :
    run_step_with_retry alive 1 (step_with (flaky 0)) three [] start
    ≡ (succeeded_with (7 ∷ []), record { polls = 2; calls = 1; events = [] })
unfolding run_step_with_retry
flaky_succeeds = refl

retry_success_sound_example :
    let calls = (run_step_with_retry alive 1 (step_with (flaky 0)) three [] start).1.calls in
    (0 < calls) × (flaky 0 (calls - 1) [] ≡ returned (7 ∷ [])) × (accepts none (7 ∷ []) ≡ true)
retry_success_sound_example =
    retry_success_sound alive 1 (step_with (flaky 0)) three [] start (7 ∷ [])
      (ap (λ r. r.0) flaky_succeeds)

retry_reaches_success_example :
    let r = run_step_with_retry alive 1 (step_with (flaky 2)) three [] start in
    (r.0 ≡ succeeded_with (7 ∷ [])) × (r.1.calls ≡ 0 + 2 + 1)
unfolding max_attempts
retry_reaches_success_example =
    retry_reaches_success alive (λ k. refl) 1 (step_with (flaky 2)) three [] 2 start (7 ∷ [])
      (omega arith) (flaky-retries 2) refl refl

retry_exhausts_example :
    let r = run_step_with_retry alive 1 (step_with (flaky 9)) three [] start in
    (r.0 ≡ ended (retry_failed (handler_cause (plain_error 2))))
    × (r.1.calls ≡ 0 + max_attempts three)
unfolding max_attempts
retry_exhausts_example =
    retry_exhausts alive (λ k. refl) 1 (step_with (flaky 9)) three [] 2 start 2 refl
      (λ j h. flaky-retries 9 j (omega arith)) refl

-- The second invocation matches ErrWorkflowSuspend and carries no signal.
abbrev unsigned : Handler
unsigned calls input = if ltb calls 1 then erred (plain_error calls) else erred suspend_sentinel

unsigned_unbalanced :
    let r = run_step_with_retry alive 1 (step_with unsigned) three [] start in
    (opens r.1.events ≡ 1) × (closes r.1.events ≡ 0)
unfolding run_step_with_retry
unsigned_unbalanced = (refl, refl)

retry_event_balance_example :
    let r = run_step_with_retry alive 1 (step_with unsigned) three [] start in
    opens r.1.events + 0
    ≡ closes r.1.events + 0 + (if ends_silently r.0 && ltb 1 r.1.calls then 1 else 0)
retry_event_balance_example = retry_event_balance alive 1 (step_with unsigned) three [] start
