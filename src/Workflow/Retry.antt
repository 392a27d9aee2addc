-- ===== src/Workflow/Retry.antt =====
-- runStepWithRetry of internal/runtime/workflow.go, and the retry policies that drive it.
pub mod Bounds
pub mod Liveness
pub mod Events
pub mod Announcements
mod Tests
use lebro.Common.{
  ℕ, zero, suc, ◌+◌, Bool, true, false, not, ◌||◌, Option, none, some, List, [], ◌∷◌, ltb, ◌==◌, ℤ,
  pos, negsuc, str_eq, if◌then◌else◌,
}
use lebro.Workflow.Model.{
  RawMessage, StepId, CompiledSchema, ContextError, SuspendSignal, HandlerError, suspend_error,
  suspend_sentinel, context_error, plain_error, Handled, returned, panicked, erred, Handler,
  RetryPolicy, attempt_started, attempt_finished, World, Env, emit, poll, accepts,
}

pub data Cause : Type 0 where
  context_cause : ContextError → Cause
  panic_cause : ℕ → Cause
  handler_cause : HandlerError → Cause
  no_signal_cause no_suspend_schema_cause contract_cause output_cause exited_cause : Cause

-- retryOutcome: its kind, with the cause.
pub data RetryOutcome : Type 0 where
  retry_failed retry_cancelled retry_panicked retry_invalid_output : Cause → RetryOutcome
  retry_suspended : SuspendSignal → RetryOutcome

-- The fields of a compiled step that the retry loop reads.
pub record RetryStep : Type 0 where
  pub step_id : StepId
  pub handler : Handler
  pub output_schema : Option CompiledSchema
  pub suspend_schema : Option CompiledSchema
  pub retry : Option RetryPolicy

unfoldable pub default_retryable : HandlerError → Bool
default_retryable (context_error _) = false
default_retryable _ = true

unfoldable pub is_retryable : RetryPolicy → HandlerError → Bool
unfolding default_retryable
is_retryable p e = elim p.retryable [ none ↦ default_retryable e | some f ↦ f e ]

unfoldable pub policy_retries : Option RetryPolicy → HandlerError → Bool
unfolding is_retryable
policy_retries none e = false
policy_retries (some p) e = is_retryable p e

-- Why a policy is rejected.
pub data PolicyError : Type 0 where
  bad_attempts bad_delay : PolicyError

unfoldable pub validate_retry_policy : Option RetryPolicy → Option PolicyError
validate_retry_policy none = none
validate_retry_policy (some p) = elim p.attempts [
  | negsuc _ ↦ some bad_attempts
  | pos n ↦
      if ltb n 1
      then some bad_attempts
      else elim p.delay [ negsuc _ ↦ some bad_delay | pos _ ↦ none ]
]

unfoldable pub max_attempts : Option RetryPolicy → ℕ
max_attempts none = 1
max_attempts (some p) = elim p.attempts [ pos n ↦ if ltb 1 n then n else 1 | negsuc _ ↦ 1 ]

unfoldable pub delay_of : Option RetryPolicy → ℤ
delay_of none = pos 0
delay_of (some p) = p.delay

unfoldable pub is_positive : ℤ → Bool
is_positive (pos n) = ltb 0 n
is_positive (negsuc _) = false

-- What one attempt decides: an end of the loop, or `continue`.
pub data Attempt : Type 0 where
  output : RawMessage → Attempt
  stop : RetryOutcome → Attempt
  again : Attempt

-- Whether the attempt reaches its step_attempt_finished event, and with which verdict.
abbrev finish : ℕ → ℕ → StepId → ℤ → Bool → World → World
finish attempt position id delay ok w =
    if attempt == 1 then w else emit (attempt_finished position id attempt delay ok) w

-- A handler error that matches ErrWorkflowSuspend. Two of the ways out emit no event.
unfoldable pub on_suspend : ℕ → ℤ → ℕ → RetryStep → SuspendSignal → World → Attempt × World
on_suspend attempt delay position step signal w = elim step.suspend_schema [
  | none ↦ (stop (retry_invalid_output no_suspend_schema_cause), w)
  | some schema ↦ elim signal.contract [
    | [] ↦ (
      stop (retry_suspended (record signal { step_id = step.step_id })),
      finish attempt position step.step_id delay true w,
    )
    | b ∷ bs ↦
        if schema (b ∷ bs)
        then (
          stop (retry_suspended (record signal { step_id = step.step_id })),
          finish attempt position step.step_id delay true w,
        )
        else (
          stop (retry_invalid_output contract_cause),
          finish attempt position step.step_id delay false w,
        )
  ]
]

unfoldable pub on_error :
    ℕ → Bool → ℤ → ℕ → RetryStep → Option RetryPolicy → HandlerError → World → Attempt × World
unfolding on_suspend policy_retries
on_error attempt last delay position step policy (suspend_error signal) w =
    on_suspend attempt delay position step signal w
on_error attempt last delay position step policy suspend_sentinel w =
    (stop (retry_failed no_signal_cause), w)
on_error attempt last delay position step policy (context_error c) w = (
  stop (retry_cancelled (handler_cause (context_error c))),
  finish attempt position step.step_id delay false w,
)
on_error attempt last delay position step policy (plain_error n) w = (
  if last || not (policy_retries policy (plain_error n))
      then stop (retry_failed (handler_cause (plain_error n)))
      else again,
  finish attempt position step.step_id delay false w,
)

-- What follows a handler that answered while the context was alive.
unfoldable pub on_handled :
    ℕ → Bool → ℤ → ℕ → RetryStep → Option RetryPolicy → Handled → World → Attempt × World
unfolding on_error
on_handled attempt last delay position step policy (panicked v) w =
    (stop (retry_panicked (panic_cause v)), finish attempt position step.step_id delay false w)
on_handled attempt last delay position step policy (erred e) w =
    on_error attempt last delay position step policy e w
on_handled attempt last delay position step policy (returned out) w =
    if accepts step.output_schema out
    then (output out, finish attempt position step.step_id delay true w)
    else (
      stop (retry_invalid_output output_cause),
      finish attempt position step.step_id delay false w,
    )

-- The invocation: the handler runs, then the context is read before its answer is looked at.
unfoldable pub invoke :
    Env → ℕ → Bool → ℤ → ℕ → RetryStep → Option RetryPolicy → RawMessage → World → Attempt × World
unfolding on_handled
invoke env attempt last delay position step policy input w =
    let answer = step.handler w.calls input in
    let (err, w') = poll env (record w { calls = w.calls + 1 }) in
    elim err [
      | some c ↦ (
        stop (retry_cancelled (context_cause c)),
        finish attempt position step.step_id delay false w',
      )
      | none ↦ on_handled attempt last delay position step policy answer w'
    ]

-- The wait before a retry, and the event that opens it.
unfoldable pub wait_retry : Env → ℕ → ℤ → ℕ → StepId → World → Option ContextError × World
unfolding is_positive
wait_retry env attempt delay position id w =
    if attempt == 1
    then (none, w)
    else if is_positive delay
    then (let (err, w') = poll env w in
        elim err [
          | some c ↦ (some c, w')
          | none ↦ (none, emit (attempt_started position id attempt delay) w')
        ])
    else (none, emit (attempt_started position id attempt delay) w)

-- One round of the loop.
unfoldable pub run_attempt :
    Env → ℕ → Bool → ℕ → RetryStep → Option RetryPolicy → RawMessage → World → Attempt × World
unfolding invoke wait_retry delay_of
run_attempt env attempt last position step policy input w =
    let (err, w₁) = poll env w in
    elim err [
      | some c ↦ (stop (retry_cancelled (context_cause c)), w₁)
      | none ↦
          let delay = if attempt == 1 then pos 0 else delay_of policy in
          let (waited, w₂) = wait_retry env attempt delay position step.step_id w₁ in
          elim waited [
            | some c ↦ (stop (retry_cancelled (context_cause c)), w₂)
            | none ↦ invoke env attempt last delay position step policy input w₂
          ]
    ]

pub data Retried : Type 0 where
  succeeded_with : RawMessage → Retried
  ended : RetryOutcome → Retried

-- The loop, on the rounds left: `attempt` counts up to `maxAttempts`.
unfoldable pub retry_loop :
    Env
    → (left attempt : ℕ) → ℕ
    → RetryStep
    → Option RetryPolicy
    → RawMessage
    → World
    → Retried × World
retry_loop env zero attempt position step policy input w = (ended (retry_failed exited_cause), w)
retry_loop env (suc left) attempt position step policy input w =
    let (a, w') = run_attempt env attempt (left == 0) position step policy input w in
    elim a [
      | output out ↦ (succeeded_with out, w')
      | stop o ↦ (ended o, w')
      | again ↦ retry_loop env left (attempt + 1) position step policy input w'
    ]

unfoldable pub run_step_with_retry :
    Env → ℕ → RetryStep → Option RetryPolicy → RawMessage → World → Retried × World
unfolding retry_loop max_attempts run_attempt
run_step_with_retry env position step policy input w =
    retry_loop env (max_attempts policy) 1 position step policy input w

-- resolveRetryPolicy: a run's override replaces the step's policy.
unfoldable pub resolve_retry_policy :
    Option RetryPolicy → List (StepId × RetryPolicy) → StepId → Option RetryPolicy
resolve_retry_policy compiled [] id = compiled
resolve_retry_policy compiled ((k, p) ∷ rest) id =
    if str_eq k id then some p else resolve_retry_policy compiled rest id
