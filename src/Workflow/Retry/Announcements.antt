-- ===== src/Workflow/Retry/Announcements.antt =====
-- The retry loop of internal/runtime/workflow.go announces no end of a run.
use lebro.Common.{
  ℕ, zero, suc, ◌+◌, ◌≡◌, refl, ap, Bool, Option, List, [], ◌∷◌, ◌++◌, arith, append-nil, ◌==◌,
}
use lebro.Workflow.Model.{
  RawMessage, RunStatus, suspended, Event, run_suspended, run_terminal, RetryPolicy, World, Env,
}
use lebro.Workflow.Retry.{RetryStep, run_attempt, retry_loop, run_step_with_retry, max_attempts}

abbrev pub announcements : List Event → List RunStatus
announcements [] = []
announcements (run_suspended _ _ ∷ es) = suspended ∷ announcements es
announcements (run_terminal _ _ s ∷ es) = s ∷ announcements es
announcements (_ ∷ es) = announcements es

pub announcements-append :
    (xs ys : List Event) → announcements (xs ++ ys) ≡ announcements xs ++ announcements ys
announcements-append [] ys = refl
announcements-append (run_suspended p i ∷ xs) ys =
    ap (λ (l : List RunStatus). suspended ∷ l) (announcements-append xs ys)
announcements-append (run_terminal p i s ∷ xs) ys =
    ap (λ (l : List RunStatus). s ∷ l) (announcements-append xs ys)
announcements-append (_ ∷ xs) ys = announcements-append xs ys

attempt-announcements :
    (env : Env) (attempt : ℕ) (last : Bool) (position : ℕ) (step : RetryStep)
    (policy : Option RetryPolicy) (input : RawMessage) (w : World)
    → announcements (run_attempt env attempt last position step policy input w).1.events
      ≡ announcements w.events
unfolding run_attempt
attempt-announcements env attempt last position step policy input w =
    grind (arith, announcements-append, append-nil)

loop-announcements :
    (env : Env) (left attempt position : ℕ) (step : RetryStep) (policy : Option RetryPolicy)
    (input : RawMessage) (w : World)
    → announcements (retry_loop env left attempt position step policy input w).1.events
      ≡ announcements w.events
unfolding retry_loop
loop-announcements env zero attempt position step policy input w = refl
loop-announcements env (suc left) attempt position step policy input w =
    let r = run_attempt env attempt (left == 0) position step policy input w in
    ground (
      arith,
      attempt-announcements env attempt (left == 0) position step policy input w,
      loop-announcements env left (attempt + 1) position step policy input r.1,
    )

-- The retry loop announces no end of the run.
pub retry-announcements :
    (env : Env) (position : ℕ) (step : RetryStep) (policy : Option RetryPolicy) (input : RawMessage)
    (w : World)
    → announcements (run_step_with_retry env position step policy input w).1.events
      ≡ announcements w.events
unfolding run_step_with_retry
retry-announcements env position step policy input w =
    loop-announcements env (max_attempts policy) 1 position step policy input w
