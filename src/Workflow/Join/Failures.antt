-- ===== src/Workflow/Join/Failures.antt =====
-- Which failure a fan-out step reports, and when it reports none.
use lebro.Common.{
  ℕ, ◌+◌, ◌≡◌, refl, String, Bool, true, false, not, ◌&&◌, ◌||◌, Option, none, some, List, [], ◌∷◌,
  All, arith, ◌≢◌, ◌⊎◌, inl, inr, sym, ap, subst,
}
use lebro.Workflow.Model.{RawMessage, StepId, RunStatus, succeeded, failed}
use lebro.Workflow.State.{WorkflowError}
use lebro.Workflow.FanOut.{BranchOutcome}
use lebro.Workflow.Join.{
  BranchResult, branch_result, Decoding, output_value, is_success, is_cancelled_status,
  is_cancellation, Joining, join_one, join_loop, wrap_primary, joined_output, join,
}

-- The first failure, in declaration order, that is no cancellation.
abbrev genuine : Option WorkflowError → Option WorkflowError → Option WorkflowError
genuine none later = later
genuine (some e) later = elim (is_cancellation e) [ true ↦ later | false ↦ some e ]

abbrev pub first_genuine : List (String × BranchOutcome) → Option WorkflowError
first_genuine [] = none
first_genuine ((_, o) ∷ rest) = genuine o.failure (first_genuine rest)

abbrev or_else : Option WorkflowError → Option WorkflowError → Option WorkflowError
or_else none later = later
or_else (some e) later = some e

-- The loop while the context is alive.
live_loop :
    (ctx_done : ℕ → Bool)
    → ((k : ℕ) → ctx_done k ≡ false)
    → (i : ℕ) (os : List (String × BranchOutcome)) (j : Joining)
    → is_cancelled_status j.status ≡ false
    → ((join_loop ctx_done i os j).1.primary ≡ or_else j.primary (first_genuine os))
      × (is_cancelled_status (join_loop ctx_done i os j).1.status ≡ false)
unfolding join_loop
live_loop ctx_done alive i [] j h = ground arith
live_loop ctx_done alive i ((name, o) ∷ os) j h =
    ground (arith, alive i, live_loop ctx_done alive (i + 1) os (join_one (ctx_done i) o j))

abbrev pub wrapped : ℕ → Option WorkflowError → Option WorkflowError
wrapped position none = none
wrapped position (some e) = some (wrap_primary position e)

-- While the run's context is alive, a fan-out step fails exactly when some branch failed other than
-- by cancellation, and it reports the first such failure in declaration order.
pub join-first_genuine :
    {V : Type 0} (json : Decoding V) (ctx_done : ℕ → Bool) (position : ℕ) (id : StepId)
    (os : List (String × BranchOutcome))
    → ((k : ℕ) → ctx_done k ≡ false)
    → (join json ctx_done position id os).failure ≡ wrapped position (first_genuine os)
unfolding join
join-first_genuine json ctx_done position id os alive =
    ground
      (arith, live_loop ctx_done alive 0 os (record { status = succeeded; primary = none }) refl)

abbrev has_failure : Option WorkflowError → Bool
has_failure none = false
has_failure (some _) = true

-- A branch that did not succeed and has a failure, as executeFanOutBranch returns.
abbrev is_failed : BranchOutcome → Bool
is_failed o = not (is_success o.status) && has_failure o.failure

abbrev pub any_failed : List (String × BranchOutcome) → Bool
any_failed [] = false
any_failed ((_, o) ∷ rest) = is_failed o || any_failed rest

abbrev is_failed_status : RunStatus → Bool
is_failed_status failed = true
is_failed_status _ = false

live_status :
    (ctx_done : ℕ → Bool)
    → ((k : ℕ) → ctx_done k ≡ false)
    → (i : ℕ) (os : List (String × BranchOutcome)) (j : Joining)
    → is_cancelled_status j.status ≡ false
    → (is_failed_status j.status || any_failed os) ≡ true
    → (join_loop ctx_done i os j).1.status ≡ failed
unfolding join_loop
live_status ctx_done alive i [] j h any = ground arith
live_status ctx_done alive i ((name, o) ∷ os) j h any =
    ground (arith, alive i, live_status ctx_done alive (i + 1) os (join_one (ctx_done i) o j))

-- While the run's context is alive: if branches failed and every failure is a cancellation, as when
-- a branch's handler ran into a deadline of its own, then the step still produces its joined
-- output and no error, while its own join record says that it failed.
pub join_swallows_cancellations :
    {V : Type 0} (json : Decoding V) (ctx_done : ℕ → Bool) (position : ℕ) (id : StepId)
    (os : List (String × BranchOutcome))
    → ((k : ℕ) → ctx_done k ≡ false)
    → any_failed os ≡ true
    → first_genuine os ≡ none
    → let r = join json ctx_done position id os in
      (r.failure ≡ none) × (r.status ≡ failed) × (r.result ≡ some (joined_output json r.branches))
unfolding join
join_swallows_cancellations json ctx_done position id os alive any cancelled_only =
    let start : Joining = record { status = succeeded; primary = none } in
    ground (
      arith,
      live_loop ctx_done alive 0 os start refl,
      live_status ctx_done alive 0 os start refl any,
    )

abbrev AllSucceeded : List (String × BranchOutcome) → Type 0
AllSucceeded = All (λ (p : String × BranchOutcome). (p.1.status ≡ succeeded) × (p.1.failure ≡ none))

-- The step's output has the entries of the branches in their order: each with the branch's name, and
-- with the value that decoding makes of its output, null if that is empty.
abbrev pub Lists :
    {V : Type 0} → Decoding V → List (String × BranchOutcome) → List (String × V) → Type 0
Lists json [] [] = Unit
Lists json [] (v ∷ vs) = ⊥
Lists json (o ∷ os) [] = ⊥
Lists json ((name, o) ∷ os) ((named, value) ∷ vs) =
    (named ≡ name)
    × (((o.output ≡ []) × (value ≡ json.null)) ⊎ ((o.output ≢ []) × (value ≡ json.decode o.output)))
    × Lists json os vs

value_cases :
    {V : Type 0} (json : Decoding V) (output : RawMessage)
    → ((output ≡ []) × (output_value json output ≡ json.null))
      ⊎ ((output ≢ []) × (output_value json output ≡ json.decode output))
unfolding output_value
value_cases json [] = inl (refl, refl)
value_cases json (b ∷ bs) = inr (λ e. ground (arith, e), refl)

success_result :
    (name : String) (o : BranchOutcome)
    → o.status ≡ succeeded
    → branch_result name o
      ≡ record { name = name; status = o.status; output = o.output; failure = none }
unfolding branch_result
success_result name o h = rw (h) refl

success-Lists :
    {V : Type 0} (json : Decoding V) (ctx_done : ℕ → Bool) (i : ℕ)
    (os : List (String × BranchOutcome)) (j : Joining)
    → AllSucceeded os
    → Lists json os (joined_output json (join_loop ctx_done i os j).0)
unfolding join_loop joined_output
success-Lists json ctx_done i [] j h = tt
success-Lists json ctx_done i ((name, o) ∷ os) j h =
    let result = success_result name o h.0.0 in
    (
      ap (λ (b : BranchResult). b.name) result,
      subst
          (λ (b : BranchResult).
            ((o.output ≡ []) × (output_value json b.output ≡ json.null))
            ⊎ ((o.output ≢ []) × (output_value json b.output ≡ json.decode o.output)))
          (sym result) (value_cases json o.output),
      success-Lists json ctx_done (i + 1) os (join_one (ctx_done i) o j) h.1,
    )

success_loop :
    (ctx_done : ℕ → Bool) (i : ℕ) (os : List (String × BranchOutcome)) (j : Joining)
    → AllSucceeded os
    → (join_loop ctx_done i os j).1 ≡ j
unfolding join_loop
success_loop ctx_done i [] j h = refl
success_loop ctx_done i ((name, o) ∷ os) j h =
    ground (arith, success_loop ctx_done (i + 1) os (join_one (ctx_done i) o j) h.1)

-- If every branch succeeded, the step succeeds, whatever the context does meanwhile. Its output lists
-- the branches in declaration order, each with its name and the value that json.Unmarshal makes of
-- its output, null for an empty one.
pub join-AllSucceeded :
    {V : Type 0} (json : Decoding V) (ctx_done : ℕ → Bool) (position : ℕ) (id : StepId)
    (os : List (String × BranchOutcome))
    → AllSucceeded os
    → let r = join json ctx_done position id os in
      (r.status ≡ succeeded)
      × (r.failure ≡ none)
      × ((values : List (String × V)) × (r.result ≡ some values) × Lists json os values)
unfolding join
join-AllSucceeded json ctx_done position id os h =
    let start : Joining = record { status = succeeded; primary = none } in
    let kept = success_loop ctx_done 0 os start h in
    (
      ground (arith, kept),
      ground (arith, kept),
      (
        joined_output json (join_loop ctx_done 0 os start).0,
        ground (arith, kept),
        success-Lists json ctx_done 0 os start h,
      ),
    )
