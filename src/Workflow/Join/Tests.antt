-- ===== src/Workflow/Join/Tests.antt =====
-- The join's theorems applied to the outcomes of concrete branches.
use lebro.Common.{ℕ, ◌≡◌, refl, String, true, false, none, some, List, [], ◌∷◌}
use lebro.Workflow.Model.{RunStatus, succeeded, failed, cancelled}
use lebro.Workflow.State.{ErrorKind, cancelled_run, step_failed, step_panicked}
use lebro.Workflow.FanOut.{BranchOutcome}
use lebro.Workflow.Join.{Decoding, join, joined_output}
use lebro.Workflow.Join.Failures.{
  first_genuine, wrapped, Lists, join-first_genuine, join_swallows_cancellations, join-AllSucceeded,
}

-- A decoder that reads one digit, and takes any other text for null.
abbrev json : Decoding ℕ
json = record { null = 0; decode = λ text. elim text [ [] ↦ 0 | b ∷ bs ↦ b ] }

abbrev good : ℕ → BranchOutcome
good n = record { output = n ∷ []; status = succeeded; failure = none }

abbrev bad : RunStatus → ErrorKind → BranchOutcome
bad status kind = record {
  output = [];
  status = status;
  failure = some (record { kind = kind; step = 3; step_id = "call" });
}

abbrev two_fail : List (String × BranchOutcome)
two_fail =
    ("a", bad cancelled cancelled_run)
    ∷ ("b", bad failed step_panicked)
    ∷ ("c", bad failed step_failed)
    ∷ []

abbrev timed_out : List (String × BranchOutcome)
timed_out = ("a", good 1) ∷ ("b", bad cancelled cancelled_run) ∷ []

abbrev all_good : List (String × BranchOutcome)
all_good = ("a", good 1) ∷ ("b", good 2) ∷ []

join-first_genuine_example :
    (join json (λ _. false) 3 "fan" two_fail).failure ≡ wrapped 3 (first_genuine two_fail)
join-first_genuine_example = join-first_genuine json (λ _. false) 3 "fan" two_fail (λ k. refl)

join_swallows_cancellations_example :
    let r = join json (λ _. false) 3 "fan" timed_out in
    (r.failure ≡ none) × (r.status ≡ failed) × (r.result ≡ some (joined_output json r.branches))
join_swallows_cancellations_example =
    join_swallows_cancellations json (λ _. false) 3 "fan" timed_out (λ k. refl) refl refl

join-AllSucceeded_example :
    let r = join json (λ _. true) 3 "fan" all_good in
    (r.status ≡ succeeded)
    × (r.failure ≡ none)
    × ((values : List (String × ℕ)) × (r.result ≡ some values) × Lists json all_good values)
join-AllSucceeded_example =
    join-AllSucceeded json (λ _. true) 3 "fan" all_good ((refl, refl), ((refl, refl), tt))
