-- ===== src/Workflow/Validation/Quiet.antt =====
-- A walk of validateStepTree that noted no schema met none.
use lebro.Common.{
  passed, bound, ◌≡◌, String, true, not, ◌&&◌, ◌||◌, some, List, [], ◌∷◌, ◌++◌, arith, str_eq,
  is_fresh, ltb,
}
use lebro.Workflow.Definition.{
  StepHead, Step, step, StepList, no_steps, one_step, BranchList, no_branches, one_branch, FanOut,
  no_fan_out, fan_out, FanOutBranches, no_fan_out_branches, one_fan_out_branch, ForEach,
  no_for_each, for_each, LoopForm, no_loop, loop, has_steps, is_set, is_given, has_branches,
  has_fan_out, has_fan_out_branches, has_for_each, has_loop,
}
use lebro.Workflow.StepChecks.{
  Validation, note_id, note_schema, control_count, is_negative, are_plain, none_suspends,
  is_loop_bound, has_own_work,
}
use lebro.Workflow.Validation.{
  validate_step_tree, validate_step, validate_branches, validate_fan_out, validate_fan_out_branches,
  validate_for_each, validate_loop,
}
use lebro.Workflow.Validation.OneForm.{one_form}
use lebro.Workflow.Validation.Walks.{at_most_one}
use lebro.Workflow.Validation.Schemas.{
  StepBare, ListBare, BranchesBare, FanOutBare, FanOutBranchesBare, ForEachBare, LoopBare, Bare,
  Quiet, own-Bare, form-Quiet,
}

mutual
  unfolding validate_step_tree StepBare

  pub tree-Quiet :
      (steps : StepList) (v v' : Validation)
      → validate_step_tree steps v ≡ some v'
      → Quiet (ListBare steps) v v'
  tree-Quiet no_steps v v' e q = (ground (arith, e, q), tt)
  tree-Quiet (one_step s rest) v v' e q =
      let (v₁, k, e₁) = bound (validate_step s v) (λ u. validate_step_tree rest u) v' e in
      let later = tree-Quiet rest v₁ v' e₁ q in
      let first = step-Quiet s v v₁ k later.0 in (first.0, (first.1, later.1))

  step-Quiet :
      (s : Step) (v v' : Validation) → validate_step s v ≡ some v' → Quiet (StepBare s) v v'
  step-Quiet (step h bs fo m fe dw du s su) v v' e q =
      let (named, e₁) = passed (str_eq h.id "") _ v' e in
      let (fresh, e₂) = passed (not (is_fresh h.id v.seen)) _ v' e₁ in
      let (apart, e₃) = passed (has_branches bs && has_fan_out fo) _ v' e₂ in
      let (single, e₄) = passed (ltb 1 (control_count (step h bs fo m fe dw du s su))) _ v' e₃ in
      form-Quiet h bs fo m fe dw du s su (note_id h.id v) v'
        (one_form h bs fo m fe dw du s su
          (at_most_one (control_count (step h bs fo m fe dw du s su)) single))
        (record {
          in_branches = λ names u k.
              branches-Quiet bs [] (note_schema (is_given h.input_schema) (note_id h.id v)) names u
                k;
          in_fan_out = λ u p k. fan_out-Quiet h fo (note_id h.id v) u p k;
          in_each = λ u p k. for_each-Quiet h fe (note_id h.id v) u p k;
          in_while = λ u p k. loop-Quiet h dw (note_id h.id v) u p k;
          in_until = λ u p k. loop-Quiet h du (note_id h.id v) u p k;
        })
        e₄ q

  branches-Quiet :
      (bs : BranchList) (names : List String) (v : Validation) (names' : List String)
      (v' : Validation)
      → validate_branches bs names v ≡ some (names', v')
      → Quiet (BranchesBare bs) v v'
  branches-Quiet no_branches names v names' v' e q = (ground (arith, e, q), tt)
  branches-Quiet (one_branch name condition steps rest) names v names' v' e q =
      let (named, e₁) = passed (str_eq name "") _ (names', v') e in
      let (fresh, e₂) = passed (not (is_fresh name names)) _ (names', v') e₁ in
      let (started, e₃) = passed (not (has_steps steps)) _ (names', v') e₂ in
      let (decides, e₄) = passed (not (is_set condition)) _ (names', v') e₃ in
      let (v₁, k, e₅) =
        bound (validate_step_tree steps v) (λ u. validate_branches rest (names ++ name ∷ []) u)
          (names', v') e₄ in
      let later = branches-Quiet rest (names ++ name ∷ []) v₁ names' v' e₅ q in
      let first = tree-Quiet steps v v₁ k later.0 in (first.0, (first.1, later.1))

  fan_out-Quiet :
      (h : StepHead) (fo : FanOut) (v v' : Validation)
      → has_fan_out fo ≡ true
      → validate_fan_out h fo v ≡ some v'
      → Quiet (Bare h × FanOutBare fo) v v'
  fan_out-Quiet h no_fan_out v v' p e q = ground (arith, p)
  fan_out-Quiet h (fan_out policy parallel bs) v v' p e q =
      let (idle, e₁) = passed (has_own_work h) _ v' e in
      let (some_branch, e₂) = passed (not (has_fan_out_branches bs)) _ v' e₁ in
      let (width, e₃) = passed (is_negative parallel) _ v' e₂ in
      let (known, e₄) =
        passed (not (str_eq policy "" || str_eq policy "fail_fast" || str_eq policy "collect_all"))
          _ v' e₃ in
      own-Bare h (FanOutBranchesBare bs) v v' idle
        (fan_out_branches-Quiet bs [] (note_schema (is_given h.input_schema) v) v' e₄) q

  fan_out_branches-Quiet :
      (bs : FanOutBranches) (names : List String) (v v' : Validation)
      → validate_fan_out_branches bs names v ≡ some v'
      → Quiet (FanOutBranchesBare bs) v v'
  fan_out_branches-Quiet no_fan_out_branches names v v' e q = (ground (arith, e, q), tt)
  fan_out_branches-Quiet (one_fan_out_branch name steps rest) names v v' e q =
      let (named, e₁) = passed (str_eq name "") _ v' e in
      let (fresh, e₂) = passed (not (is_fresh name names)) _ v' e₁ in
      let (started, e₃) = passed (not (has_steps steps)) _ v' e₂ in
      let (v₁, k, e₄) =
        bound (validate_step_tree steps v)
          (λ u. validate_fan_out_branches rest (names ++ name ∷ []) u) v' e₃ in
      let later = fan_out_branches-Quiet rest (names ++ name ∷ []) v₁ v' e₄ q in
      let first = tree-Quiet steps v v₁ k later.0 in (first.0, (first.1, later.1))

  for_each-Quiet :
      (h : StepHead) (fe : ForEach) (v v' : Validation)
      → has_for_each fe ≡ true
      → validate_for_each h fe v ≡ some v'
      → Quiet (Bare h × ForEachBare fe) v v'
  for_each-Quiet h no_for_each v v' p e q = ground (arith, p)
  for_each-Quiet h (for_each parallel steps) v v' p e q =
      let (idle, e₁) = passed (has_own_work h) _ v' e in
      let (width, e₂) = passed (is_negative parallel) _ v' e₁ in
      let (started, e₃) = passed (not (has_steps steps)) _ v' e₂ in
      let (plain, e₄) = passed (not (are_plain steps)) _ v' e₃ in
      own-Bare h (ListBare steps) v v' idle
        (tree-Quiet steps (note_schema (is_given h.input_schema) v) v' e₄) q

  loop-Quiet :
      (h : StepHead) (l : LoopForm) (v v' : Validation)
      → has_loop l ≡ true
      → validate_loop h l v ≡ some v'
      → Quiet (Bare h × LoopBare l) v v'
  loop-Quiet h no_loop v v' p e q = ground (arith, p)
  loop-Quiet h (loop limit condition steps) v v' p e q =
      let (idle, e₁) = passed (has_own_work h) _ v' e in
      let (limited, e₂) = passed (not (is_loop_bound limit)) _ v' e₁ in
      let (decides, e₃) = passed (not (is_set condition)) _ v' e₂ in
      let (started, e₄) = passed (not (has_steps steps)) _ v' e₃ in
      let (plain, e₅) = passed (not (are_plain steps && none_suspends steps)) _ v' e₄ in
      own-Bare h (ListBare steps) v v' idle
        (tree-Quiet steps (note_schema (is_given h.input_schema) v) v' e₅) q
