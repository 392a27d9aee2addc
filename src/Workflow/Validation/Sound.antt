-- ===== src/Workflow/Validation/Sound.antt =====
-- What an accepted definition is: validateStepTree checks what it is to ensure.
use lebro.Common.{
  passed, bound, ◌≡◌, refl, String, false, not, ◌&&◌, ◌||◌, some, List, [], ◌∷◌, ◌++◌, Distinct,
  arith, str_eq, ltb, is_fresh,
}
use lebro.Workflow.Definition.{
  StepHead, Step, step, StepList, no_steps, one_step, BranchList, no_branches, one_branch, FanOut,
  no_fan_out, fan_out, FanOutBranches, no_fan_out_branches, one_fan_out_branch, ForEach,
  no_for_each, for_each, LoopForm, no_loop, loop, has_steps, is_set, is_given, has_branches,
  has_fan_out, has_fan_out_branches,
}
use lebro.Workflow.StepChecks.{
  Validation, note_id, note_schema, has_own_work, is_negative, are_plain, none_suspends,
  control_count, is_loop_bound,
}
use lebro.Workflow.Validation.{
  by_form, validate_step_tree, validate_step, validate_branches, validate_fan_out,
  validate_fan_out_branches, validate_for_each, validate_loop,
}
use lebro.Workflow.Validation.Spec.{
  definition_ids, list_ids, branch_ids, fan_out_ids, fan_out_branch_ids, for_each_ids, loop_ids,
  branch_names, fan_out_names, WellFormed, ListWellFormed, FanOutWellFormed, ForEachWellFormed,
  LoopWellFormed,
}
use lebro.Workflow.Validation.Walks.{
  Walked, stayed, chained, mapped, unnegated, ne_of, at_most_one, bounded, unnamed, Named-Distinct,
  Named-cons, ended_walk,
}
use lebro.Workflow.Validation.OneForm.{one_form}
use lebro.Workflow.Validation.Forms.{NamedBranches, NamedFanOut, form_walks}

mutual
  unfolding validate_step_tree by_form list_ids ListWellFormed

  tree_walks :
      (steps : StepList) (v v' : Validation)
      → validate_step_tree steps v ≡ some v'
      → Walked (list_ids steps) (ListWellFormed steps) v v'
  tree_walks no_steps v v' e = stayed Unit v v' tt (ground (arith, e))
  tree_walks (one_step s rest) v v' e =
      let (v₁, k, e₁) = bound (validate_step s v) (λ u. validate_step_tree rest u) v' e in
      chained (definition_ids s) (list_ids rest) (WellFormed s) (ListWellFormed rest) v v₁ v'
        (step_walks s v v₁ k) (tree_walks rest v₁ v' e₁)

  step_walks :
      (s : Step) (v v' : Validation)
      → validate_step s v ≡ some v'
      → Walked (definition_ids s) (WellFormed s) v v'
  step_walks (step h bs fo m fe dw du s su) v v' e =
      let (named, e₁) = passed (str_eq h.id "") _ v' e in
      let (fresh, e₂) = passed (not (is_fresh h.id v.seen)) _ v' e₁ in
      let (apart, e₃) = passed (has_branches bs && has_fan_out fo) _ v' e₂ in
      let (single, e₄) = passed (ltb 1 (control_count (step h bs fo m fe dw du s su))) _ v' e₃ in
      form_walks h bs fo m fe dw du s su v v'
        (one_form h bs fo m fe dw du s su
          (at_most_one (control_count (step h bs fo m fe dw du s su)) single))
        (record {
          named = ne_of h.id "" named;
          fresh = unnegated fresh;
          single = at_most_one (control_count (step h bs fo m fe dw du s su)) single;
        })
        (record {
          in_branches = λ names u k.
              branches_walk bs [] (note_schema (is_given h.input_schema) (note_id h.id v)) names u
                k;
          in_fan_out = λ u k. fan_out_walks h fo (note_id h.id v) u k;
          in_each = λ u k. for_each_walks h fe (note_id h.id v) u k;
          in_while = λ u k. loop_walks h dw (note_id h.id v) u k;
          in_until = λ u k. loop_walks h du (note_id h.id v) u k;
        })
        e₄

  branches_walk :
      (bs : BranchList) (names : List String) (v : Validation) (names' : List String)
      (v' : Validation)
      → validate_branches bs names v ≡ some (names', v')
      → Walked (branch_ids bs) (NamedBranches names bs names') v v'
  branches_walk no_branches names v names' v' e =
      let k = ended_walk (names, v) (names', v') e in
      stayed (NamedBranches names no_branches names') v v' (tt, rw k.0 (unnamed names)) k.1
  branches_walk (one_branch name condition steps rest) names v names' v' e =
      let (named, e₁) = passed (str_eq name "") _ (names', v') e in
      let (fresh, e₂) = passed (not (is_fresh name names)) _ (names', v') e₁ in
      let (started, e₃) = passed (not (has_steps steps)) _ (names', v') e₂ in
      let (decides, e₄) = passed (not (is_set condition)) _ (names', v') e₃ in
      let (v₁, k, e₅) =
        bound (validate_step_tree steps v) (λ u. validate_branches rest (names ++ name ∷ []) u)
          (names', v') e₄ in
      let later = branches_walk rest (names ++ name ∷ []) v₁ names' v' e₅ in
      let both =
        chained (list_ids steps) (branch_ids rest) (ListWellFormed steps)
          (NamedBranches (names ++ name ∷ []) rest names') v v₁ v' (tree_walks steps v v₁ k)
          later in
      mapped (list_ids steps ++ branch_ids rest)
        (ListWellFormed steps × NamedBranches (names ++ name ∷ []) rest names')
        (NamedBranches names (one_branch name condition steps rest) names') v v v' refl
        (λ p. (
          (ne_of name "" named, unnegated decides, unnegated started, p.0, p.1.0),
          Named-cons name names (branch_names rest) names' (unnegated fresh) p.1.1,
        ))
        both

  fan_out_walks :
      (h : StepHead) (fo : FanOut) (v v' : Validation)
      → validate_fan_out h fo v ≡ some v'
      → Walked (fan_out_ids fo) (FanOutWellFormed fo) v v'
  fan_out_walks h no_fan_out v v' e = stayed Unit v v' tt (ground (arith, e))
  fan_out_walks h (fan_out policy parallel bs) v v' e =
      let (idle, e₁) = passed (has_own_work h) _ v' e in
      let (some_branch, e₂) = passed (not (has_fan_out_branches bs)) _ v' e₁ in
      let (width, e₃) = passed (is_negative parallel) _ v' e₂ in
      let (known, e₄) =
        passed (not (str_eq policy "" || str_eq policy "fail_fast" || str_eq policy "collect_all"))
          _ v' e₃ in
      let v₁ = note_schema (is_given h.input_schema) v in
      mapped (fan_out_branch_ids bs) (NamedFanOut [] bs)
        (FanOutWellFormed (fan_out policy parallel bs)) v v₁ v' refl
        (λ p. (p.0, Named-Distinct (fan_out_names bs) p.1.0 p.1.1))
        (fan_out_branches_walk bs [] v₁ v' e₄)

  fan_out_branches_walk :
      (bs : FanOutBranches) (names : List String) (v v' : Validation)
      → validate_fan_out_branches bs names v ≡ some v'
      → Walked (fan_out_branch_ids bs) (NamedFanOut names bs) v v'
  fan_out_branches_walk no_fan_out_branches names v v' e =
      stayed (NamedFanOut names no_fan_out_branches) v v' (tt, (names, unnamed names))
        (ground (arith, e))
  fan_out_branches_walk (one_fan_out_branch name steps rest) names v v' e =
      let (named, e₁) = passed (str_eq name "") _ v' e in
      let (fresh, e₂) = passed (not (is_fresh name names)) _ v' e₁ in
      let (started, e₃) = passed (not (has_steps steps)) _ v' e₂ in
      let (v₁, k, e₄) =
        bound (validate_step_tree steps v)
          (λ u. validate_fan_out_branches rest (names ++ name ∷ []) u) v' e₃ in
      let later = fan_out_branches_walk rest (names ++ name ∷ []) v₁ v' e₄ in
      let both =
        chained (list_ids steps) (fan_out_branch_ids rest) (ListWellFormed steps)
          (NamedFanOut (names ++ name ∷ []) rest) v v₁ v' (tree_walks steps v v₁ k) later in
      mapped (list_ids steps ++ fan_out_branch_ids rest)
        (ListWellFormed steps × NamedFanOut (names ++ name ∷ []) rest)
        (NamedFanOut names (one_fan_out_branch name steps rest)) v v v' refl
        (λ p. (
          (ne_of name "" named, unnegated started, p.0, p.1.0),
          (p.1.1.0, Named-cons name names (fan_out_names rest) p.1.1.0 (unnegated fresh) p.1.1.1),
        ))
        both

  for_each_walks :
      (h : StepHead) (fe : ForEach) (v v' : Validation)
      → validate_for_each h fe v ≡ some v'
      → Walked (for_each_ids fe) (ForEachWellFormed fe) v v'
  for_each_walks h no_for_each v v' e = stayed Unit v v' tt (ground (arith, e))
  for_each_walks h (for_each parallel steps) v v' e =
      let (idle, e₁) = passed (has_own_work h) _ v' e in
      let (width, e₂) = passed (is_negative parallel) _ v' e₁ in
      let (started, e₃) = passed (not (has_steps steps)) _ v' e₂ in
      let (plain, e₄) = passed (not (are_plain steps)) _ v' e₃ in
      let v₁ = note_schema (is_given h.input_schema) v in
      mapped (list_ids steps) (ListWellFormed steps) (ForEachWellFormed (for_each parallel steps)) v
        v₁ v' refl (λ p. (unnegated started, p)) (tree_walks steps v₁ v' e₄)

  loop_walks :
      (h : StepHead) (l : LoopForm) (v v' : Validation)
      → validate_loop h l v ≡ some v'
      → Walked (loop_ids l) (LoopWellFormed l) v v'
  loop_walks h no_loop v v' e = stayed Unit v v' tt (ground (arith, e))
  loop_walks h (loop limit condition steps) v v' e =
      let (idle, e₁) = passed (has_own_work h) _ v' e in
      let (limited, e₂) = passed (not (is_loop_bound limit)) _ v' e₁ in
      let (decides, e₃) = passed (not (is_set condition)) _ v' e₂ in
      let (started, e₄) = passed (not (has_steps steps)) _ v' e₃ in
      let (plain, e₅) = passed (not (are_plain steps && none_suspends steps)) _ v' e₄ in
      let v₁ = note_schema (is_given h.input_schema) v in
      let (n, is_n, above, below) = bounded limit (unnegated limited) in
      mapped (list_ids steps) (ListWellFormed steps) (LoopWellFormed (loop limit condition steps)) v
        v₁ v' refl (λ p. (n, is_n, above, below, unnegated decides, unnegated started, p))
        (tree_walks steps v₁ v' e₅)

abbrev pub fresh_validation : Validation
fresh_validation = record { seen = []; has_schema = false }

-- If validateStepTree accepts the steps of a workflow, then they are well-formed at every depth, the
-- IDs of all of them, in whatever form they stand, are distinct, and those are the IDs that it saw.
pub validate_sound :
    (steps : StepList) (v : Validation)
    → validate_step_tree steps fresh_validation ≡ some v
    → ListWellFormed steps × Distinct (list_ids steps) × (v.seen ≡ list_ids steps)
validate_sound steps v e =
    let w = tree_walks steps fresh_validation v e in (w.ordered, rw⁻¹ w.seen (w.new tt), w.seen)
