-- ===== src/Workflow/Validation/Forms.antt =====
-- One step of validateStepTree, by its form.
use lebro.Common.{ℕ, ◌≡◌, refl, String, Option, none, some, List, [], ◌++◌, ℤ, arith}
use lebro.Workflow.Definition.{
  StepHead, MapForm, step, BranchList, no_branches, one_branch, FanOut, no_fan_out, fan_out,
  FanOutBranches, ForEach, no_for_each, for_each, LoopForm, no_loop, loop, is_given,
}
use lebro.Workflow.StepChecks.{Validation, note_id, note_schema}
use lebro.Workflow.Validation.{
  by_form, validate_branches, validate_fan_out, validate_for_each, validate_loop,
}
use lebro.Workflow.Validation.Spec.{
  definition_ids, list_ids, branch_ids, fan_out_ids, for_each_ids, loop_ids, branch_names,
  fan_out_names, WellFormed, ListWellFormed, BranchesWellFormed, FanOutWellFormed,
  FanOutBranchesWellFormed, ForEachWellFormed, LoopWellFormed,
}
use lebro.Workflow.Validation.OneForm.{
  OneForm, branches_only, fan_out_only, map_only, for_each_only, while_only, until_only, no_form,
}
use lebro.Workflow.Validation.Walks.{
  Walked, stayed, mapped, Named, whole, padded, Named-Distinct, Named-In, by_map, by_rest, closed,
  Start,
}

abbrev pub NamedBranches : List String → BranchList → List String → Type 0
NamedBranches names bs names' = BranchesWellFormed bs × Named names (branch_names bs) names'

abbrev pub NamedFanOut : List String → FanOutBranches → Type 0
NamedFanOut names bs =
    FanOutBranchesWellFormed bs × ((names' : List String) × Named names (fan_out_names bs) names')

-- What the walks over the children of a step show.
pub record Children (h : StepHead) (bs : BranchList) (fo : FanOut) (fe : ForEach) (dw du : LoopForm)
    (v : Validation) : Type 0 where
  pub in_branches :
      (names : List String) (v' : Validation)
      → validate_branches bs [] (note_schema (is_given h.input_schema) v) ≡ some (names, v')
      → Walked
          (branch_ids bs)
          (NamedBranches [] bs names)
          (note_schema (is_given h.input_schema) v)
          v'
  pub in_fan_out :
      (v' : Validation)
      → validate_fan_out h fo v ≡ some v'
      → Walked (fan_out_ids fo) (FanOutWellFormed fo) v v'
  pub in_each :
      (v' : Validation)
      → validate_for_each h fe v ≡ some v'
      → Walked (for_each_ids fe) (ForEachWellFormed fe) v v'
  pub in_while :
      (v' : Validation)
      → validate_loop h dw v ≡ some v'
      → Walked (loop_ids dw) (LoopWellFormed dw) v v'
  pub in_until :
      (v' : Validation)
      → validate_loop h du v ≡ some v'
      → Walked (loop_ids du) (LoopWellFormed du) v v'

pub form_walks :
    (h : StepHead) (bs : BranchList) (fo : FanOut) (m : Option MapForm) (fe : ForEach)
    (dw du : LoopForm) (s : Option ℤ) (su : Option (Option ℕ)) (v v' : Validation)
    → OneForm bs fo m fe dw du
    → Start (step h bs fo m fe dw du s su) v
    → Children h bs fo fe dw du (note_id h.id v)
    → by_form
        (step h bs fo m fe dw du s su)
        (note_id h.id v)
        (validate_branches bs [] (note_schema (is_given h.input_schema) (note_id h.id v)))
        (validate_fan_out h fo (note_id h.id v))
        (validate_for_each h fe (note_id h.id v))
        (validate_loop h dw (note_id h.id v))
        (validate_loop h du (note_id h.id v))
      ≡ some v'
    → Walked
        (definition_ids (step h bs fo m fe dw du s su))
        (WellFormed (step h bs fo m fe dw du s su))
        v
        v'
unfolding by_form list_ids ListWellFormed
form_walks h _ _ _ _ _ _ s su v v' (branches_only n c ss bs) start kids e =
    let (names, k, known) =
      closed h
        (validate_branches (one_branch n c ss bs) []
          (note_schema (is_given h.input_schema) (note_id h.id v)))
        v' e in
    let walk = kids.in_branches names v' k in
    whole h.id (branch_ids (one_branch n c ss bs) ++ [])
      (NamedBranches [] (one_branch n c ss bs) names)
      (WellFormed (step h (one_branch n c ss bs) no_fan_out none no_for_each no_loop no_loop s su))
      v v' start.fresh
      (λ p. (
        start.named,
        start.single,
        (λ z. absurd (omega (arith, z))),
        p.0,
        Named-Distinct (branch_names (one_branch n c ss bs)) names p.1,
        (λ given. Named-In h.default (branch_names (one_branch n c ss bs)) names p.1 (known given)),
        tt,
        tt,
        tt,
        tt,
      ))
      (padded (branch_ids (one_branch n c ss bs)) (NamedBranches [] (one_branch n c ss bs) names)
        (note_id h.id v) v'
        (mapped (branch_ids (one_branch n c ss bs)) (NamedBranches [] (one_branch n c ss bs) names)
          (NamedBranches [] (one_branch n c ss bs) names) (note_id h.id v)
          (note_schema (is_given h.input_schema) (note_id h.id v)) v' refl (λ p. p) walk))
form_walks h _ _ _ _ _ _ s su v v' (fan_out_only p w bs) start kids e =
    whole h.id (fan_out_ids (fan_out p w bs) ++ []) (FanOutWellFormed (fan_out p w bs))
      (WellFormed (step h no_branches (fan_out p w bs) none no_for_each no_loop no_loop s su)) v v'
      start.fresh
      (λ p.
        (start.named, start.single, (λ z. absurd (omega (arith, z))), tt, tt, tt, p, tt, tt, tt))
      (padded (fan_out_ids (fan_out p w bs)) (FanOutWellFormed (fan_out p w bs)) (note_id h.id v) v'
        (kids.in_fan_out v' e))
form_walks h _ _ _ _ _ _ s su v v' (map_only form) start kids e =
    whole h.id [] (Unit)
      (WellFormed (step h no_branches no_fan_out (some form) no_for_each no_loop no_loop s su)) v v'
      start.fresh
      (λ p.
        (start.named, start.single, (λ z. absurd (omega (arith, z))), tt, tt, tt, tt, tt, tt, tt))
      (stayed Unit (note_id h.id v) v' tt (by_map h form (note_id h.id v) v' e))
form_walks h _ _ _ _ _ _ s su v v' (for_each_only w ss) start kids e =
    whole h.id (for_each_ids (for_each w ss) ++ []) (ForEachWellFormed (for_each w ss))
      (WellFormed (step h no_branches no_fan_out none (for_each w ss) no_loop no_loop s su)) v v'
      start.fresh
      (λ p.
        (start.named, start.single, (λ z. absurd (omega (arith, z))), tt, tt, tt, tt, p, tt, tt))
      (padded (for_each_ids (for_each w ss)) (ForEachWellFormed (for_each w ss)) (note_id h.id v) v'
        (kids.in_each v' e))
form_walks h _ _ _ _ _ _ s su v v' (while_only l c ss) start kids e =
    whole h.id (loop_ids (loop l c ss) ++ []) (LoopWellFormed (loop l c ss))
      (WellFormed (step h no_branches no_fan_out none no_for_each (loop l c ss) no_loop s su)) v v'
      start.fresh
      (λ p.
        (start.named, start.single, (λ z. absurd (omega (arith, z))), tt, tt, tt, tt, tt, p, tt))
      (padded (loop_ids (loop l c ss)) (LoopWellFormed (loop l c ss)) (note_id h.id v) v'
        (kids.in_while v' e))
form_walks h _ _ _ _ _ _ s su v v' (until_only l c ss) start kids e =
    whole h.id (loop_ids (loop l c ss)) (LoopWellFormed (loop l c ss))
      (WellFormed (step h no_branches no_fan_out none no_for_each no_loop (loop l c ss) s su)) v v'
      start.fresh
      (λ p.
        (start.named, start.single, (λ z. absurd (omega (arith, z))), tt, tt, tt, tt, tt, tt, p))
      (kids.in_until v' e)
form_walks h _ _ _ _ _ _ s su v v' no_form start kids e =
    let rest = by_rest h s su (note_id h.id v) v' e in
    whole h.id [] Unit
      (WellFormed (step h no_branches no_fan_out none no_for_each no_loop no_loop s su)) v v'
      start.fresh
      (λ p.
        (start.named, start.single, (λ z. rest.1 (omega (arith, z))), tt, tt, tt, tt, tt, tt, tt))
      (stayed Unit (note_id h.id v) v' tt rest.0)
