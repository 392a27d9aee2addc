-- ===== src/Workflow/Construction/Valid.antt =====
-- What NewLinearWorkflow builds is a valid tree.
use lebro.Common.{
  ◌≡◌, sym, subst, ap, ◌∙◌, true, false, not, ◌&&◌, Option, some, List, [], ◌∷◌, ◌++◌, String,
  arith, inl, inr, str_eq,
}
use lebro.Workflow.Model.{StepId}
use lebro.Workflow.Tree.{
  StepInfo, loop_while, loop_until, CompiledStep, branching, Steps, nil, cons, Branches, no_more,
  step_ids, steps_ids, branches_ids,
}
use lebro.Workflow.Definition.{
  Step, step, StepList, no_steps, one_step, BranchList, no_branches, one_branch, has_steps, is_set,
  head,
}
use lebro.Workflow.Resume.Ids.{IsNonempty, StepStarts, StepsStart, BranchesStart}
use lebro.Workflow.Resume.Correct.{IsValidTree}
use lebro.Workflow.Validation.{validate_step_tree}
use lebro.Workflow.Validation.Spec.{
  definition_ids, list_ids, branch_ids, fan_out_ids, for_each_ids, loop_ids,
}
use lebro.Workflow.Validation.Sound.{fresh_validation, validate_sound}
use lebro.Workflow.Construction.{
  Toolkit, built, new_compiled_step, compile_steps, compile_branches, compile_fan_out,
  compile_for_each, compile_loop, new_linear_workflow,
}
use lebro.Workflow.Construction.Kept.{Kept, nil-Kept, Kept-append, Kept-left, cons-Kept}
use lebro.Workflow.Construction.Apart.{
  obtained, built_inj, not_refused, accepted, some_inj, both_given,
}
use lebro.Workflow.Construction.Parts.{new_step_of-Parts, added}

-- A compiled list of steps: its IDs, and its branches.
record Compiled (ids whole : List StepId) (Starts : Type 0) : Type 0 where
  kept : Kept ids whole
  starts : Starts

one_step_compiled :
    (id about : StepId) (others : List StepId) (c : CompiledStep)
    → about ≡ id
    → step_ids c ≡ about ∷ []
    → StepStarts c
    → Compiled (step_ids c) (id ∷ others) (StepStarts c)
one_step_compiled id about others c e k starts = record {
  kept =
      subst (λ (l : List StepId). Kept l (id ∷ others)) (sym (k ∙ ap (λ (x : StepId). x ∷ []) e))
        (cons-Kept id [] others (nil-Kept others));
  starts = starts;
}

branching_compiled :
    (id : StepId) (i : StepInfo) (bs : Branches) (default : String) (ids others : List StepId)
    (c : CompiledStep)
    → i.id ≡ id
    → c ≡ branching i bs default
    → Compiled (branches_ids bs) ids (BranchesStart bs)
    → Compiled (step_ids c) (id ∷ (ids ++ others)) (StepStarts c)
unfolding step_ids StepStarts
branching_compiled id i bs default ids others c e shape inner =
    subst (λ (x : CompiledStep). Compiled (step_ids x) (id ∷ (ids ++ others)) (StepStarts x))
      (sym shape)
      (record {
        kept =
            subst (λ (a : StepId). Kept (a ∷ branches_ids bs) (id ∷ (ids ++ others))) (sym e)
              (cons-Kept id (branches_ids bs) (ids ++ others)
                (Kept-left (branches_ids bs) ids others inner.kept));
        starts = inner.starts;
      })

mutual
  unfolding new_compiled_step steps_ids StepStarts list_ids

  step_compiled :
      (tk : Toolkit) (s : Step) (c : CompiledStep)
      → new_compiled_step tk s ≡ built (some c)
      → Compiled (step_ids c) (definition_ids s) (StepStarts c)
  step_compiled tk (step h bs fo m fe dw du s su) c e =
      let p =
        new_step_of-Parts tk (step h bs fo m fe dw du s su) (compile_branches tk bs)
          (compile_fan_out tk fo) (compile_for_each tk fe) (compile_loop tk loop_while dw)
          (compile_loop tk loop_until du) c e in
      let others = fan_out_ids fo ++ (for_each_ids fe ++ (loop_ids dw ++ loop_ids du)) in
      elim p.form [
        | inl plain ↦
            one_step_compiled h.id p.about.id (branch_ids bs ++ others) c p.named plain.0 plain.1
        | inr (cbs, is_chosen, shape) ↦
            branching_compiled h.id p.about cbs (head (step h bs fo m fe dw du s su)).default
              (branch_ids bs) others c p.named shape
              (branches_compiled tk bs cbs
                (p.has_chosen ∙ ap (λ (b : Option Branches). built b) is_chosen))
      ]

  steps_compiled :
      (tk : Toolkit) (steps : StepList) (cs : Steps)
      → compile_steps tk steps ≡ built (some cs)
      → Compiled
          (steps_ids cs)
          (list_ids steps)
          (StepsStart cs × (has_steps steps ≡ true → IsNonempty cs))
  steps_compiled tk no_steps cs e =
      subst
        (λ (x : Steps). Compiled (steps_ids x) [] (StepsStart x × (false ≡ true → IsNonempty x)))
        (some_inj nil cs (built_inj (some nil) (some cs) e))
        (record { kept = nil-Kept []; starts = (tt, λ z. ground (arith, z)) })
  steps_compiled tk (one_step s rest) cs e =
      let (oc, k, e₁) = obtained (new_compiled_step tk s) _ (some cs) e in
      let (ocs, l, e₂) = obtained (compile_steps tk rest) _ (some cs) e₁ in
      let (c, cs', is_c, is_cs, shape) = both_given cons oc ocs cs (built_inj _ (some cs) e₂) in
      let first = step_compiled tk s c (k ∙ ap (λ (x : Option CompiledStep). built x) is_c) in
      let later = steps_compiled tk rest cs' (l ∙ ap (λ (x : Option Steps). built x) is_cs) in
      subst
        (λ (x : Steps).
          Compiled (steps_ids x) (definition_ids s ++ list_ids rest)
            (StepsStart x × (true ≡ true → IsNonempty x)))
        shape
        (record {
          kept =
              Kept-append (step_ids c) (steps_ids cs') (definition_ids s) (list_ids rest) first.kept
                later.kept;
          starts = ((first.starts, later.starts.0), λ z. tt);
        })

  branches_compiled :
      (tk : Toolkit) (bs : BranchList) (cbs : Branches)
      → compile_branches tk bs ≡ built (some cbs)
      → Compiled (branches_ids cbs) (branch_ids bs) (BranchesStart cbs)
  branches_compiled tk no_branches cbs e =
      subst (λ (x : Branches). Compiled (branches_ids x) [] (BranchesStart x))
        (some_inj no_more cbs (built_inj (some no_more) (some cbs) e))
        (record { kept = nil-Kept []; starts = tt })
  branches_compiled tk (one_branch name condition steps rest) cbs e =
      let a =
        added name condition (has_steps steps) (compile_steps tk steps) (compile_branches tk rest)
          cbs e in
      let first = steps_compiled tk steps a.first a.has_first in
      let later = branches_compiled tk rest a.later a.has_later in
      subst
        (λ (x : Branches).
          Compiled (branches_ids x) (list_ids steps ++ branch_ids rest) (BranchesStart x))
        a.shape
        (record {
          kept =
              Kept-append (steps_ids a.first) (branches_ids a.later) (list_ids steps)
                (branch_ids rest) first.kept later.kept;
          starts = (first.starts.1 a.nonempty, (first.starts.0, later.starts));
        })

-- A workflow that NewLinearWorkflow builds has a valid tree: the step IDs that frames visit are
-- distinct, and every branch at every depth has a first step.
pub new_linear_workflow-IsValidTree :
    (tk : Toolkit) (id : String) (steps : StepList) (tree : Steps)
    → new_linear_workflow tk id steps ≡ built (some tree)
    → IsValidTree tree
unfolding new_linear_workflow
new_linear_workflow-IsValidTree tk id steps tree e =
    let (named, e₁) = not_refused (str_eq id "") _ (some tree) e in
    let (given, e₂) = not_refused (not (has_steps steps)) _ (some tree) e₁ in
    let (v, valid, e₃) = accepted (validate_step_tree steps fresh_validation) _ (some tree) e₂ in
    let (schemas, e₄) = not_refused (v.has_schema && not (is_set tk.compiler)) _ (some tree) e₃ in
    let c = steps_compiled tk steps tree e₄ in
    record { distinct = c.kept.apart (validate_sound steps v valid).1; starts = c.starts.0 }
