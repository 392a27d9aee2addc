-- ===== src/Workflow/Construction/Parts.antt =====
-- What the parts of a built step, and of a built list of branches, were.
use lebro.Common.{◌≡◌, ap, ◌∙◌, Bool, true, Option, none, some, String, arith}
use lebro.Workflow.Retry.{validate_retry_policy}
use lebro.Workflow.Tree.{
  BranchPredicate, StepInfo, LoopConfig, CompiledStep, Steps, Branches, branch,
}
use lebro.Workflow.Definition.{Step, step, head}
use lebro.Workflow.Construction.{
  Toolkit, Construction, built, with_both, compile_info, add_branch, new_step_of,
}
use lebro.Workflow.Construction.Apart.{
  obtained, built_inj, info_id, no_error, both_given, nonempty_or_crash,
}
use lebro.Workflow.Construction.Forms.{IsForm, compiled_form-IsForm}

-- What the children of a step were compiled to.
pub record Parts (tk : Toolkit) (s : Step) (branches : Construction (Option Branches))
    (c : CompiledStep) : Type 0 where
  pub chosen : Option Branches
  pub has_chosen : branches ≡ built chosen
  pub about : StepInfo
  pub named : about.id ≡ (head s).id
  pub form : IsForm (head s) chosen about c

pub new_step_of-Parts :
    (tk : Toolkit) (s : Step) (branches : Construction (Option Branches))
    (fanned each : Construction (Option Steps))
    (while until : Construction (Option (LoopConfig × Steps))) (c : CompiledStep)
    → new_step_of tk s branches fanned each while until ≡ built (some c)
    → Parts tk s branches c
unfolding new_step_of
new_step_of-Parts tk (step h bs fo m fe dw du s su) branches fanned each while until c e =
    let (valid, e₀) = no_error (validate_retry_policy h.retry) _ (some c) e in
    let (cb, is_cb, e₁) = obtained branches _ (some c) e₀ in
    let (cf, is_cf, e₂) = obtained fanned _ (some c) e₁ in
    let (ce, is_ce, e₃) = obtained each _ (some c) e₂ in
    let (cw, is_cw, e₄) = obtained while _ (some c) e₃ in
    let (cu, is_cu, e₅) = obtained until _ (some c) e₄ in
    let (i, is_i, e₆) = obtained (compile_info tk h) _ (some c) e₅ in
    record {
      chosen = cb;
      has_chosen = is_cb;
      about = i;
      named = info_id tk h i is_i;
      form = compiled_form-IsForm tk h bs fo m fe dw du s su cb cw cu i c (built_inj _ (some c) e₆);
    }

-- What a compiled list of branches consists of.
pub record Added (has_first_step : Bool) (steps : Construction (Option Steps))
    (rest : Construction (Option Branches)) (cbs : Branches) (name : String) : Type 0 where
  pub first : Steps
  pub later : Branches
  pub test : BranchPredicate
  pub has_first : steps ≡ built (some first)
  pub has_later : rest ≡ built (some later)
  pub nonempty : has_first_step ≡ true
  pub shape : branch name test first later ≡ cbs

pub decided :
    (condition : Option BranchPredicate) (name : String) (ss : Option Steps) (bs : Option Branches)
    (cbs : Branches)
    → elim condition [ none ↦ none | some c ↦ with_both (branch name c) ss bs ] ≡ some cbs
    → (c : BranchPredicate) × (with_both (branch name c) ss bs ≡ some cbs)
decided none name ss bs cbs e = ground (arith, e)
decided (some c) name ss bs cbs e = (c, e)

pub added :
    (name : String) (condition : Option BranchPredicate) (nonempty : Bool)
    (steps : Construction (Option Steps)) (rest : Construction (Option Branches)) (cbs : Branches)
    → add_branch name condition nonempty steps rest ≡ built (some cbs)
    → Added nonempty steps rest cbs name
unfolding add_branch
added name condition nonempty steps rest cbs e =
    let (ss, is_ss, e₁) = obtained steps _ (some cbs) e in
    let (given, e₂) = nonempty_or_crash nonempty _ (some cbs) e₁ in
    let (bs, is_bs, e₃) = obtained rest _ (some cbs) e₂ in
    let (test, e₄) = decided condition name ss bs cbs (built_inj _ (some cbs) e₃) in
    let (first, later, k, l, shape) = both_given (branch name test) ss bs cbs e₄ in
    record {
      first = first;
      later = later;
      test = test;
      has_first = is_ss ∙ ap (λ (x : Option Steps). built x) k;
      has_later = is_bs ∙ ap (λ (x : Option Branches). built x) l;
      nonempty = given;
      shape = shape;
    }
