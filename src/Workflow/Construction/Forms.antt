-- ===== src/Workflow/Construction/Forms.antt =====
-- The step of the tree that a definition is compiled to, by its form.
use lebro.Common.{ℕ, ◌≡◌, refl, sym, subst, Option, none, some, [], ◌∷◌, ℤ, arith, ◌⊎◌, inl, inr}
use lebro.Workflow.Tree.{
  Wake, StepInfo, LoopConfig, CompiledStep, task, sleep, mapping, looping, branching, Steps,
  Branches, step_ids,
}
use lebro.Workflow.Definition.{
  StepHead, MapForm, step, BranchList, no_branches, one_branch, FanOut, no_fan_out, fan_out,
  ForEach, no_for_each, for_each, LoopForm, no_loop, loop,
}
use lebro.Workflow.Resume.Ids.{StepStarts}
use lebro.Workflow.Construction.{Toolkit, wake_of, compiled_form}
use lebro.Workflow.Construction.Apart.{some_inj}

-- What a compiled step is: one that frames do not look into, or one of its compiled branches.
abbrev pub IsForm : StepHead → Option Branches → StepInfo → CompiledStep → Type 0
IsForm h branches i c =
    ((step_ids c ≡ i.id ∷ []) × StepStarts c)
    ⊎ ((bs : Branches) × (branches ≡ some bs) × (c ≡ branching i bs h.default))

pub plain-IsForm :
    (h : StepHead) (branches : Option Branches) (i : StepInfo) (c' c : CompiledStep)
    → some c' ≡ some c
    → (step_ids c' ≡ i.id ∷ []) × StepStarts c'
    → IsForm h branches i c
plain-IsForm h branches i c' c e p =
    inl (subst (λ (x : CompiledStep). (step_ids x ≡ i.id ∷ []) × StepStarts x) (some_inj c' c e) p)

pub from_loop :
    (h : StepHead) (branches : Option Branches) (l : Option (LoopConfig × Steps)) (i : StepInfo)
    (c : CompiledStep)
    → elim l [ none ↦ none | some (k, steps) ↦ some (looping i k steps) ] ≡ some c
    → IsForm h branches i c
unfolding step_ids StepStarts
from_loop h branches none i c e = ground (arith, e)
from_loop h branches (some (k, steps)) i c e =
    plain-IsForm h branches i (looping i k steps) c e (refl, tt)

pub from_wake :
    (h : StepHead) (branches : Option Branches) (w : Option Wake) (i : StepInfo) (c : CompiledStep)
    → elim w [ none ↦ none | some t ↦ some (sleep i t) ] ≡ some c
    → IsForm h branches i c
unfolding step_ids StepStarts
from_wake h branches none i c e = ground (arith, e)
from_wake h branches (some t) i c e = plain-IsForm h branches i (sleep i t) c e (refl, tt)

pub compiled_form-IsForm :
    (tk : Toolkit) (h : StepHead) (bs : BranchList) (fo : FanOut) (m : Option MapForm)
    (fe : ForEach) (dw du : LoopForm) (s : Option ℤ) (su : Option (Option ℕ))
    (branches : Option Branches) (while until : Option (LoopConfig × Steps)) (i : StepInfo)
    (c : CompiledStep)
    → compiled_form tk (step h bs fo m fe dw du s su) branches while until i ≡ some c
    → IsForm h branches i c
unfolding step_ids StepStarts
compiled_form-IsForm tk h (one_branch _ _ _ _) fo m fe dw du s su none while until i c e =
    ground (arith, e)
compiled_form-IsForm tk h (one_branch _ _ _ _) fo m fe dw du s su (some bs) while until i c e =
    inr (bs, refl, some_inj c (branching i bs h.default) (sym e))
compiled_form-IsForm tk h no_branches (fan_out _ _ _) m fe dw du s su branches while until i c e =
    ground (arith, e)
compiled_form-IsForm tk h no_branches no_fan_out (some m) fe dw du s su branches while until i c e =
    plain-IsForm h branches i (mapping i (tk.execute_map m.path m.fields)) c e (refl, tt)
compiled_form-IsForm tk h no_branches no_fan_out none (for_each _ _) dw du s su branches while until
      i c e =
    ground (arith, e)
compiled_form-IsForm tk h no_branches no_fan_out none no_for_each (loop _ _ _) du s su branches
      while until i c e =
    from_loop h branches while i c e
compiled_form-IsForm tk h no_branches no_fan_out none no_for_each no_loop (loop _ _ _) s su branches
      while until i c e =
    from_loop h branches until i c e
compiled_form-IsForm tk h no_branches no_fan_out none no_for_each no_loop no_loop none none branches
      while until i c e =
    plain-IsForm h branches i (task i) c e (refl, tt)
compiled_form-IsForm tk h no_branches no_fan_out none no_for_each no_loop no_loop none (some t)
      branches while until i c e =
    from_wake h branches (wake_of none (some t)) i c e
compiled_form-IsForm tk h no_branches no_fan_out none no_for_each no_loop no_loop (some d) su
      branches while until i c e =
    from_wake h branches (wake_of (some d) su) i c e
