-- ===== src/Workflow/Construction/Apart.antt =====
-- Taking a construction apart.
use lebro.Common.{◌≡◌, refl, Bool, true, false, not, Option, none, some, arith, if◌then◌else◌}
use lebro.Workflow.Retry.{PolicyError}
use lebro.Workflow.Tree.{StepInfo}
use lebro.Workflow.Definition.{StepHead}
use lebro.Workflow.Construction.{
  Toolkit, Construction, built, refused, crashed, and_then, with_both, compile_info,
}

pub obtained :
    {A B : Type 0} (r : Construction A) (f : A → Construction B) (b : B)
    → and_then r f ≡ built b
    → (a : A) × (r ≡ built a) × (f a ≡ built b)
obtained (built a) f b e = (a, refl, e)
obtained refused f b e = ground (arith, e)
obtained crashed f b e = ground (arith, e)

pub built_inj : {A : Type 0} (a b : A) → built a ≡ built b → a ≡ b
built_inj a b e = ground (arith, e)

pub info_id :
    (tk : Toolkit) (h : StepHead) (i : StepInfo) → compile_info tk h ≡ built i → i.id ≡ h.id
unfolding compile_info
info_id tk h i e = ground (arith, e)

pub not_refused :
    {A : Type 0} (b : Bool) (r : Construction A) (a : A)
    → (if b then refused else r) ≡ built a
    → (b ≡ false) × (r ≡ built a)
not_refused true r a e = ground (arith, e)
not_refused false r a e = (refl, e)

pub accepted :
    {A B : Type 0} (o : Option A) (f : A → Construction B) (b : B)
    → elim o [ none ↦ refused | some a ↦ f a ] ≡ built b
    → (a : A) × (o ≡ some a) × (f a ≡ built b)
accepted none f b e = ground (arith, e)
accepted (some a) f b e = (a, refl, e)

pub some_inj : {A : Type 0} (a b : A) → some a ≡ some b → a ≡ b
some_inj a b e = ground (arith, e)

pub no_error :
    {A : Type 0} (o : Option PolicyError) (r : Construction A) (a : A)
    → elim o [ some x ↦ refused | none ↦ r ] ≡ built a
    → (o ≡ none) × (r ≡ built a)
no_error none r a e = (refl, e)
no_error (some x) r a e = ground (arith, e)

pub both_given :
    {A B C : Type 0} (f : A → B → C) (a : Option A) (b : Option B) (c : C)
    → with_both f a b ≡ some c
    → (x : A) × (y : B) × (a ≡ some x) × (b ≡ some y) × (f x y ≡ c)
both_given f none b c e = ground (arith, e)
both_given f (some a) none c e = ground (arith, e)
both_given f (some a) (some b) c e = (a, b, refl, refl, some_inj (f a b) c e)

pub nonempty_or_crash :
    {A : Type 0} (nonempty : Bool) (r : Construction A) (a : A)
    → (if not nonempty then crashed else r) ≡ built a
    → (nonempty ≡ true) × (r ≡ built a)
nonempty_or_crash true r a e = (refl, e)
nonempty_or_crash false r a e = ground (arith, e)
