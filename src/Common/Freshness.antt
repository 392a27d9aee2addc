-- ===== src/Common/Freshness.antt =====
-- A test of distinctness on strings.
use mathlib.Core.Path.{◌≡◌, sym}
use mathlib.Core.Logic.{inl, inr}
use mathlib.Core.Bool.{Bool, true, false, not, ◌&&◌}
use mathlib.Core.List.{List, [], ◌∷◌, ◌++◌}
use Prim.Native.String.{String}
use text.Mathlib.TextEquality.{eq_iff}
use native.Mathlib.Omega.{arith}
use lebro.Common.Tests.{str_eq, Bool-cases}
use lebro.Common.Membership.{Fresh, Distinct, In}

abbrev pub is_fresh : String → List String → Bool
is_fresh a [] = true
is_fresh a (x ∷ xs) = not (str_eq a x) && is_fresh a xs

abbrev pub are_distinct : List String → Bool
are_distinct [] = true
are_distinct (x ∷ xs) = is_fresh x xs && are_distinct xs

pub is_fresh-Fresh : (a : String) (xs : List String) → is_fresh a xs ≡ true → Fresh a xs
is_fresh-Fresh a [] h = tt
is_fresh-Fresh a (x ∷ xs) h = (λ p. ground (arith, eq_iff a x), is_fresh-Fresh a xs (ground arith))

pub are_distinct-Distinct : (xs : List String) → are_distinct xs ≡ true → Distinct xs
are_distinct-Distinct [] h = tt
are_distinct-Distinct (x ∷ xs) h =
    (is_fresh-Fresh x xs (ground arith), are_distinct-Distinct xs (ground arith))

pub not_fresh-In : (a : String) (xs : List String) → is_fresh a xs ≡ false → In a xs
not_fresh-In a [] h = ground (arith, h)
not_fresh-In a (x ∷ xs) h = elim (Bool-cases (str_eq a x)) [
  | inl e ↦ inl ((eq_iff a x).0 e)
  | inr e ↦ inr (not_fresh-In a xs (ground (arith, e, h)))
]

Fresh-append : {A : Type 0} (a : A) (xs ys : List A) → Fresh a xs → Fresh a ys → Fresh a (xs ++ ys)
Fresh-append a [] ys f g = g
Fresh-append a (x ∷ xs) ys f g = (f.0, Fresh-append a xs ys f.1 g)

pub Distinct-append_new :
    {A : Type 0} (a : A) (xs : List A) → Fresh a xs → Distinct xs → Distinct (xs ++ a ∷ [])
Distinct-append_new a [] f d = (tt, tt)
Distinct-append_new a (x ∷ xs) f d =
    (Fresh-append x xs (a ∷ []) d.0 ((λ p. f.0 (sym p)), tt), Distinct-append_new a xs f.1 d.1)
