-- ===== src/Workflow/Construction/Kept.antt =====
-- The step IDs that a compiled tree keeps of its definition.
use lebro.Common.{
  ◌≢◌, refl, inl, inr, List, [], ◌∷◌, ◌++◌, In, Distinct, Fresh, In-append_left, In-append_right,
  In-append_cases, Distinct-append_left, Distinct-append_right, Distinct-append_ne, String,
}

-- IDs among others: distinct ones stay distinct.
pub record Kept (ids whole : List String) : Type 0 where
  pub inside : (a : String) → In a ids → In a whole
  pub apart : Distinct whole → Distinct ids

disjoint-Distinct :
    (xs ys : List String)
    → Distinct xs
    → Distinct ys
    → ((a b : String) → In a xs → In b ys → a ≢ b)
    → Distinct (xs ++ ys)
disjoint-Distinct [] ys d e ne = e
disjoint-Distinct (x ∷ xs) ys d e ne = (
  fresh xs ys d.0 (λ b i. ne x b (inl refl) i),
  disjoint-Distinct xs ys d.1 e (λ a b i j. ne a b (inr i) j),
)
  where
    fresh_of : (zs : List String) → ((b : String) → In b zs → x ≢ b) → Fresh x zs
    fresh_of [] f = tt
    fresh_of (z ∷ zs) f = (f z (inl refl), fresh_of zs (λ b i. f b (inr i)))

    fresh :
        (us zs : List String) → Fresh x us → ((b : String) → In b zs → x ≢ b) → Fresh x (us ++ zs)
    fresh [] zs f g = fresh_of zs g
    fresh (u ∷ us) zs f g = (f.0, fresh us zs f.1 g)

pub nil-Kept : (whole : List String) → Kept [] whole
nil-Kept whole = record { inside = λ a i. absurd i; apart = λ d. tt }

pub Kept-append : (xs ys us vs : List String) → Kept xs us → Kept ys vs → Kept (xs ++ ys) (us ++ vs)
Kept-append xs ys us vs k l = record {
  inside = λ a i. elim (In-append_cases a xs ys i) [
    | inl x ↦ In-append_left a us vs (k.inside a x)
    | inr y ↦ In-append_right a us vs (l.inside a y)
  ];
  apart = λ d.
      disjoint-Distinct xs ys (k.apart (Distinct-append_left us vs d))
        (l.apart (Distinct-append_right us vs d))
        (λ a b i j. Distinct-append_ne a b us vs d (k.inside a i) (l.inside b j));
}

pub Kept-left : (xs us vs : List String) → Kept xs us → Kept xs (us ++ vs)
Kept-left xs us vs k = record {
  inside = λ a i. In-append_left a us vs (k.inside a i);
  apart = λ d. k.apart (Distinct-append_left us vs d);
}

pub cons-Kept : (a : String) (xs us : List String) → Kept xs us → Kept (a ∷ xs) (a ∷ us)
cons-Kept a xs us k =
    Kept-append (a ∷ []) xs (a ∷ []) us (record { inside = λ b i. i; apart = λ d. d }) k
