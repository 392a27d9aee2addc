-- ===== src/Common/Membership.antt =====
-- Membership and distinctness by recursion, which a proof can take apart.
use mathlib.Core.Path.{◌≡◌}
use mathlib.Core.Logic.{◌≢◌, ◌⊎◌, inl, inr}
use mathlib.Core.List.{List, [], ◌∷◌, ◌++◌}
use lebro.Common.Lists.{All}

module _ {A : Type 0} where
  abbrev pub In : A → List A → Type 0
  In a [] = ⊥
  In a (x ∷ xs) = (a ≡ x) ⊎ In a xs

  abbrev pub Fresh : A → List A → Type 0
  Fresh a = All (λ x. a ≢ x)

  abbrev pub Distinct : List A → Type 0
  Distinct [] = Unit
  Distinct (x ∷ xs) = Fresh x xs × Distinct xs

  pub In-append_left : (a : A) (xs ys : List A) → In a xs → In a (xs ++ ys)
  In-append_left a [] ys h = absurd h
  In-append_left a (x ∷ xs) ys (inl e) = inl e
  In-append_left a (x ∷ xs) ys (inr h) = inr (In-append_left a xs ys h)

  pub In-append_right : (a : A) (xs ys : List A) → In a ys → In a (xs ++ ys)
  In-append_right a [] ys h = h
  In-append_right a (x ∷ xs) ys h = inr (In-append_right a xs ys h)

  pub In-append_cases : (a : A) (xs ys : List A) → In a (xs ++ ys) → In a xs ⊎ In a ys
  In-append_cases a [] ys h = inr h
  In-append_cases a (x ∷ xs) ys (inl e) = inl (inl e)
  In-append_cases a (x ∷ xs) ys (inr h) = elim (In-append_cases a xs ys h) [
    | inl l ↦ inl (inr l)
    | inr r ↦ inr r
  ]

  pub Fresh-ne : (a b : A) (xs : List A) → Fresh a xs → In b xs → a ≢ b
  Fresh-ne a b [] f h = absurd h
  Fresh-ne a b (x ∷ xs) f (inl e) = λ p. f.0 (subst_right p e)
    where
      subst_right : a ≡ b → b ≡ x → a ≡ x
      subst_right p q = cc
  Fresh-ne a b (x ∷ xs) f (inr h) = Fresh-ne a b xs f.1 h

  pub Fresh-append_right : (a : A) (xs ys : List A) → Fresh a (xs ++ ys) → Fresh a ys
  Fresh-append_right a [] ys f = f
  Fresh-append_right a (x ∷ xs) ys f = Fresh-append_right a xs ys f.1

  Fresh-drop_middle : (a : A) (xs ys zs : List A) → Fresh a (xs ++ (ys ++ zs)) → Fresh a (xs ++ zs)
  Fresh-drop_middle a [] ys zs f = Fresh-append_right a ys zs f
  Fresh-drop_middle a (x ∷ xs) ys zs f = (f.0, Fresh-drop_middle a xs ys zs f.1)

  pub Distinct-append_right : (xs ys : List A) → Distinct (xs ++ ys) → Distinct ys
  Distinct-append_right [] ys d = d
  Distinct-append_right (x ∷ xs) ys d = Distinct-append_right xs ys d.1

  pub Distinct-append_left : (xs ys : List A) → Distinct (xs ++ ys) → Distinct xs
  Distinct-append_left [] ys d = tt
  Distinct-append_left (x ∷ xs) ys d = (fresh_left xs d.0, Distinct-append_left xs ys d.1)
    where
      fresh_left : (us : List A) → Fresh x (us ++ ys) → Fresh x us
      fresh_left [] f = tt
      fresh_left (u ∷ us) f = (f.0, fresh_left us f.1)

  pub Distinct-drop_middle : (xs ys zs : List A) → Distinct (xs ++ (ys ++ zs)) → Distinct (xs ++ zs)
  Distinct-drop_middle [] ys zs d = Distinct-append_right ys zs d
  Distinct-drop_middle (x ∷ xs) ys zs d =
      (Fresh-drop_middle x xs ys zs d.0, Distinct-drop_middle xs ys zs d.1)

  -- An element of the first part of a distinct list is none of the second.
  pub Distinct-append_ne :
      (a b : A) (xs ys : List A) → Distinct (xs ++ ys) → In a xs → In b ys → a ≢ b
  Distinct-append_ne a b [] ys d h k = absurd h
  Distinct-append_ne a b (x ∷ xs) ys d (inl e) k =
      λ p. Fresh-ne x b (xs ++ ys) d.0 (In-append_right b xs ys k) (joined e p)
    where
      joined : a ≡ x → a ≡ b → x ≡ b
      joined e p = cc
  Distinct-append_ne a b (x ∷ xs) ys d (inr h) k = Distinct-append_ne a b xs ys d.1 h k
