-- ===== src/Cron/Parts.antt =====
-- What the parts of a field name.
use lebro.Common.{
  bound, passed, ℕ, ◌+◌, ◌-◌, ◌≤◌, ◌<◌, ◌≡◌, refl, sym, subst, ap, ◌∙◌, ◌⊎◌, inl, inr, Bool, true,
  false, Option, none, some, List, [], ◌∷◌, In, arith, ltb,
}
use lebro.Cron.{
  Mask, Part, is_star, cron_atoi, part_bounds, part_step, parse_part, add_steps, add_parts,
}
use lebro.Strings.{Text, cut}
use lebro.Cron.Fields.{Steps, add_steps_keeps, add_steps_sound, add_steps_complete}

-- A part that is accepted lies in the field's range, and steps forward.
cron_atoi_range : (s : Text) (min max v : ℕ) → cron_atoi s min max ≡ some v → (min ≤ v) × (v ≤ max)
unfolding cron_atoi
cron_atoi_range s min max v e = (ground (arith, e), ground (arith, e))

part_bounds_range :
    (s : Text) (min max lo hi : ℕ)
    → min ≤ max
    → part_bounds s min max ≡ some (lo, hi)
    → (min ≤ lo) × (hi ≤ max)
unfolding part_bounds
part_bounds_range s min max lo hi h e = go (is_star s) (cut b'-' s) refl refl
  where
    go :
        (star : Bool) (c : Text × Option Text)
        → is_star s ≡ star
        → cut b'-' s ≡ c
        → (min ≤ lo) × (hi ≤ max)
    go true c p q = ground (arith, e, p)
    go false (start, none) p q = ground (arith, e, p, q, cron_atoi_range start min max lo)
    go false (start, some end) p q =
        ground (arith, e, p, q, cron_atoi_range start min max lo, cron_atoi_range end min max hi)

part_step_lem : (s : Option Text) (n : ℕ) → part_step s ≡ some n → 0 < n
unfolding part_step
part_step_lem none n e = ground (arith, e)
part_step_lem (some s) n e = ground (arith, e)

pub parse_part_lem :
    (s : Text) (min max : ℕ) (p : Part)
    → min ≤ max
    → parse_part s min max ≡ some p
    → (min ≤ p.lo) × (p.hi ≤ max) × (0 < p.step)
unfolding parse_part part_step
parse_part_lem s min max p h e =
    let (bounds, k, e₁) = bound (part_bounds (cut b'/' s).0 min max) _ p e in
    let (ordered, e₂) = passed (ltb bounds.1 bounds.0) _ p e₁ in
    let (n, l, e₃) = bound (part_step (cut b'/' s).1) _ p e₂ in
    let range = part_bounds_range (cut b'/' s).0 min max bounds.0 bounds.1 h k in
    let steps = part_step_lem (cut b'/' s).1 n l in
    (ground (arith, e₃, range), ground (arith, e₃, range), ground (arith, e₃, steps))

-- Some part of the field names the value `u`.
pub record Named (parts : List Text) (min max u : ℕ) : Type 0 where
  pub part : Text
  pub listed : In part parts
  pub parsed : Part
  pub is_parsed : parse_part part min max ≡ some parsed
  pub reached : Steps parsed.lo parsed.hi parsed.step u

some_inj : {p q : Part} → some p ≡ some q → p ≡ q
some_inj e = ground (arith, e)

pub add_parts_sound :
    (parts : List Text) (min max : ℕ) (mask mask' : Mask) (u : ℕ)
    → add_parts parts min max mask ≡ some mask'
    → mask' u ≡ true
    → (mask u ≡ true) ⊎ Named parts min max u
unfolding add_parts
add_parts_sound [] min max mask mask' u e b = inl (ground (arith, e, b))
add_parts_sound (part ∷ parts) min max mask mask' u e b =
    let (p, k, e₁) = bound (parse_part part min max) _ mask' e in
    let filled = add_steps (p.hi - p.lo + 1) mask p.lo p.hi p.step in
    elim (add_parts_sound parts min max filled mask' u e₁ b) [
      | inl c ↦ elim (add_steps_sound (p.hi - p.lo + 1) mask p.lo p.hi p.step u c) [
        | inl d ↦ inl d
        | inr s ↦
            inr (record { part = part; listed = inl refl; parsed = p; is_parsed = k; reached = s })
      ]
      | inr n ↦ inr (record {
        part = n.part;
        listed = inr n.listed;
        parsed = n.parsed;
        is_parsed = n.is_parsed;
        reached = n.reached;
      })
    ]

add_parts_keeps :
    (parts : List Text) (min max : ℕ) (mask mask' : Mask) (u : ℕ)
    → add_parts parts min max mask ≡ some mask'
    → mask u ≡ true
    → mask' u ≡ true
unfolding add_parts
add_parts_keeps [] min max mask mask' u e b = ground (arith, e, b)
add_parts_keeps (part ∷ parts) min max mask mask' u e b =
    let (p, k, e₁) = bound (parse_part part min max) _ mask' e in
    add_parts_keeps parts min max (add_steps (p.hi - p.lo + 1) mask p.lo p.hi p.step) mask' u e₁
      (add_steps_keeps (p.hi - p.lo + 1) mask p.lo p.hi p.step u b)

same_steps :
    (a b : Text) (min max : ℕ) (p q : Part) (u : ℕ)
    → a ≡ b
    → parse_part a min max ≡ some p
    → parse_part b min max ≡ some q
    → Steps q.lo q.hi q.step u
    → Steps p.lo p.hi p.step u
same_steps a b min max p q u e k l s =
    let same : q ≡ p = some_inj (sym l ∙ ap (λ (t : Text). parse_part t min max) (sym e) ∙ k) in
    subst (λ (r : Part). Steps r.lo r.hi r.step u) same s

pub add_parts_complete :
    (parts : List Text) (min max : ℕ) (mask mask' : Mask) (u : ℕ)
    → min ≤ max
    → add_parts parts min max mask ≡ some mask'
    → (n : Named parts min max u) → mask' u ≡ true
unfolding add_parts
add_parts_complete [] min max mask mask' u h e n = absurd n.listed
add_parts_complete (part ∷ parts) min max mask mask' u h e n =
    let (p, k, e₁) = bound (parse_part part min max) _ mask' e in
    let filled = add_steps (p.hi - p.lo + 1) mask p.lo p.hi p.step in
    elim n.listed [
      | inl same ↦ add_parts_keeps parts min max filled mask' u e₁ (
          add_steps_complete (p.hi - p.lo + 1) mask p.lo p.hi p.step u
            (parse_part_lem part min max p h k).2 (omega arith)
            (same_steps part n.part min max p n.parsed u (sym same) k n.is_parsed n.reached))
      | inr i ↦ add_parts_complete parts min max filled mask' u h e₁ (record {
        part = n.part;
        listed = i;
        parsed = n.parsed;
        is_parsed = n.is_parsed;
        reached = n.reached;
      })
    ]
