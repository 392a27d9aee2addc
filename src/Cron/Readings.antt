-- ===== src/Cron/Readings.antt =====
-- parse_part reads the parts of a field as they are written.
use lebro.Common.{
  bound, passed, ℕ, ◌≤◌, ◌<◌, ◌≡◌, ◌≢◌, ◌↔◌, refl, sym, ap, ◌∙◌, Bool, true, false, ◌||◌, subst,
  Option, none, some, [], ◌∷◌, ◌++◌, arith, ltb, ◌==◌, Bool-cases, inl, inr, ℤ, pos, negsuc,
  if◌then◌else◌,
}
use lebro.Cron.Spelled.{
  star_text, lacks, Value, Spans, whole, single, between, Spells, plain, stepped,
}
use lebro.Cron.{Part, is_star, cron_atoi, part_bounds, part_step, parse_part}
use lebro.Strings.{Text, cut, atoi}

-- What a cut leaves.
abbrev Cuts : ℕ → Text → Text × Option Text → Type 0
Cuts sep s (a, none) = (s ≡ a) × (lacks sep a ≡ true)
Cuts sep s (a, some b) = (s ≡ a ++ sep ∷ b) × (lacks sep a ≡ true)

cut-Cuts : (sep : ℕ) (s : Text) → Cuts sep s (cut sep s)
unfolding cut
cut-Cuts sep [] = (refl, refl)
cut-Cuts sep (c ∷ s) = elim (Bool-cases (c == sep)) [
  | inl e ↦ rw (cut, e) (ground (arith, e), refl)
  | inr e ↦ rw (cut, e) (go (cut sep s) (cut-Cuts sep s) e)
]
  where
    go :
        (r : Text × Option Text)
        → Cuts sep s r
        → (c == sep) ≡ false
        → Cuts sep (c ∷ s) (c ∷ r.0, r.1)
    go (a, none) (e, l) q = (ap (λ (t : Text). c ∷ t) e, ground (arith, l, q))
    go (a, some b) (e, l) q = (ap (λ (t : Text). c ∷ t) e, ground (arith, l, q))

cut_plain : (sep : ℕ) (s : Text) → lacks sep s ≡ true → cut sep s ≡ (s, none)
unfolding cut
cut_plain sep [] h = refl
cut_plain sep (c ∷ s) h = ground (arith, h, cut_plain sep s)

cut_at : (sep : ℕ) (a b : Text) → lacks sep a ≡ true → cut sep (a ++ sep ∷ b) ≡ (a, some b)
unfolding cut
cut_at sep [] b h = ground arith
cut_at sep (c ∷ a) b h = ground (arith, h, cut_at sep a b)

pub is_star_lem : (s : Text) → is_star s ≡ true → s ≡ star_text
is_star_lem [] e = ground (arith, e)
is_star_lem (c ∷ []) e = ground (arith, e)
is_star_lem (c ∷ d ∷ s) e = ground (arith, e)

pub not_star : (s : Text) → is_star s ≡ false → s ≢ star_text
not_star [] e q = ground (arith, q)
not_star (c ∷ s) e q = ground (arith, e, q)

cron_atoi-Value : (s : Text) (min max v : ℕ) → (cron_atoi s min max ≡ some v) ↔ Value min max s v
unfolding cron_atoi
cron_atoi-Value s min max v = go (atoi s)
  where
    go :
        (o : Option ℤ)
        → (elim o [
          | none ↦ none
          | some (negsuc _) ↦ none
          | some (pos w) ↦ if ltb w min || ltb max w then none else some w
        ]
            ≡ some v)
          ↔ ((o ≡ some (pos v)) × (min ≤ v) × (v ≤ max))
    go none = (λ e. absurd (ground (arith, e)), λ v. absurd (ground (arith, v.0)))
    go (some (negsuc n)) = (λ e. absurd (ground (arith, e)), λ v. absurd (ground (arith, v.0)))
    go (some (pos n)) =
        ((λ e. (ground (arith, e), ground (arith, e), ground (arith, e))), (λ v. ground (arith, v)))

spans_sound :
    (s : Text) (min max lo hi : ℕ) → part_bounds s min max ≡ some (lo, hi) → Spans min max s lo hi
unfolding part_bounds
spans_sound s min max lo hi e = go (is_star s) (cut b'-' s) refl refl (cut-Cuts b'-' s)
  where
    go :
        (star : Bool) (c : Text × Option Text)
        → is_star s ≡ star
        → cut b'-' s ≡ c
        → Cuts b'-' s c
        → Spans min max s lo hi
    go true c p q k = whole (is_star_lem s p) (ground (arith, e, p)) (ground (arith, e, p))
    go false (a, none) p q (same, l) =
        let v : cron_atoi a min max ≡ some lo = ground (arith, e, p, q) in
        single (subst (λ (t : Text). lacks b'-' t ≡ true) (sym same) l)
          (subst (λ (t : Text). Value min max t lo) (sym same) ((cron_atoi-Value a min max lo).0 v))
          (ground (arith, e, p, q))
    go false (a, some b) p q (same, l) =
        let v : cron_atoi a min max ≡ some lo = ground (arith, e, p, q) in
        let w : cron_atoi b min max ≡ some hi = ground (arith, e, p, q) in
        between a b same l ((cron_atoi-Value a min max lo).0 v) ((cron_atoi-Value b min max hi).0 w)

no_value : (s : Text) (v : ℕ) → is_star s ≡ true → atoi s ≢ some (pos v)
unfolding atoi
no_value s v e k =
    let q : atoi star_text ≡ some (pos v) = ap atoi (sym (is_star_lem s e)) ∙ k in ground (arith, q)

no_star : (a b : Text) → is_star (a ++ b'-' ∷ b) ≡ false
no_star [] [] = refl
no_star [] (d ∷ b) = refl
no_star (c ∷ []) b = refl
no_star (c ∷ d ∷ a) b = refl

spans_complete :
    (s : Text) (min max lo hi : ℕ) → Spans min max s lo hi → part_bounds s min max ≡ some (lo, hi)
unfolding part_bounds
spans_complete s min max lo hi (whole e a b) = rw (e, a, b) refl
spans_complete s min max lo hi (single l v same) = elim (Bool-cases (is_star s)) [
  | inl p ↦ absurd (no_value s lo p v.0)
  | inr p ↦ ground (arith, p, cut_plain b'-' s l, (cron_atoi-Value s min max lo).1 v, same)
]
spans_complete s min max lo hi (between a b e l v w) =
    subst (λ (t : Text). part_bounds t min max ≡ some (lo, hi)) (sym e)
      (ground (
        arith,
        no_star a b,
        cut_at b'-' a b l,
        (cron_atoi-Value a min max lo).1 v,
        (cron_atoi-Value b min max hi).1 w,
      ))

no_step : (n : ℕ) → part_step none ≡ some n → n ≡ 1
unfolding part_step
no_step n e = ground (arith, e)

one_step : part_step none ≡ some 1
unfolding part_step
one_step = refl

step_sound : (t : Text) (n : ℕ) → part_step (some t) ≡ some n → (atoi t ≡ some (pos n)) × (0 < n)
unfolding part_step
step_sound t n e = (ground (arith, e), ground (arith, e))

step_complete : (t : Text) (n : ℕ) → atoi t ≡ some (pos n) → 0 < n → part_step (some t) ≡ some n
unfolding part_step
step_complete t n e h = ground (arith, e, h)

pub parse_part-Spells :
    (s : Text) (min max : ℕ) (p : Part) → parse_part s min max ≡ some p → Spells min max s p
unfolding parse_part
parse_part-Spells s min max p e = go (cut b'/' s) (cut-Cuts b'/' s) e
  where
    go :
        (c : Text × Option Text)
        → Cuts b'/' s c
        → elim (part_bounds c.0 min max) [
          | none ↦ none
          | some (lo, hi) ↦ if ltb hi lo then none else elim (part_step c.1) [
            | none ↦ none
            | some n ↦ some (record { lo = lo; hi = hi; step = n })
          ]
        ]
          ≡ some p
        → Spells min max s p
    go (base, t) k e =
        let (range, q, e₁) = bound (part_bounds base min max) _ p e in
        let (ordered, e₂) = passed (ltb range.1 range.0) _ p e₁ in
        let (n, l, e₃) = bound (part_step t) _ p e₂ in
        let read : record { lo = range.0; hi = range.1; step = n } ≡ p = ground (arith, e₃) in
        subst (λ (x : Part). Spells min max s x) read
          (spelled base t k range.0 range.1 n (spans_sound base min max range.0 range.1 q)
            (ground (arith, ordered)) l)
      where
        spelled :
            (base : Text) (t : Option Text)
            → Cuts b'/' s (base, t)
            → (lo hi n : ℕ) → Spans min max base lo hi
            → lo ≤ hi
            → part_step t ≡ some n
            → Spells min max s (record { lo = lo; hi = hi; step = n })
        spelled base none (same, l) lo hi n spans h q =
            plain (subst (λ (x : Text). lacks b'/' x ≡ true) (sym same) l)
              (subst (λ (x : Text). Spans min max x lo hi) (sym same) spans) h (no_step n q)
        spelled base (some t) (same, l) lo hi n spans h q =
            let (v, positive) = step_sound t n q in stepped base t same l spans h v positive

parsed :
    (s : Text) (min max : ℕ) (p : Part) (base : Text) (t : Option Text)
    → cut b'/' s ≡ (base, t)
    → Spans min max base p.lo p.hi
    → p.lo ≤ p.hi
    → part_step t ≡ some p.step
    → parse_part s min max ≡ some p
unfolding parse_part
parsed s min max p base t c spans h e =
    ground (arith, c, spans_complete base min max p.lo p.hi spans, h, e)

pub Spells-parse_part :
    (s : Text) (min max : ℕ) (p : Part) → Spells min max s p → parse_part s min max ≡ some p
Spells-parse_part s min max p (plain l spans h one) =
    parsed s min max p s none (cut_plain b'/' s l) spans h
      (one_step ∙ ap (λ (n : ℕ). some n) (sym one))
Spells-parse_part s min max p (stepped base t e l spans h v positive) =
    parsed s min max p base (some t) (ap (λ (x : Text). cut b'/' x) e ∙ cut_at b'/' base t l) spans
      h (step_complete t p.step v positive)
