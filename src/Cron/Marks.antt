-- ===== src/Cron/Marks.antt =====
-- parseCronField marks exactly what a field names.
use lebro.Common.{
  bound, ℕ, ◌+◌, ◌-◌, ◌*◌, ◌≤◌, ◌≡◌, refl, sym, subst, Bool-cases, ap, ◌∙◌, ◌⊎◌, ◌↔◌, inl, inr,
  Bool, true, false, Option, none, some, arith,
}
use lebro.Cron.{Mask, empty_mask, is_star, add_parts, range_mask, parse_cron_field}
use lebro.Strings.{Text, split}
use lebro.Cron.Spelled.{star_text, Names}
use lebro.Cron.Readings.{is_star_lem, not_star, parse_part-Spells, Spells-parse_part}
use lebro.Cron.Fields.{add_steps_sound, add_steps_complete}
use lebro.Cron.Parts.{Named, parse_part_lem, add_parts_sound, add_parts_complete}

-- The same by the parts as they are parsed.
abbrev Parses : Text → (min max u : ℕ) → Type 0
Parses field min max u =
    ((is_star field ≡ true) × (min ≤ u) × (u ≤ max))
    ⊎ ((is_star field ≡ false) × Named (split b',' field) min max u)

named_range :
    (field : Text) (min max u : ℕ) → min ≤ max → Parses field min max u → (min ≤ u) × (u ≤ max)
named_range field min max u h (inl n) = (n.1, n.2)
named_range field min max u h (inr (s, n)) =
    let range = parse_part_lem n.part min max n.parsed h n.is_parsed in
    let (k, e, b) = n.reached in (omega (arith, range.0, e), omega (arith, range.1, b))

all_steps : (min u : ℕ) → min ≤ u → u ≡ min + (u - min) * 1
all_steps min u h = omega arith

star_marks : (min max u : ℕ) → min ≤ max → (range_mask min max u ≡ true) ↔ ((min ≤ u) × (u ≤ max))
unfolding range_mask
star_marks min max u h = (
  λ e. elim (add_steps_sound (max + 1 - min) empty_mask min max 1 u e) [
    | inl b ↦ absurd (ground (arith, b))
    | inr (k, l, b) ↦ (omega (arith, l), b)
  ],
  λ r.
      add_steps_complete (max + 1 - min) empty_mask min max 1 u (omega arith) (omega arith)
        (u - min, all_steps min u r.0, r.1),
)

parsed_field : (a b : Mask × Bool) (u : ℕ) → some a ≡ some b → (a.0 u ≡ b.0 u) × (a.1 ≡ b.1)
parsed_field a b u e =
    let same = pair_inj a b e in
    (ap (λ (x : Mask × Bool). x.0 u) same, ap (λ (x : Mask × Bool). x.1) same)
  where
    pair_inj : (a b : Mask × Bool) → some a ≡ some b → a ≡ b
    pair_inj a b e = ap (λ (o : Option (Mask × Bool)). elim o [ none ↦ a | some x ↦ x ]) e

by_star :
    (field : Text) (min max u : ℕ)
    → is_star field ≡ true
    → Parses field min max u
    → (min ≤ u) × (u ≤ max)
by_star field min max u p (inl n) = (n.1, n.2)
by_star field min max u p (inr n) = absurd (ground (arith, p, n.0))

by_parts :
    (field : Text) (min max u : ℕ)
    → is_star field ≡ false
    → Parses field min max u
    → Named (split b',' field) min max u
by_parts field min max u p (inl n) = absurd (ground (arith, p, n.0))
by_parts field min max u p (inr n) = n.1

unstarred :
    (field : Text) (min max : ℕ) (r : Mask × Bool)
    → is_star field ≡ false
    → parse_cron_field field min max ≡ some r
    → elim (add_parts (split b',' field) min max empty_mask) [
      | none ↦ none
      | some mask ↦ some (mask, false)
    ]
      ≡ some r
unfolding parse_cron_field
unstarred field min max r p e = ground (arith, e, p)

field_marks :
    (field : Text) (min max : ℕ) (mask : Mask) (star : Bool) (u : ℕ)
    → min ≤ max
    → parse_cron_field field min max ≡ some (mask, star)
    → (named : Bool) → is_star field ≡ named
    → (star ≡ named) × ((mask u ≡ true) ↔ Parses field min max u)
unfolding parse_cron_field
field_marks field min max mask star u h e true p =
    let k = parsed_field (range_mask min max, true) (mask, star) u (ground (arith, e, p)) in
    let marks = star_marks min max u h in
    (
      sym k.1,
      (
        (λ b. inl (p, (marks.0 (k.0 ∙ b)).0, (marks.0 (k.0 ∙ b)).1)),
        (λ n. sym k.0 ∙ marks.1 (by_star field min max u p n)),
      ),
    )
field_marks field min max mask star u h e false p =
    let (filled, l, e₁) =
      bound (add_parts (split b',' field) min max empty_mask) _ (mask, star)
        (unstarred field min max (mask, star) p e) in
    let k = parsed_field (filled, false) (mask, star) u e₁ in
    (
      sym k.1,
      (
        (λ b. elim (add_parts_sound (split b',' field) min max empty_mask filled u l (k.0 ∙ b)) [
          | inl c ↦ absurd (ground (arith, c))
          | inr n ↦ inr (p, n)
        ]),
        (λ n.
            sym k.0
            ∙ add_parts_complete (split b',' field) min max empty_mask filled u h l
                (by_parts field min max u p n)),
      ),
    )

spelled_parse :
    (field : Text) (min max u : ℕ)
    → min ≤ max
    → Parses field min max u
    → Names field min max u × (min ≤ u) × (u ≤ max)
spelled_parse field min max u h (inl (e, a, b)) = (inl (is_star_lem field e, a, b), a, b)
spelled_parse field min max u h (inr (e, n)) =
    let range = named_range field min max u h (inr (e, n)) in
    (
      inr (
        not_star field e,
        record {
          part = n.part;
          listed = n.listed;
          read = n.parsed;
          spelled = parse_part-Spells n.part min max n.parsed n.is_parsed;
          reached = n.reached;
        },
      ),
      range.0,
      range.1,
    )

parsed_spelling : (field : Text) (min max u : ℕ) → Names field min max u → Parses field min max u
parsed_spelling field min max u (inl (e, a, b)) =
    inl (subst (λ (s : Text). is_star s ≡ true) (sym e) refl, a, b)
parsed_spelling field min max u (inr (e, n)) = elim (Bool-cases (is_star field)) [
  | inl p ↦ absurd (e (is_star_lem field p))
  | inr p ↦ inr (
    p,
    record {
      part = n.part;
      listed = n.listed;
      parsed = n.read;
      is_parsed = Spells-parse_part n.part min max n.read n.spelled;
      reached = n.reached;
    },
  )
]

-- A field that parseCronField accepts is marked as a wildcard exactly if it is "*", and its mask
-- has exactly the values that it names: with "*" the whole range of the field, else every value
-- that one of its parts between commas reaches from its start in its steps without passing its end.
-- A part is "*", a number or two numbers with "-" between them, which do not descend, and may have
-- "/" and a positive step behind it; a single number starts and ends at itself, and a step that is
-- not written is 1. All values lie in the range.
pub parse_cron_field-Names :
    (field : Text) (min max : ℕ) (mask : Mask) (star : Bool) (u : ℕ)
    → min ≤ max
    → parse_cron_field field min max ≡ some (mask, star)
    → ((star ≡ true) ↔ (field ≡ star_text))
      × ((mask u ≡ true) ↔ (Names field min max u × (min ≤ u) × (u ≤ max)))
parse_cron_field-Names field min max mask star u h e =
    let m = field_marks field min max mask star u h e (is_star field) refl in
    (
      (
        (λ s. is_star_lem field (sym m.0 ∙ s)),
        (λ s. m.0 ∙ subst (λ (t : Text). is_star t ≡ true) (sym s) refl),
      ),
      (
        (λ b. spelled_parse field min max u h (m.1.0 b)),
        (λ n. m.1.1 (parsed_spelling field min max u n.0)),
      ),
    )
