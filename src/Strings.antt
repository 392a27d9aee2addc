-- ===== src/Strings.antt =====
-- What the code takes from the packages strings and strconv of Go, on the bytes of an ASCII text.
use lebro.Common.{
  ℕ, zero, suc, ◌+◌, ◌-◌, ◌*◌, ◌^◌, Bool, ◌&&◌, ◌||◌, Option, none, some, List, [], ◌∷◌, leb, ◌==◌,
  ℤ, pos, negsuc, if◌then◌else◌,
}

abbrev pub Text : Type 0
Text = List ℕ

-- strings.Cut at one byte: what stands before it, and what behind it if it is there.
unfoldable pub cut : ℕ → Text → Text × Option Text
cut sep [] = ([], none)
cut sep (c ∷ s) =
    let (before, after) = cut sep s in if c == sep then ([], some s) else (c ∷ before, after)

abbrev prepend : ℕ → List Text → List Text
prepend c [] = (c ∷ []) ∷ []
prepend c (part ∷ parts) = (c ∷ part) ∷ parts

-- strings.Split at one byte
unfoldable pub split : ℕ → Text → List Text
split sep [] = [] ∷ []
split sep (c ∷ s) = let parts = split sep s in if c == sep then [] ∷ parts else prepend c parts

unfoldable pub digits : ℕ → Text → Option ℕ
digits acc [] = some acc
digits acc (c ∷ s) =
    let rest = digits (acc * 10 + (c - b'0')) s in if leb b'0' c && leb c b'9' then rest else none

-- At least one digit, and at most `limit`.
unfoldable pub unsigned : ℕ → Text → Option ℕ
unfolding digits
unsigned limit [] = none
unsigned limit (c ∷ s) = elim (digits 0 (c ∷ s)) [
  | none ↦ none
  | some n ↦ if leb n limit then some n else none
]

abbrev negated : ℕ → ℤ
negated zero = pos 0
negated (suc n) = negsuc n

-- strconv.Atoi
unfoldable pub atoi : Text → Option ℤ
unfolding unsigned
atoi [] = none
atoi (c ∷ s) =
    if c == b'-'
    then elim (unsigned (2 ^ 63) s) [ none ↦ none | some n ↦ some (negated n) ]
    else if c == b'+'
    then elim (unsigned (2 ^ 63 - 1) s) [ none ↦ none | some n ↦ some (pos n) ]
    else elim (unsigned (2 ^ 63 - 1) (c ∷ s)) [ none ↦ none | some n ↦ some (pos n) ]

abbrev is_space : ℕ → Bool
is_space c = c == b' ' || leb 9 c && leb c 13

unfoldable pub trim_left : Text → Text
trim_left [] = []
trim_left (c ∷ s) = if is_space c then trim_left s else c ∷ s

unfoldable pub trim_right : Text → Text
trim_right [] = []
trim_right (c ∷ s) =
    let rest = trim_right s in
    elim rest [ [] ↦ if is_space c then [] else c ∷ [] | d ∷ ds ↦ c ∷ d ∷ ds ]

-- strings.TrimSpace
abbrev pub trim_space : Text → Text
trim_space s = trim_right (trim_left s)

abbrev add_field : Text → List Text → List Text
add_field [] fields = fields
add_field (c ∷ s) fields = (c ∷ s) ∷ fields

-- strings.Fields: the field that has begun, and the fields behind it.
unfoldable fields_from : Text → Text × List Text
fields_from [] = ([], [])
fields_from (c ∷ s) =
    let (field, rest) = fields_from s in
    if is_space c then ([], add_field field rest) else (c ∷ field, rest)

unfoldable pub fields : Text → List Text
unfolding fields_from
fields s = let (field, rest) = fields_from s in add_field field rest

-- strings.CutPrefix
unfoldable pub cut_prefix : Text → Text → Option Text
cut_prefix s [] = some s
cut_prefix [] (p ∷ ps) = none
cut_prefix (c ∷ s) (p ∷ ps) = let rest = cut_prefix s ps in if c == p then rest else none
