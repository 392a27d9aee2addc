-- ===== src/Cron/Spelled.antt =====
-- How a field is written, and what it names then.
use lebro.Common.{
  ℕ, ◌≤◌, ◌<◌, ◌≡◌, ◌≢◌, Bool, true, not, ◌&&◌, some, List, [], ◌∷◌, ◌++◌, ◌==◌, In, ◌⊎◌, pos,
}
use lebro.Cron.{Part}
use lebro.Strings.{Text, split, atoi}
use lebro.Cron.Fields.{Steps}

abbrev pub star_text : Text
star_text = b'*' ∷ []

abbrev pub lacks : ℕ → Text → Bool
lacks sep [] = true
lacks sep (c ∷ s) = not (c == sep) && lacks sep s

-- A decimal number, as strconv.Atoi reads it, in the range of the field.
abbrev pub Value : (min max : ℕ) → Text → ℕ → Type 0
Value min max s v = (atoi s ≡ some (pos v)) × (min ≤ v) × (v ≤ max)

-- A "*", a number, or two numbers with "-" between them, and the values from which and to which it goes.
pub data Spans (min max : ℕ) (s : Text) (lo hi : ℕ) : Type 0 where
  whole : s ≡ star_text → lo ≡ min → hi ≡ max → Spans min max s lo hi
  single : lacks b'-' s ≡ true → Value min max s lo → hi ≡ lo → Spans min max s lo hi
  between :
      (a b : Text)
      → s ≡ a ++ b'-' ∷ b
      → lacks b'-' a ≡ true
      → Value min max a lo
      → Value min max b hi
      → Spans min max s lo hi

-- One of those that does not end before it starts, with "/" and a positive step behind it or without.
pub data Spells (min max : ℕ) (s : Text) (p : Part) : Type 0 where
  plain :
      lacks b'/' s ≡ true
      → Spans min max s p.lo p.hi
      → p.lo ≤ p.hi
      → p.step ≡ 1
      → Spells min max s p
  stepped :
      (base t : Text)
      → s ≡ base ++ b'/' ∷ t
      → lacks b'/' base ≡ true
      → Spans min max base p.lo p.hi
      → p.lo ≤ p.hi
      → atoi t ≡ some (pos p.step)
      → 0 < p.step
      → Spells min max s p

-- Some part of the field names the value `u`: it is reached from the part's start in its steps.
pub record NamedBy (parts : List Text) (min max u : ℕ) : Type 0 where
  pub part : Text
  pub listed : In part parts
  pub read : Part
  pub spelled : Spells min max part read
  pub reached : Steps read.lo read.hi read.step u

-- What a field names: everything in its range if it is "*", else what its parts name, between commas.
abbrev pub Names : Text → (min max u : ℕ) → Type 0
Names field min max u =
    ((field ≡ star_text) × (min ≤ u) × (u ≤ max))
    ⊎ ((field ≢ star_text) × NamedBy (split b',' field) min max u)
