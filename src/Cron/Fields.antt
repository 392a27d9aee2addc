-- ===== src/Cron/Fields.antt =====
-- The masks that parseCronField makes.
use lebro.Common.{
  ℕ, zero, suc, ◌+◌, ◌-◌, ◌*◌, ◌≤◌, ◌<◌, ◌≡◌, refl, ◌⊎◌, inl, inr, Bool, true, false, arith, ltb,
  leb, ◌==◌, Bool-cases,
}
use native.Mathlib.Nat.{zero-mul, suc-mul}
use lebro.Cron.{Mask, with_bit, add_steps}

-- `u` is one of lo, lo + step, ... up to hi.
abbrev pub Steps : ℕ → ℕ → ℕ → ℕ → Type 0
Steps lo hi step u = (k : ℕ) × (u ≡ lo + k * step) × (u ≤ hi)

pub add_steps_keeps :
    (n : ℕ) (mask : Mask) (v hi step u : ℕ) → mask u ≡ true → add_steps n mask v hi step u ≡ true
unfolding add_steps
add_steps_keeps zero mask v hi step u e = e
add_steps_keeps (suc n) mask v hi step u e =
    ground (arith, e, add_steps_keeps n (with_bit mask v) (v + step) hi step u)

bit_sound :
    (mask : Mask) (v hi step u : ℕ)
    → v ≤ hi
    → with_bit mask v u ≡ true
    → (mask u ≡ true) ⊎ Steps v hi step u
bit_sound mask v hi step u h e = elim (Bool-cases (u == v)) [
  | inl k ↦
      let same : u ≡ v = ground (arith, k) in
      inr (0, omega (arith, same, zero-mul step), omega (arith, same))
  | inr k ↦ inl (ground (arith, k, e))
]

later_step : (v hi step u : ℕ) → Steps (v + step) hi step u → Steps v hi step u
later_step v hi step u (k, e, b) = (suc k, omega (arith, e, suc-mul k step), b)

pub add_steps_sound :
    (n : ℕ) (mask : Mask) (v hi step u : ℕ)
    → add_steps n mask v hi step u ≡ true
    → (mask u ≡ true) ⊎ Steps v hi step u
unfolding add_steps
add_steps_sound zero mask v hi step u e = inl e
add_steps_sound (suc n) mask v hi step u e =
    go (add_steps_sound n (with_bit mask v) (v + step) hi step u) (leb v hi) (ltb (hi - v) step)
      refl refl
  where
    go :
        (add_steps n (with_bit mask v) (v + step) hi step u ≡ true
          → (with_bit mask v u ≡ true) ⊎ Steps (v + step) hi step u)
        → (reached last : Bool) → leb v hi ≡ reached
        → ltb (hi - v) step ≡ last
        → (mask u ≡ true) ⊎ Steps v hi step u
    go ih false last p q = inl (ground (arith, e, p))
    go ih true true p q = bit_sound mask v hi step u (ground (arith, p)) (ground (arith, e, p, q))
    go ih true false p q = elim (ih (ground (arith, e, p, q))) [
      | inl b ↦ bit_sound mask v hi step u (ground (arith, p)) b
      | inr s ↦ inr (later_step v hi step u s)
    ]

pub add_steps_complete :
    (n : ℕ) (mask : Mask) (v hi step u : ℕ)
    → 0 < step
    → hi - v < n
    → Steps v hi step u
    → add_steps n mask v hi step u ≡ true
unfolding add_steps
add_steps_complete zero mask v hi step u p h (k, e, b) = absurd (omega arith)
add_steps_complete (suc n) mask v hi step u p h (zero, e, b) =
    let same : u ≡ v = omega (arith, e, zero-mul step) in
    ground (
      arith,
      same,
      b,
      add_steps_keeps n (with_bit mask v) (v + step) hi step u (ground (arith, same)),
    )
add_steps_complete (suc n) mask v hi step u p h (suc k, e, b) =
    let further : u ≡ (v + step) + k * step = omega (arith, e, suc-mul k step) in
    let rest =
      add_steps_complete n (with_bit mask v) (v + step) hi step u p (omega (arith, further, b))
        (k, further, b) in
    let inside : v + step ≤ hi = omega (arith, further, b) in ground (arith, inside, rest)
