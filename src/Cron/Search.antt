-- ===== src/Cron/Search.antt =====
-- The scan of Next against a search minute by minute.
use lebro.Common.{
  ℕ, zero, suc, ◌+◌, ◌-◌, ◌*◌, ◌/◌, ◌≤◌, ◌<◌, ◌≡◌, refl, sym, ap, ◌∙◌, Bool, true, false, ◌&&◌,
  Option, none, some, arith, ltb, ltb→lt, Bool-cases, inl, inr, if◌then◌else◌,
}
use mathlib.Core.Option.{map as map_option}
use mathlib.Core.Option.{some_inj}
use lebro.Cron.Time.{Calendar, IsCalendar}
use lebro.Cron.{
  CronSchedule, day_matches, skip, scan, search_limit, minute_length, next_within, next,
}

-- Every field of the schedule allows the minute `t`.
abbrev pub fires : Calendar → CronSchedule → ℕ → Bool
fires cal c t =
    c.month (cal.month t) && day_matches cal c t && c.hour (cal.hour t) && c.minute (cal.minute t)

-- The first of the `n` numbers from `t` on that passes the test.
unfoldable pub first_match : (ℕ → Bool) → ℕ → ℕ → Option ℕ
first_match test zero t = none
first_match test (suc n) t =
    let rest = first_match test n (t + 1) in if test t then some t else rest

first_match_hit :
    (test : ℕ → Bool) (n t : ℕ) → 0 < n → test t ≡ true → first_match test n t ≡ some t
unfolding first_match
first_match_hit test zero t h e = absurd (omega arith)
first_match_hit test (suc n) t h e = ground (arith, e)

skip_ahead :
    (test : ℕ → Bool) (n t u : ℕ)
    → t ≤ u
    → ((v : ℕ) → t ≤ v → v < u → test v ≡ false)
    → first_match test n t ≡ first_match test (n - (u - t)) u
unfolding first_match
skip_ahead test zero t u h fails =
    let e : 0 ≡ 0 - (u - t) = omega arith in ap (λ (m : ℕ). first_match test m u) e
skip_ahead test (suc n) t u h fails = elim (Bool-cases (ltb t u)) [
  | inl k ↦ further (λ a f. skip_ahead test n (t + 1) u a f) (ltb→lt t u k)
  | inr k ↦ same t u (ground (arith, k, h))
]
  where
    further :
        (t + 1 ≤ u
          → ((v : ℕ) → t + 1 ≤ v → v < u → test v ≡ false)
          → first_match test n (t + 1) ≡ first_match test (n - (u - (t + 1))) u)
        → t < u
        → first_match test (suc n) t ≡ first_match test (suc n - (u - t)) u
    further later k =
        ground (arith, fails t (omega arith) k)
        ∙ later (omega arith) (λ v a b. fails v (omega arith) b)
        ∙ ap (λ (m : ℕ). first_match test m u) (omega arith)

    same : (a b : ℕ) → a ≡ b → first_match test (suc n) a ≡ first_match test (suc n - (b - a)) b
    same a b e =
        let k : suc n ≡ suc n - (a - a) = omega arith in
        rw (← e) (ap (λ (m : ℕ). first_match test m a) k)

first_match_later : (test : ℕ → Bool) (n t u : ℕ) → first_match test n t ≡ some u → t ≤ u
unfolding first_match
first_match_later test zero t u e = ground (arith, e)
first_match_later test (suc n) t u e =
    let later : first_match test n (t + 1) ≡ some u → t + 1 ≤ u =
      first_match_later test n (t + 1) u in
    elim (Bool-cases (test t)) [
      | inl k ↦ ground (arith, e, k)
      | inr k ↦ (let l = later (ground (arith, e, k)) in omega arith)
    ]

minute_later : (after t u : ℕ) → after / minute_length + 1 ≤ t → t * minute_length ≡ u → after < u
minute_later after t u h e = omega arith

none_every : (d : ℕ) → ltb 0 d ≡ false → d ≡ 0
none_every d k = ground (arith, k)

interval_later : (d after u : ℕ) → ltb 0 d ≡ true → some (after + d) ≡ some u → after < u
interval_later d after u k e = ground (arith, e, k)

mapped_later :
    (test : ℕ → Bool) (n after u : ℕ)
    → map_option (λ t. t * minute_length) (first_match test n (after / minute_length + 1)) ≡ some u
    → after < u
mapped_later test n after u e = go (first_match test n (after / minute_length + 1)) refl e
  where
    go :
        (o : Option ℕ)
        → first_match test n (after / minute_length + 1) ≡ o
        → map_option (λ t. t * minute_length) o ≡ some u
        → after < u
    go none k e = ground (arith, e)
    go (some t) k e =
        minute_later after t u (first_match_later test n (after / minute_length + 1) t k)
          (some_inj.0 e)

-- Where the scan stays, every field allows the minute; what it passes over, some field forbids.
skip_none : (cal : Calendar) (c : CronSchedule) (t : ℕ) → skip cal c t ≡ none → fires cal c t ≡ true
unfolding skip
skip_none cal c t e = ground (arith, e)

module _ (cal : Calendar) (is_calendar : IsCalendar cal) (c : CronSchedule) where
  open is_calendar use {month_ends, same_month, day_ends, same_day, hour_ends, same_hour}

  skip_later : (t u : ℕ) → skip cal c t ≡ some u → t < u
  unfolding skip
  skip_later t u e = ground (arith, e, month_ends t, day_ends t, hour_ends t)

  skip_forbidden : (t u v : ℕ) → skip cal c t ≡ some u → t ≤ v → v < u → fires cal c v ≡ false
  unfolding skip day_matches
  skip_forbidden t u v e h k = ground (arith, e, same_month t v h, same_day t v h, same_hour t v h)

  scan_finds :
      (n limit t : ℕ)
      → limit - t < n
      → scan cal c n limit t ≡ some (first_match (fires cal c) (limit - t) t)
  unfolding scan first_match
  scan_finds zero limit t h = absurd (omega arith)
  scan_finds (suc n) limit t h = elim (Bool-cases (ltb t limit)) [
    | inl k ↦ go (λ u. scan_finds n limit u) (skip cal c t) refl (ltb→lt t limit k) k
    | inr k ↦ rw (scan, k) (ap (λ (m : ℕ). some (first_match (fires cal c) m t)) (none_left k))
  ]
    where
      none_left : ltb t limit ≡ false → 0 ≡ limit - t
      none_left k = ground (arith, k)

      go :
          ((u : ℕ)
            → limit - u < n
            → scan cal c n limit u ≡ some (first_match (fires cal c) (limit - u) u))
          → (s : Option ℕ) → skip cal c t ≡ s
          → t < limit
          → ltb t limit ≡ true
          → scan cal c (suc n) limit t ≡ some (first_match (fires cal c) (limit - t) t)
      go later none e k q =
          rw (scan, q, e)
            (ap (λ (o : Option ℕ). some o)
              (sym
                (first_match_hit (fires cal c) (limit - t) t (omega arith) (skip_none cal c t e))))
      go ih (some u) e k q =
          let later = skip_later t u e in
          rw (scan, q, e)
            (ih u (omega arith)
              ∙ ap (λ (o : Option ℕ). some o)
                  (sym (
                    skip_ahead (fires cal c) (limit - t) t u (omega arith)
                      (λ v a b. skip_forbidden t u v e a b)
                    ∙ ap (λ (m : ℕ). first_match (fires cal c) m u) (omega arith))))

  scan_found :
      (limit start : ℕ)
      → scan cal c (limit + 1) (start + limit) start ≡ some (first_match (fires cal c) limit start)
  scan_found limit start =
      scan_finds (limit + 1) (start + limit) start (omega arith)
      ∙ ap (λ (m : ℕ). some (first_match (fires cal c) m start)) (omega arith)

  next_within-first_match :
      (limit after : ℕ)
      → c.every ≡ 0
      → next_within limit cal c after
        ≡ map_option
            (λ t. t * minute_length)
            (first_match (fires cal c) limit (after / minute_length + 1))
  unfolding next_within
  next_within-first_match limit after e =
      let found = first_match (fires cal c) limit (after / minute_length + 1) in
      let no_interval : ltb 0 c.every ≡ false = ground (arith, e) in
      rw (next_within, no_interval, scan_found limit (after / minute_length + 1)) (answered found)
    where
      answered :
          (found : Option ℕ)
          → elim found [ none ↦ none | some t ↦ some (t * minute_length) ]
            ≡ map_option (λ t. t * minute_length) found
      answered none = refl
      answered (some t) = refl

  -- Next is the search minute by minute, as far as it goes: for a schedule that is no interval, it
  -- returns the first full minute after the reference, within the next four leap years, that every
  -- field of the schedule allows, and nothing if there is none; jumping over months, days and hours
  -- misses no minute and repeats none.
  pub next-first_match :
      (after : ℕ)
      → c.every ≡ 0
      → next cal c after
        ≡ map_option
            (λ t. t * minute_length)
            (first_match (fires cal c) search_limit (after / minute_length + 1))
  unfolding next
  next-first_match after e = next_within-first_match search_limit after e

  next_interval : (after : ℕ) → ltb 0 c.every ≡ true → next cal c after ≡ some (after + c.every)
  unfolding next next_within
  next_interval after k = rw (k) refl

  -- What Next returns lies behind the reference.
  pub next_later : (after u : ℕ) → next cal c after ≡ some u → after < u
  next_later after u e = elim (Bool-cases (ltb 0 c.every)) [
    | inl k ↦ interval_later c.every after u k (sym (next_interval after k) ∙ e)
    | inr k ↦
        mapped_later (fires cal c) search_limit after u
          (sym (next-first_match after (none_every c.every k)) ∙ e)
  ]
