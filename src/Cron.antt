-- ===== src/Cron.antt =====
-- Cron schedules: internal/runtime/cron.go. A spec is the list of its bytes, all of them ASCII; a mask is
-- given by its bits. Calendar holds what the code takes from the time package, in UTC.
pub mod Time
pub mod Fields
pub mod Parts
pub mod Spelled
pub mod Readings
pub mod Marks
pub mod Search
pub mod Months
mod Tests
use lebro.Common.{
  ℕ, zero, suc, ◌+◌, ◌-◌, ◌*◌, ◌/◌, ◌^◌, Bool, true, false, not, ◌&&◌, ◌||◌, Option, none, some,
  List, [], ◌∷◌, ◌++◌, ltb, leb, ◌==◌, ℤ, pos, negsuc, if◌then◌else◌, ◌>>=◌,
}
use lebro.Strings.{Text, cut, split, atoi, trim_left, trim_right, trim_space, fields, cut_prefix}
use lebro.Cron.Time.{Calendar}

-- A uint64 by its bits.
abbrev pub Mask : Type 0
Mask = ℕ → Bool

abbrev pub empty_mask : Mask
empty_mask v = false

-- mask |= 1 << v, for v below 64
abbrev pub with_bit : Mask → ℕ → Mask
with_bit mask v u = u == v || mask u

-- CronSchedule; `every` is 0 but for an "@every" schedule.
pub record CronSchedule : Type 0 where
  pub spec : Text
  pub every : ℕ
  pub minute : Mask
  pub hour : Mask
  pub dom : Mask
  pub month : Mask
  pub dow : Mask
  pub dom_star : Bool
  pub dow_star : Bool

unfoldable pub cron_atoi : Text → (min max : ℕ) → Option ℕ
unfolding atoi
cron_atoi s min max = elim (atoi s) [
  | none ↦ none
  | some (negsuc _) ↦ none
  | some (pos v) ↦ if ltb v min || ltb max v then none else some v
]

abbrev pub is_star : Text → Bool
is_star (c ∷ []) = c == b'*'
is_star _ = false

-- The bounds of one part of a field, before its step.
unfoldable pub part_bounds : Text → (min max : ℕ) → Option (ℕ × ℕ)
unfolding cut cron_atoi
part_bounds spec min max =
    if is_star spec
    then some (min, max)
    else (let (start, end) = cut b'-' spec in
        elim (cron_atoi start min max) [
          | none ↦ none
          | some lo ↦ elim end [
            | none ↦ some (lo, lo)
            | some e ↦ elim (cron_atoi e min max) [ none ↦ none | some hi ↦ some (lo, hi) ]
          ]
        ])

unfoldable pub part_step : Option Text → Option ℕ
unfolding atoi
part_step none = some 1
part_step (some s) = elim (atoi s) [
  | none ↦ none
  | some (negsuc _) ↦ none
  | some (pos n) ↦ if ltb 0 n then some n else none
]

pub record Part : Type 0 where
  pub lo : ℕ
  pub hi : ℕ
  pub step : ℕ

unfoldable pub parse_part : Text → (min max : ℕ) → Option Part
unfolding cut part_bounds part_step
parse_part part min max =
    let (spec, step) = cut b'/' part in
    elim (part_bounds spec min max) [
      | none ↦ none
      | some (lo, hi) ↦ if ltb hi lo then none else elim (part_step step) [
        | none ↦ none
        | some n ↦ some (record { lo = lo; hi = hi; step = n })
      ]
    ]

-- The inner loop from `v`, on fuel.
unfoldable pub add_steps : ℕ → Mask → (v hi step : ℕ) → Mask
add_steps zero mask v hi step = mask
add_steps (suc n) mask v hi step =
    let mask' = with_bit mask v in
    let rest = add_steps n mask' (v + step) hi step in
    if not (leb v hi) then mask else if ltb (hi - v) step then mask' else rest

unfoldable pub add_parts : List Text → (min max : ℕ) → Mask → Option Mask
unfolding parse_part add_steps
add_parts [] min max mask = some mask
add_parts (part ∷ parts) min max mask = elim (parse_part part min max) [
  | none ↦ none
  | some p ↦ add_parts parts min max (add_steps (p.hi - p.lo + 1) mask p.lo p.hi p.step)
]

unfoldable pub range_mask : (min max : ℕ) → Mask
unfolding add_steps
range_mask min max = add_steps (max + 1 - min) empty_mask min max 1

unfoldable pub parse_cron_field : Text → (min max : ℕ) → Option (Mask × Bool)
unfolding split add_parts range_mask
parse_cron_field field min max =
    if is_star field
    then some (range_mask min max, true)
    else elim (add_parts (split b',' field) min max empty_mask) [
      | none ↦ none
      | some mask ↦ some (mask, false)
    ]

-- "@every "
abbrev every_prefix : Text
every_prefix = b'@' ∷ b'e' ∷ b'v' ∷ b'e' ∷ b'r' ∷ b'y' ∷ b' ' ∷ []

unfoldable parse_fields : Text → List Text → Option CronSchedule
unfolding parse_cron_field
parse_fields spec (minute ∷ hour ∷ dom ∷ month ∷ dow ∷ []) = do
  (minutes, _) ← parse_cron_field minute 0 59
  (hours, _) ← parse_cron_field hour 0 23
  (days, dom_star) ← parse_cron_field dom 1 31
  (months, _) ← parse_cron_field month 1 12
  (weekdays, dow_star) ← parse_cron_field dow 0 6
  some (record {
    spec = spec;
    every = 0;
    minute = minutes;
    hour = hours;
    dom = days;
    month = months;
    dow = weekdays;
    dom_star = dom_star;
    dow_star = dow_star;
  })
parse_fields _ _ = none

-- A schedule by an interval.
abbrev pub interval : Text → ℕ → CronSchedule
interval spec d = record {
  spec = spec;
  every = d;
  minute = empty_mask;
  hour = empty_mask;
  dom = empty_mask;
  month = empty_mask;
  dow = empty_mask;
  dom_star = false;
  dow_star = false;
}

-- ParseCronSpec, by time.ParseDuration in nanoseconds.
unfoldable pub parse_cron_spec : (Text → Option ℤ) → Text → Option CronSchedule
unfolding trim_left trim_right cut_prefix fields parse_fields
parse_cron_spec parse_duration spec =
    let trimmed = trim_space spec in
    elim trimmed [
      | [] ↦ none
      | c ∷ s ↦ elim (cut_prefix (c ∷ s) every_prefix) [
        | some rest ↦ elim (parse_duration (trim_space rest)) [
          | none ↦ none
          | some (negsuc _) ↦ none
          | some (pos d) ↦ if ltb 0 d then some (interval (c ∷ s) d) else none
        ]
        | none ↦ parse_fields (c ∷ s) (fields (c ∷ s))
      ]
    ]

unfoldable pub day_matches : Calendar → CronSchedule → ℕ → Bool
day_matches cal c t =
    let dom_hit = c.dom (cal.day t) in
    let dow_hit = c.dow (cal.weekday t) in
    if c.dom_star && c.dow_star
    then true
    else if c.dom_star
    then dow_hit
    else if c.dow_star
    then dom_hit
    else dom_hit || dow_hit

-- Where the scan goes on from the minute `t`: `none` if it ends there.
unfoldable pub skip : Calendar → CronSchedule → ℕ → Option ℕ
unfolding day_matches
skip cal c t =
    if not (c.month (cal.month t))
    then some (cal.next_month t)
    else if not (day_matches cal c t)
    then some (cal.next_day t)
    else if not (c.hour (cal.hour t))
    then some (cal.hour_start t + 60)
    else if not (c.minute (cal.minute t))
    then some (t + 1)
    else none

-- The scan on fuel: `none` when it runs out.
unfoldable pub scan : Calendar → CronSchedule → (fuel limit t : ℕ) → Option (Option ℕ)
scan cal c zero limit t = none
scan cal c (suc n) limit t =
    if not (ltb t limit)
    then some none
    else elim (skip cal c t) [ none ↦ some (some t) | some u ↦ scan cal c n limit u ]

-- Four leap years in minutes.
abbrev pub search_limit : ℕ
search_limit = 4 * 366 * 24 * 60

-- A minute in nanoseconds.
abbrev pub minute_length : ℕ
minute_length = 60 * 10 ^ 9

-- Next up to a limit of minutes, on instants in nanoseconds since the zero time. The scan goes over
-- full minutes, which are counted from there as well.
unfoldable pub next_within : ℕ → Calendar → CronSchedule → ℕ → Option ℕ
unfolding scan
next_within limit cal c after =
    if ltb 0 c.every
    then some (after + c.every)
    else (let start = after / minute_length + 1 in
        elim (scan cal c (limit + 1) (start + limit) start) [
          | none ↦ none
          | some none ↦ none
          | some (some t) ↦ some (t * minute_length)
        ])

-- Next
unfoldable pub next : Calendar → CronSchedule → ℕ → Option ℕ
next = next_within search_limit
