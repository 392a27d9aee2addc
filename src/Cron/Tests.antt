-- ===== src/Cron/Tests.antt =====
-- Specs and fire times on concrete data, in a calendar of months of thirty days.
use lebro.Common.{
  ◌+◌, ◌*◌, ◌/◌, ◌^◌, Bool, ◌↔◌, ◌≤◌, ◌≡◌, refl, true, false, Option, none, some, [], ◌∷◌, ℤ, arith,
}
use lebro.Strings.{Text}
use mathlib.Core.Option.{map as map_option}
use lebro.Cron.Months.{twelve_months, twelve_months-IsCalendar}
use lebro.Cron.Search.{fires, first_match, next-first_match}
use lebro.Cron.Spelled.{star_text, Names}
use lebro.Cron.Marks.{parse_cron_field-Names}
use lebro.Cron.{
  Mask, empty_mask, search_limit, minute_length, next_within, skip, CronSchedule, parse_cron_spec,
  parse_cron_field, interval, next,
}

-- "*/15 9-17 1,15 * 1"
abbrev office : Text
office =
    b'*' ∷ b'/' ∷ b'1' ∷ b'5' ∷ b' ' ∷ b'9' ∷ b'-' ∷ b'1' ∷ b'7' ∷ b' ' ∷ b'1' ∷ b',' ∷ b'1' ∷ b'5'
    ∷ b' ' ∷ b'*' ∷ b' ' ∷ b'1' ∷ []

abbrev or_interval : Option CronSchedule → CronSchedule
or_interval none = interval [] 0
or_interval (some c) = c

abbrev no_duration : Text → Option ℤ
no_duration t = none

abbrev schedule : CronSchedule
schedule = or_interval (parse_cron_spec no_duration office)

schedule_minute : schedule.minute 45 ≡ true
unfolding parse_cron_spec
schedule_minute = refl

schedule_every : schedule.every ≡ 0
unfolding parse_cron_spec
schedule_every = refl

-- From midnight of a first day of a month to its nine o'clock.
office_fire : next twelve_months schedule 0 ≡ some (540 * 60 * 10 ^ 9)
unfolding next parse_cron_spec next_within skip
office_fire = refl

next-first_match_example :
    next twelve_months schedule 0
    ≡ map_option
        (λ t. t * minute_length)
        (first_match (fires twelve_months schedule) search_limit (0 / minute_length + 1))
next-first_match_example =
    next-first_match twelve_months twelve_months-IsCalendar schedule 0 schedule_every

-- "9-17/4,20"
abbrev watches : Text
watches = b'9' ∷ b'-' ∷ b'1' ∷ b'7' ∷ b'/' ∷ b'4' ∷ b',' ∷ b'2' ∷ b'0' ∷ []

abbrev or_empty : Option (Mask × Bool) → Mask
or_empty none = empty_mask
or_empty (some (mask, _)) = mask

abbrev watch_hours : Mask
watch_hours = or_empty (parse_cron_field watches 0 23)

watches_parsed : parse_cron_field watches 0 23 ≡ some (watch_hours, false)
unfolding parse_cron_field
watches_parsed = refl

parse_cron_field-Names_example :
    ((false ≡ true) ↔ (watches ≡ star_text))
    × ((watch_hours 13 ≡ true) ↔ (Names watches 0 23 13 × (0 ≤ 13) × (13 ≤ 23)))
parse_cron_field-Names_example =
    parse_cron_field-Names watches 0 23 watch_hours false 13 (omega arith) watches_parsed
