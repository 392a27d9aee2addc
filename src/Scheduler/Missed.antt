-- ===== src/Scheduler/Missed.antt =====
-- collectMissed finds the latest occurrence that is due, and records those before it.
use lebro.Common.{
  ℕ, ◌-◌, ◌≤◌, ◌<◌, ◌≡◌, some, List, [], ◌∷◌, ◌++◌, map, length, take, ℤ, pos, negsuc,
  if◌then◌else◌,
}
use lebro.Cron.{CronSchedule, next}
use lebro.Cron.Time.{Calendar, IsCalendar}
use lebro.Schedules.{ScheduleRecord, ScheduleExecutionRecord}
use lebro.Scheduler.{Packages, missed_execution, has_room}
use lebro.Scheduler.Fires.{due_at}

-- The occurrences `earlier` from the first one on, each followed by the next, and `latest` behind them.
abbrev pub Linked :
    Calendar → CronSchedule → (first : ℕ) → (earlier : List ℕ) → (latest : ℕ) → Type 0
Linked cal c first [] latest = first ≡ latest
Linked cal c first (at ∷ earlier) latest =
    (first ≡ at) × ((n : ℕ) × (next cal c first ≡ some n) × Linked cal c n earlier latest)

-- As many occurrences as are recorded.
abbrev pub within : ℤ → List ℕ → List ℕ
within (pos limit) earlier = take limit earlier
within (negsuc _) earlier = []

-- What is left of the bound behind `n` records.
abbrev left : ℤ → ℕ → ℤ
left (pos limit) n = pos (limit - n)
left (negsuc k) n = negsuc k

module _ (os : Packages) (schedule : ScheduleRecord) (now : ℕ) where
  abbrev entry : ℕ → ScheduleExecutionRecord
  entry = missed_execution os schedule now

  abbrev recorded : ℤ → List ScheduleExecutionRecord → List ℕ → List ScheduleExecutionRecord
  recorded catch_up backlog earlier =
      backlog ++ map entry (within (left catch_up (length backlog)) earlier)

  abbrev grown : ℤ → List ScheduleExecutionRecord → ℕ → List ScheduleExecutionRecord
  grown catch_up backlog at =
      if has_room catch_up (length backlog) then backlog ++ (entry at ∷ []) else backlog

module _ (os : Packages) (is_calendar : IsCalendar (os.calendar)) (catch_up : ℤ)
    (schedule : ScheduleRecord) (now : ℕ) (compiled : CronSchedule) where
  abbrev Collected : ℕ → List ScheduleExecutionRecord → ℕ × List ScheduleExecutionRecord → Type 0
  Collected first backlog (latest, records) =
      (earlier : List ℕ) × Linked (os.calendar) compiled first earlier latest
      × (latest ≤ now)
      × ((at : ℕ) → next (os.calendar) compiled latest ≡ some at → now < at)
      × (records ≡ recorded os schedule now catch_up backlog earlier)

  -- The latest occurrence up to `now`, and the records of those before it.
  abbrev pub CaughtUp : ℕ × List ScheduleExecutionRecord → Type 0
  CaughtUp c =
      (earlier : List ℕ) × Linked (os.calendar) compiled (due_at schedule now) earlier c.0
      × (c.0 ≤ now)
      × ((at : ℕ) → next (os.calendar) compiled c.0 ≡ some at → now < at)
      × (c.1 ≡ map (missed_execution os schedule now) (within catch_up earlier))
