-- ===== src/Scheduler/Owned.antt =====
-- The missed executions of a schedule are its own.
use lebro.Common.{
  ℕ, zero, suc, ◌≡◌, refl, Bool, true, false, Option, none, some, List, [], ◌∷◌, ◌++◌, length, All,
  ltb, Bool-cases, inl, inr, ℤ, if◌then◌else◌,
}
use lebro.Cron.{CronSchedule, next}
use lebro.Schedules.{ScheduleRecord, ScheduleExecutionRecord}
use lebro.Scheduler.{Packages, new_execution, missed_execution, has_room, collect_missed}
use lebro.Scheduler.Ticks.{occurrences}

abbrev pub Own : ScheduleRecord → List ScheduleExecutionRecord → Type 0
Own schedule es = All (λ (e : ScheduleExecutionRecord). e.schedule_id ≡ schedule.id) es

Own-append :
    (schedule : ScheduleRecord) (es : List ScheduleExecutionRecord) (e : ScheduleExecutionRecord)
    → Own schedule es
    → e.schedule_id ≡ schedule.id
    → Own schedule (es ++ (e ∷ []))
Own-append schedule [] e own k = (k, tt)
Own-append schedule (x ∷ es) e own k = (own.0, Own-append schedule es e own.1 k)

module _ (os : Packages) (catch_up : ℤ) (schedule : ScheduleRecord) (now : ℕ)
    (compiled : CronSchedule) where
  grown-Own :
      (b : Bool) (backlog : List ScheduleExecutionRecord) (at : ℕ)
      → Own schedule backlog
      → Own schedule (if b then backlog ++ (missed_execution os schedule now at ∷ []) else backlog)
  unfolding new_execution
  grown-Own true backlog at own =
      Own-append schedule backlog (missed_execution os schedule now at) own refl
  grown-Own false backlog at own = own

  collect_missed-Own :
      (n latest : ℕ) (backlog : List ScheduleExecutionRecord)
      → Own schedule backlog
      → Own schedule (collect_missed n os catch_up schedule latest now compiled backlog).1
  unfolding collect_missed next
  collect_missed-Own zero latest backlog own = own
  collect_missed-Own (suc n) latest backlog own =
      go (next (os.calendar) compiled latest) refl (collect_missed-Own n)
    where
      go :
          (o : Option ℕ)
          → next (os.calendar) compiled latest ≡ o
          → ((at : ℕ) (b : List ScheduleExecutionRecord)
              → Own schedule b
              → Own schedule (collect_missed n os catch_up schedule at now compiled b).1)
          → Own schedule (collect_missed (suc n) os catch_up schedule latest now compiled backlog).1
      go none e ih = rw (collect_missed, e) own
      go (some at) e ih = elim (Bool-cases (ltb now at)) [
        | inl q ↦ rw (collect_missed, e, q) own
        | inr q ↦
            rw (collect_missed, e, q)
              (ih at
                (if has_room catch_up (length backlog)
                  then backlog ++ (missed_execution os schedule now latest ∷ [])
                  else backlog)
                (grown-Own (has_room catch_up (length backlog)) backlog latest own))
      ]

pub occurrences-Own :
    (os : Packages) (catch_up : ℤ) (now : ℕ) (schedule : ScheduleRecord)
    (compiled : Option CronSchedule)
    → Own schedule (occurrences os catch_up now schedule compiled).1
unfolding occurrences
occurrences-Own os catch_up now schedule none = tt
occurrences-Own os catch_up now schedule (some compiled) =
    collect_missed-Own os catch_up schedule now compiled _ _ [] tt
