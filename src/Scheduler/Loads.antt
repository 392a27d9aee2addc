-- ===== src/Scheduler/Loads.antt =====
-- loadDue and Tick: internal/runtime/scheduler.go. A page is asked for with the context's answer in `errors`,
-- by its cursor.
use lebro.Common.{ℕ, zero, suc, ◌+◌, String, Option, none, some, List, [], ◌++◌, length, ℤ, pos}
use lebro.Schedules.{
  ScheduleRecord, ScheduleFilter, ScheduleStore, StoreError, Stored, fault, stored,
}
use lebro.Schedules.Pages.{list_schedules}
use lebro.Scheduler.{Packages, State, Surroundings, TickResult, not_loaded, tick_cancelled, Fire}
use lebro.Scheduler.Ticks.{fire_all}

-- loadDue's filter
abbrev pub due_filter : ℕ → ScheduleFilter
due_filter now = record { workflow_id = ""; due_by = some now; namespace = ""; owner_id = "" }

-- The loop of loadDue, on fuel.
unfoldable pub load_pages :
    ℕ
    → (errors : Option ℕ → Option StoreError) → (now : ℕ) → Option ℕ
    → List ScheduleRecord
    → ScheduleStore
    → Stored (List ScheduleRecord)
unfolding list_schedules
load_pages zero errors now cursor schedules s = stored schedules
load_pages (suc n) errors now cursor schedules s =
    elim (list_schedules (errors cursor) (due_filter now) cursor (pos 0) s) [
      | fault e ↦ fault e
      | stored page ↦ elim page.next_cursor [
        | none ↦ stored (schedules ++ page.records)
        | some next ↦ load_pages n errors now (some next) (schedules ++ page.records) s
      ]
    ]

unfoldable pub load_due :
    (errors : Option ℕ → Option StoreError)
    → (now : ℕ) → ScheduleStore
    → Stored (List ScheduleRecord)
unfolding load_pages
load_due errors now s = load_pages (length s.schedules + 1) errors now none [] s

abbrev pub no_result : TickResult
no_result = record { fired = 0; skipped = 0; missed = 0; executions = [] }

-- Tick; `cancelled` is ctx.Err() at its start.
unfoldable pub tick :
    Packages
    → ℤ
    → (cancelled : Option String) → (errors : Option ℕ → Option StoreError)
    → (ScheduleRecord → Surroundings)
    → ℕ
    → State
    → Fire
unfolding load_due fire_all
tick os catch_up (some e) errors around now s = record {
  state = s;
  result = no_result;
  error = some (tick_cancelled e);
}
tick os catch_up none errors around now s = elim (load_due errors now s.store) [
  | fault e ↦ record { state = s; result = no_result; error = some (not_loaded e) }
  | stored due ↦ fire_all os catch_up around now due s no_result
]
