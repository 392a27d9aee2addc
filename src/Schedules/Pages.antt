-- ===== src/Schedules/Pages.antt =====
-- What lists and deletes schedules in the in-memory store: internal/runtime/memory_storage.go. The cursor of
-- a page is the number that its text shows, and `none` for the empty text. Where an operation asks a
-- context for its error, `cancelled` is the answer.
use Prim.Native.String.{compare}
use Prim.Native.Nat.{Ordering}
use lebro.Common.{
  ℕ, zero, suc, ◌+◌, ◌-◌, String, Bool, true, false, Option, none, some, List, [], ◌∷◌, ltb, leb,
  ◌==◌, length, take, drop, str_eq, ℤ, pos, negsuc, if◌then◌else◌,
}
use lebro.Schedules.{
  ScheduleRecord, ScheduleFilter, ScheduleStore, StoreError, not_found, invalid_page, Stored, fault,
  stored, find_schedule, schedule_matches_filter,
}

-- The order of a list: by CreatedAt, then by the ID.
abbrev pub comes_before : ScheduleRecord → ScheduleRecord → Bool
comes_before a b =
    if a.created_at == b.created_at
    then elim (compare a.id b.id) [ Ordering.lt ↦ true | _ ↦ false ]
    else ltb a.created_at b.created_at

unfoldable pub insert_schedule : ScheduleRecord → List ScheduleRecord → List ScheduleRecord
insert_schedule v [] = v ∷ []
insert_schedule v (s ∷ rest) =
    let behind = insert_schedule v rest in if comes_before s v then s ∷ behind else v ∷ s ∷ rest

-- sort.Slice, whose result the order determines, since no two IDs are the same
unfoldable pub sort_schedules : List ScheduleRecord → List ScheduleRecord
unfolding insert_schedule
sort_schedules [] = []
sort_schedules (s ∷ rest) = insert_schedule s (sort_schedules rest)

unfoldable pub matching : ScheduleFilter → List ScheduleRecord → List ScheduleRecord
matching filter [] = []
matching filter (s ∷ rest) =
    let behind = matching filter rest in
    if schedule_matches_filter s filter then s ∷ behind else behind

pub record Page (A : Type 0) : Type 0 where
  pub records : List A
  pub next_cursor : Option ℕ

-- The part of paginate behind its checks.
abbrev pub page_of : {A : Type 0} → List A → (start limit : ℕ) → Page A
page_of records start limit =
    if leb (length records) start
    then record { records = []; next_cursor = none }
    else (let end = if ltb limit (length records - start) then start + limit else length records in
        record {
          records = take (end - start) (drop start records);
          next_cursor = if ltb end (length records) then some end else none;
        })

abbrev pub start_of : Option ℕ → ℕ
start_of none = 0
start_of (some n) = n

unfoldable pub paginate : {A : Type 0} → List A → Option ℕ → ℤ → Stored (Page A)
paginate records cursor (pos zero) = stored (page_of records (start_of cursor) 100)
paginate records cursor (pos (suc n)) = stored (page_of records (start_of cursor) (suc n))
paginate records cursor (negsuc _) = fault invalid_page

abbrev pub listed : ScheduleFilter → ScheduleStore → List ScheduleRecord
listed filter s = matching filter (sort_schedules s.schedules)

-- listSchedules; `cancelled` is ctx.Err().
unfoldable pub list_schedules :
    (cancelled : Option StoreError)
    → ScheduleFilter
    → Option ℕ
    → ℤ
    → ScheduleStore
    → Stored (Page ScheduleRecord)
unfolding sort_schedules matching paginate
list_schedules (some e) filter cursor limit s = fault e
list_schedules none filter cursor limit s = paginate (listed filter s) cursor limit

unfoldable pub remove_schedule : String → List ScheduleRecord → List ScheduleRecord
remove_schedule id [] = []
remove_schedule id (s ∷ rest) =
    let behind = remove_schedule id rest in if str_eq s.id id then behind else s ∷ behind

unfoldable pub delete_schedule :
    (cancelled : Option StoreError) → String → ScheduleStore → Stored ScheduleStore
unfolding remove_schedule find_schedule
delete_schedule (some e) id s = fault e
delete_schedule none id s = elim (find_schedule id s.schedules) [
  | none ↦ fault not_found
  | some _ ↦ stored (record {
    schedules = remove_schedule id s.schedules;
    executions = λ other. (if str_eq other id then [] else s.executions other);
  })
]
