-- ===== src/Scheduler/Whole.antt =====
-- loadDue reads every due schedule, over all pages, and Tick accounts for each.
use lebro.Common.{
  ℕ, zero, suc, ◌+◌, ◌-◌, ◌≤◌, ◌<◌, ◌≡◌, refl, ap, ◌∙◌, true, false, Option, none, some, List, [],
  ◌++◌, length, take, arith, ltb, leb, leb→le, Bool-cases, inl, inr, append-nil,
}
use lebro.Schedules.{ScheduleRecord, ScheduleStore, StoreError, Stored, fault, stored}
use lebro.Schedules.Pages.{start_of, Page, page_of, listed}
use lebro.Schedules.Whole.{
  take_all, take_part, count_matching, matching_counts, count_matching-length,
}
use lebro.Scheduler.{Fire}
use lebro.Scheduler.Loads.{due_filter, load_pages, load_due}
use lebro.Scheduler.Persisted.{OnError}
use lebro.Scheduler.Once.{Balanced}

-- An error of some page, or the whole list.
abbrev pub LoadsAll :
    (Option ℕ → Option StoreError) → List ScheduleRecord → Stored (List ScheduleRecord) → Type 0
LoadsAll errors whole (fault e) = (cursor : Option ℕ) × (errors cursor ≡ some e)
LoadsAll errors whole (stored due) = due ≡ whole

-- What one page adds, and where the next one starts.
abbrev NextPage : List ScheduleRecord → ℕ → Page ScheduleRecord → Type 0
NextPage whole start page = elim page.next_cursor [
  | none ↦ take start whole ++ page.records ≡ whole
  | some next ↦
      (start < next) × (next < length whole) × (take start whole ++ page.records ≡ take next whole)
]

page_of-NextPage :
    (whole : List ScheduleRecord) (start : ℕ) → NextPage whole start (page_of whole start 100)
page_of-NextPage whole start = elim (Bool-cases (leb (length whole) start)) [
  | inl e ↦ rw (e) (append-nil (take start whole) ∙ take_all start whole (leb→le _ _ e))
  | inr e ↦ elim (Bool-cases (ltb 100 (length whole - start))) [
    | inl k ↦
        (let before_end : ltb (start + 100) (length whole) ≡ true = ground (arith, e, k) in
          rw (e, k, before_end)
            (omega arith, ground (arith, k), take_part start (start + 100) whole (omega arith)))
    | inr k ↦
        (let at_end : ltb (length whole) (length whole) ≡ false = ground arith in
          rw (e, k, at_end)
            (take_part start (length whole) whole (ground (arith, e))
              ∙ take_all (length whole) whole (omega arith)))
  ]
]

module _ (errors : Option ℕ → Option StoreError) (now : ℕ) (s : ScheduleStore) where
  abbrev due_schedules : List ScheduleRecord
  due_schedules = listed (due_filter now) s

  load_pages-LoadsAll :
      (n : ℕ) (cursor : Option ℕ) (schedules : List ScheduleRecord)
      → schedules ≡ take (start_of cursor) due_schedules
      → length due_schedules < n + start_of cursor
      → LoadsAll errors due_schedules (load_pages n errors now cursor schedules s)
  unfolding load_pages
  load_pages-LoadsAll zero cursor schedules e h =
      e ∙ take_all (start_of cursor) due_schedules (omega (arith, h))
  load_pages-LoadsAll (suc n) cursor schedules e h =
      asked (errors cursor) refl (λ next. load_pages-LoadsAll n (some next))
    where
      Rest : Type 0
      Rest =
          (next : ℕ) (more : List ScheduleRecord)
          → more ≡ take next due_schedules
          → length due_schedules < n + next
          → LoadsAll errors due_schedules (load_pages n errors now (some next) more s)

      page : Page ScheduleRecord
      page = page_of due_schedules (start_of cursor) 100

      turned :
          (next : Option ℕ)
          → page.next_cursor ≡ next
          → NextPage due_schedules
              (start_of cursor)
              (record { records = page.records; next_cursor = next })
          → Rest
          → LoadsAll errors due_schedules (elim next [
            | none ↦ stored (schedules ++ page.records)
            | some at ↦ load_pages n errors now (some at) (schedules ++ page.records) s
          ])
      turned none k p rest = ap (λ xs. xs ++ page.records) e ∙ p
      turned (some at) k (later, inside, p) rest =
          rest at (schedules ++ page.records) (ap (λ xs. xs ++ page.records) e ∙ p)
            (omega (arith, h, later))

      asked :
          (o : Option StoreError)
          → errors cursor ≡ o
          → Rest
          → LoadsAll errors due_schedules (load_pages (suc n) errors now cursor schedules s)
      asked (some x) k rest = rw (load_pages, k) (cursor, k)
      asked none k rest =
          rw (load_pages, k)
            (turned page.next_cursor refl (page_of-NextPage due_schedules (start_of cursor)) rest)

-- loadDue, on a store that does not change meanwhile: it ends, and unless the context gives an error for
-- some page, it returns every schedule that is due by now, in the order of the store's lists, once,
-- however many pages there are.
pub load_due-LoadsAll :
    (errors : Option ℕ → Option StoreError) (now : ℕ) (s : ScheduleStore)
    → LoadsAll errors (listed (due_filter now) s) (load_due errors now s)
unfolding load_due
load_due-LoadsAll errors now s =
    load_pages-LoadsAll errors now s (length s.schedules + 1) none [] refl (
      omega (
        arith,
        matching_counts (due_filter now) s.schedules,
        count_matching-length (due_filter now) s.schedules,
      ))

-- Every schedule in the store that is due is fired or skipped if there is no error, no more if there is one.
abbrev pub FiresDue : ℕ → ScheduleStore → Fire → Type 0
FiresDue now s f =
    Balanced f.result
    × OnError f.error
        (f.result.fired + f.result.skipped ≡ count_matching (due_filter now) s.schedules)
        (f.result.fired + f.result.skipped ≤ count_matching (due_filter now) s.schedules)
