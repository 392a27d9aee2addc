-- ===== src/Schedules/Saved.antt =====
-- What is found in the store after a record has been saved.
use lebro.Common.{
  String, ◌≡◌, refl, false, Option, none, some, List, [], ◌∷◌, arith, eq_iff, str_eq,
}
use lebro.Schedules.{
  ScheduleRecord, ScheduleExecutionRecord, ScheduleStore, StoreError, transaction, Stored, fault,
  stored, Encoding, find_schedule, put_schedule, append_execution, save_schedule,
  save_schedule_execution,
}

pub find_schedule-put_schedule :
    (v : ScheduleRecord) (ss : List ScheduleRecord)
    → find_schedule v.id (put_schedule v ss) ≡ some v
unfolding find_schedule put_schedule
find_schedule-put_schedule v [] = ground (arith, eq_iff v.id v.id)
find_schedule-put_schedule v (s ∷ rest) =
    ground (arith, eq_iff v.id v.id, find_schedule-put_schedule v rest)

pub find_schedule_other :
    (id : String) (v : ScheduleRecord) (ss : List ScheduleRecord)
    → str_eq v.id id ≡ false
    → find_schedule id (put_schedule v ss) ≡ find_schedule id ss
unfolding find_schedule put_schedule
find_schedule_other id v [] e = ground (arith, e)
find_schedule_other id v (s ∷ rest) e =
    ground
      (arith, e, eq_iff s.id v.id, eq_iff v.id id, eq_iff s.id id, find_schedule_other id v rest e)

abbrev pub Saves : ScheduleRecord → ScheduleStore → ScheduleStore → Type 0
Saves v s s' = (s'.schedules ≡ put_schedule v s.schedules) × (s'.executions ≡ s.executions)

abbrev pub Logs : ScheduleExecutionRecord → ScheduleStore → ScheduleStore → Type 0
Logs v s s' = (s'.schedules ≡ s.schedules) × (s'.executions ≡ append_execution v s.executions)

pub save_schedule_lem :
    (enc : Encoding) (v : ScheduleRecord) (s s' : ScheduleStore)
    → save_schedule enc v s ≡ stored s'
    → Saves v s s'
unfolding save_schedule
save_schedule_lem enc v s s' e = ground (arith, e)

pub save_schedule_execution_lem :
    (enc : Encoding) (v : ScheduleExecutionRecord) (s s' : ScheduleStore)
    → save_schedule_execution enc v s ≡ stored s'
    → Logs v s s'
unfolding save_schedule_execution
save_schedule_execution_lem enc v s s' e = ground (arith, e)

-- A chain of two steps that is not at fault, taken apart.
pub both_stored :
    {A B : Type 0} (o : Stored A) (f : A → Stored B) (b : B)
    → elim o [ fault x ↦ fault x | stored a ↦ f a ] ≡ stored b
    → (a : A) × (o ≡ stored a) × (f a ≡ stored b)
both_stored (fault x) f b e = ground (arith, e)
both_stored (stored a) f b e = (a, refl, e)

-- A transaction commits what its callback made of the store, or leaves the store as it was.
abbrev pub Commits :
    Stored ScheduleStore → ScheduleStore → ScheduleStore × Option StoreError → Type 0
Commits o s (s', error) =
    (error ≡ none → o ≡ stored s') × ((e : StoreError) → error ≡ some e → s' ≡ s)

pub transaction-Commits :
    (late : Option StoreError) (body : ScheduleStore → Stored ScheduleStore) (s : ScheduleStore)
    → Commits (body s) s (transaction late body s)
unfolding transaction
transaction-Commits late body s = go (body s) late
  where
    go :
        (o : Stored ScheduleStore) (late : Option StoreError)
        → Commits o s (elim o [
          | fault e ↦ (s, some e)
          | stored s' ↦ elim late [ some e ↦ (s, some e) | none ↦ (s', none) ]
        ])
    go (fault e) late = (λ q. ground (arith, q), λ x q. refl)
    go (stored s') none = (λ q. refl, λ x q. ground (arith, q))
    go (stored s') (some e) = (λ q. ground (arith, q), λ x q. refl)
