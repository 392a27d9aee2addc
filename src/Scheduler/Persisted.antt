-- ===== src/Scheduler/Persisted.antt =====
-- persist writes a fire as a whole or not at all.
use lebro.Common.{
  ℕ, ◌+◌, String, ◌≡◌, refl, sym, ap, ◌∙◌, false, Option, none, some, List, [], ◌∷◌, ◌++◌, map,
  length, All, arith, eq_iff, str_eq, append-nil, append_assoc,
}
use lebro.Schedules.{
  ScheduleRecord, ScheduleExecutionRecord, ScheduleStore, StoreError, stored, find_schedule,
  append_execution, save_schedule_execution, save_schedule, transaction,
}
use lebro.Schedules.Saved.{
  find_schedule-put_schedule, find_schedule_other, save_schedule_lem, save_schedule_execution_lem,
  both_stored, transaction-Commits,
}
use lebro.Scheduler.{Packages, State, Surroundings, TickResult, TickError, Fire, stamp}
use lebro.Scheduler.Fires.{save_executions, save_fire, report, persist}

-- The records stand in the history of the schedule `id`, and nothing else of the store has changed.
abbrev pub Appends : String → List ScheduleExecutionRecord → ScheduleStore → ScheduleStore → Type 0
Appends id records s s' =
    (s'.executions id ≡ s.executions id ++ records)
    × ((other : String) → str_eq other id ≡ false → s'.executions other ≡ s.executions other)

logged-Appends :
    (id : String) (e : ScheduleExecutionRecord) (s s' : ScheduleStore)
    → e.schedule_id ≡ id
    → s'.executions ≡ append_execution e s.executions
    → Appends id (e ∷ []) s s'
logged-Appends id e s s' own q = (
  ap (λ (f : String → List ScheduleExecutionRecord). f id) q
      ∙ ground (arith, own, eq_iff id e.schedule_id),
  λ other k.
      (ap (λ (f : String → List ScheduleExecutionRecord). f other) q ∙ ground (arith, own, k)),
)

Appends-both :
    (id : String) (es fs : List ScheduleExecutionRecord) (s t u : ScheduleStore)
    → Appends id es s t
    → Appends id fs t u
    → Appends id (es ++ fs) s u
Appends-both id es fs s t u (a, b) (c, d) = (
  c ∙ ap (λ (xs : List ScheduleExecutionRecord). xs ++ fs) a ∙ append_assoc (s.executions id) es fs,
  λ other k. (d other k ∙ b other k),
)

save_executions_lem :
    (os : Packages) (id : String) (es : List ScheduleExecutionRecord) (s s' : ScheduleStore)
    → All (λ (e : ScheduleExecutionRecord). e.schedule_id ≡ id) es
    → save_executions os es s ≡ stored s'
    → (s'.schedules ≡ s.schedules) × Appends id es s s'
unfolding save_executions
save_executions_lem os id [] s s' own e =
    let same : s ≡ s' = ground (arith, e) in
    (
      ap (λ (t : ScheduleStore). t.schedules) (sym same),
      (
        ap (λ (t : ScheduleStore). t.executions id) (sym same) ∙ sym (append-nil (s.executions id)),
        λ other k. ap (λ (t : ScheduleStore). t.executions other) (sym same),
      ),
    )
save_executions_lem os id (x ∷ es) s s' (own, more) e =
    let (t, q, k) =
      both_stored (save_schedule_execution os.encoding x s) (save_executions os es) s' e in
    let (kept, logged) = save_schedule_execution_lem os.encoding x s t q in
    let (kept', appended) = save_executions_lem os id es t s' more k in
    (kept' ∙ kept, Appends-both id (x ∷ []) es s t s' (logged-Appends id x s t own logged) appended)

-- What the transaction leaves in the store.
abbrev pub Written :
    ScheduleRecord → List ScheduleExecutionRecord → ScheduleStore → ScheduleStore → Type 0
Written v records s s' =
    (find_schedule v.id s'.schedules ≡ some v)
    × ((other : String)
        → str_eq v.id other ≡ false
        → find_schedule other s'.schedules ≡ find_schedule other s.schedules)
    × Appends v.id records s s'

save_fire_lem :
    (os : Packages) (v : ScheduleRecord) (records : List ScheduleExecutionRecord)
    (s s' : ScheduleStore)
    → All (λ (e : ScheduleExecutionRecord). e.schedule_id ≡ v.id) records
    → save_fire os v records s ≡ stored s'
    → Written v records s s'
unfolding save_fire
save_fire_lem os v records s s' own e =
    let (t, q, k) = both_stored (save_executions os records s) (save_schedule os.encoding v) s' e in
    let (kept, (appended, others)) = save_executions_lem os v.id records s t own q in
    let (put, same) = save_schedule_lem os.encoding v t s' k in
    (
      ap (λ (ss : List ScheduleRecord). find_schedule v.id ss) put
          ∙ find_schedule-put_schedule v t.schedules,
      λ other d.
          (ap (λ (ss : List ScheduleRecord). find_schedule other ss) put
            ∙ find_schedule_other other v t.schedules d
            ∙ ap (λ (ss : List ScheduleRecord). find_schedule other ss) kept),
      (
        ap (λ (f : String → List ScheduleExecutionRecord). f v.id) same ∙ appended,
        λ other d.
            (ap (λ (f : String → List ScheduleExecutionRecord). f other) same ∙ others other d),
      ),
    )

-- The execution records of a fire, as they are written.
abbrev pub written :
    ScheduleRecord
    → ScheduleExecutionRecord
    → List ScheduleExecutionRecord
    → List ScheduleExecutionRecord
written v exec backlog = map (stamp v) backlog ++ (stamp v exec ∷ [])

stamped_own :
    (v : ScheduleRecord) (exec : ScheduleExecutionRecord) (backlog : List ScheduleExecutionRecord)
    → exec.schedule_id ≡ v.id
    → All (λ (e : ScheduleExecutionRecord). e.schedule_id ≡ v.id) backlog
    → All (λ (e : ScheduleExecutionRecord). e.schedule_id ≡ v.id) (written v exec backlog)
stamped_own v exec [] own _ = (own, tt)
stamped_own v exec (x ∷ xs) own (k, more) = (k, stamped_own v exec xs own more)

-- What holds of a step that has returned no error, and of one that has.
abbrev pub OnError : Option TickError → (done stopped : Type 0) → Type 0
OnError none done stopped = done
OnError (some _) done stopped = stopped

-- What persist leaves: a fire that is written as a whole, or an error and nothing written.
abbrev pub Persisted :
    ScheduleRecord → List ScheduleExecutionRecord → ℕ → State → TickResult → Fire → Type 0
Persisted v records backlog s r f =
    (f.state.inflight ≡ s.inflight)
    × OnError f.error
        (Written v records s.store f.state.store
          × (f.result.executions ≡ r.executions ++ records)
          × (f.result.missed ≡ r.missed + backlog)
          × (f.result.fired ≡ r.fired)
          × (f.result.skipped ≡ r.skipped))
        ((f.state.store ≡ s.store) × (f.result ≡ r))

report-Persisted :
    (v : ScheduleRecord) (records : List ScheduleExecutionRecord) (n : ℕ) (s : State)
    (r : TickResult) (o : ScheduleStore × Option StoreError)
    → (o.1 ≡ none → Written v records s.store o.0)
    → ((e : StoreError) → o.1 ≡ some e → o.0 ≡ s.store)
    → Persisted v records n s r (report n records s r o)
report-Persisted v records n s r (t, none) w k = (refl, (w refl, refl, refl, refl, refl))
report-Persisted v records n s r (t, some x) w k = (refl, (k x refl, refl))

-- persist writes the records of a fire and the schedule together or not at all. The records are those of
-- the schedule. If it returns no error, the schedule is stored as given, the missed records and the
-- execution behind them stand at the end of its history, each with the schedule's namespace and
-- owner, they are appended to the result of the tick, and its missed occurrences are counted; other
-- schedules and their histories are as before. If it returns one, the store and the result of the tick
-- are as before. The schedules in flight are the same in both cases.
pub persist-Persisted :
    (os : Packages) (w : Surroundings) (v : ScheduleRecord) (exec : ScheduleExecutionRecord)
    (backlog : List ScheduleExecutionRecord) (s : State) (r : TickResult)
    → exec.schedule_id ≡ v.id
    → All (λ (e : ScheduleExecutionRecord). e.schedule_id ≡ v.id) backlog
    → Persisted v (written v exec backlog) (length backlog) s r (persist os w v exec backlog s r)
unfolding persist
persist-Persisted os w v exec backlog s r own owns =
    let records = written v exec backlog in
    let body = save_fire os v records in
    let (commits, keeps) = transaction-Commits w.late body s.store in
    report-Persisted v records (length backlog) s r (transaction w.late body s.store)
      (λ e.
        save_fire_lem os v records s.store (transaction w.late body s.store).0
          (stamped_own v exec backlog own owns) (commits e))
      keeps
