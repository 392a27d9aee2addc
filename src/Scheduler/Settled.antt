-- ===== src/Scheduler/Settled.antt =====
-- A fire that returns no error leaves its schedule not due, and is counted once.
use lebro.Common.{
  ℕ, suc, ◌+◌, ◌<◌, ◌≡◌, refl, ap, ◌∙◌, String, false, Option, none, some, List, [], ◌∷◌, ◌++◌, map,
  length, length-append, All, arith,
}
use lebro.Schedules.{
  ScheduleRecord, ScheduleExecutionRecord, find_schedule, schedule_matches_filter,
}
use lebro.Scheduler.{Packages, State, Surroundings, TickResult, TickError, Fire, stamp}
use lebro.Scheduler.Loads.{due_filter}
use lebro.Scheduler.Fires.{persist, count_fired, count_skipped}
use lebro.Scheduler.Persisted.{OnError, Written, written, persist-Persisted}

-- Due no more: not due at all, or after `now`.
abbrev pub FiresLater : ℕ → Option ℕ → Type 0
FiresLater now none = Unit
FiresLater now (some at) = now < at

not_due :
    (now : ℕ) (v : ScheduleRecord)
    → FiresLater now v.next_fire_at
    → schedule_matches_filter v (due_filter now) ≡ false
unfolding schedule_matches_filter
not_due now v h = go v.next_fire_at refl h
  where
    go :
        (next : Option ℕ)
        → v.next_fire_at ≡ next
        → FiresLater now next
        → schedule_matches_filter v (due_filter now) ≡ false
    go none e h = rw (e) refl
    go (some at) e h = rw (e) (ground (arith, h))

-- The schedule `id` is stored, and a load of the schedules due by `now` would not return it.
abbrev pub Settled : ℕ → String → State → Type 0
Settled now id s =
    (v : ScheduleRecord) × (find_schedule id s.store.schedules ≡ some v)
    × (schedule_matches_filter v (due_filter now) ≡ false)

-- One fire more has been counted, and as many executions as occurrences were missed besides.
abbrev pub CountsOne : TickResult → TickResult → Type 0
CountsOne r r' =
    (r'.fired + r'.skipped ≡ r.fired + r.skipped + 1)
    × (length r'.executions + r.missed ≡ length r.executions + r'.missed + 1)

-- A fire is done and counted, or has an error and is not.
abbrev pub FiresOnce : ℕ → String → TickResult → Fire → Type 0
FiresOnce now id r f =
    OnError f.error (Settled now id f.state × CountsOne r f.result) (f.result ≡ r)

-- The same before the fire itself is counted.
abbrev pub Uncounted : ℕ → String → TickResult → Fire → Type 0
Uncounted now id r f =
    OnError f.error
      (Settled now id f.state
        × (f.result.fired + f.result.skipped ≡ r.fired + r.skipped)
        × (length f.result.executions + r.missed ≡ length r.executions + f.result.missed + 1))
      (f.result ≡ r)

pub count_fired-FiresOnce :
    (now : ℕ) (id : String) (r : TickResult) (f : Fire)
    → Uncounted now id r f
    → FiresOnce now id r (count_fired f)
count_fired-FiresOnce now id r f = go f.error
  where
    go :
        (e : Option TickError)
        → Uncounted now id r (record f { error = e })
        → FiresOnce now id r (count_fired (record f { error = e }))
    go none (settled, one, more) = (settled, (omega (arith, one), more))
    go (some e) same = same

pub count_skipped-FiresOnce :
    (now : ℕ) (id : String) (r : TickResult) (f : Fire)
    → Uncounted now id r f
    → FiresOnce now id r (count_skipped f)
count_skipped-FiresOnce now id r f = go f.error
  where
    go :
        (e : Option TickError)
        → Uncounted now id r (record f { error = e })
        → FiresOnce now id r (count_skipped (record f { error = e }))
    go none (settled, one, more) = (settled, (omega (arith, one), more))
    go (some e) same = same

length-map-stamp :
    (v : ScheduleRecord) (es : List ScheduleExecutionRecord) → length (map (stamp v) es) ≡ length es
length-map-stamp v [] = refl
length-map-stamp v (e ∷ es) = ap (λ (n : ℕ). suc n) (length-map-stamp v es)

length-written :
    (v : ScheduleRecord) (exec : ScheduleExecutionRecord) (backlog : List ScheduleExecutionRecord)
    → length (written v exec backlog) ≡ length backlog + 1
length-written v exec backlog =
    length-append (map (stamp v) backlog) (stamp v exec ∷ [])
    ∙ ap (λ (n : ℕ). n + 1) (length-map-stamp v backlog)

pub persist_settles :
    (os : Packages) (w : Surroundings) (now : ℕ) (v : ScheduleRecord)
    (exec : ScheduleExecutionRecord) (backlog : List ScheduleExecutionRecord) (s : State)
    (r : TickResult)
    → exec.schedule_id ≡ v.id
    → All (λ (e : ScheduleExecutionRecord). e.schedule_id ≡ v.id) backlog
    → FiresLater now v.next_fire_at
    → Uncounted now v.id r (persist os w v exec backlog s r)
persist_settles os w now v exec backlog s r own owns later =
    go (persist os w v exec backlog s r).error
      (persist-Persisted os w v exec backlog s r own owns).1
  where
    f : Fire
    f = persist os w v exec backlog s r

    go :
        (e : Option TickError)
        → OnError e
            (Written v (written v exec backlog) s.store f.state.store
              × (f.result.executions ≡ r.executions ++ written v exec backlog)
              × (f.result.missed ≡ r.missed + length backlog)
              × (f.result.fired ≡ r.fired)
              × (f.result.skipped ≡ r.skipped))
            ((f.state.store ≡ s.store) × (f.result ≡ r))
        → Uncounted now v.id r (record f { error = e })
    go none (stored, logged, lost, fired, skipped) = (
      (v, stored.0, not_due now v later),
      omega (arith, fired, skipped),
      omega (
        arith,
        lost,
        ap (λ (es : List ScheduleExecutionRecord). length es) logged,
        length-append r.executions (written v exec backlog),
        length-written v exec backlog,
      ),
    )
    go (some e) (same, kept) = kept
