-- ===== src/Workflow/Lifecycle/Continue.antt =====
-- A suspended run goes on where it stopped.
use lebro.Common.{
  ℕ, ◌<◌, ◌≡◌, refl, ap, ◌∙◌, sym, subst, true, false, ◌==◌, Option, none, some, [], ◌∷◌, arith,
}
use lebro.Workflow.Model.{RawMessage, CompiledSchema, World, suspended, poll}
use lebro.Workflow.Tree.{Steps, steps_weight}
use lebro.Workflow.State.{
  Engine, RunState, RunRecord, Snapshot, last_snapshot, last_snapshot-append, suspends,
}
use lebro.Workflow.Frames.{Outcome, execute_frames, advance_top}
use lebro.Workflow.Resume.Correct.{stop_id, IsValidTree, resume_frames_correct}
use lebro.Workflow.Durable.{status_of, IsDurable, suspension-IsDurable, told_snapshot}
use lebro.Workflow.Lifecycle.{
  Call, Rejection, resumed, resuming, resume_state, meets_contract, contract_of, payload_of, wakes,
  has_run, is_suspended, check_run, load_suspend_snapshot, steps_suspend_schema, resume_checked,
  continue_from, resume, resume_wake,
}
use lebro.Workflow.Lifecycle.Newest.{SuspendedUpTo, load_finds}

-- The executor goes on behind the step of `o` on `input`, with the variables that it had.
abbrev pub goes_on : ℕ → Engine → Outcome → RawMessage → World → Option Outcome
goes_on n eng o input w = execute_frames n (resuming eng) (advance_top o.frames) (
    resume_state (advance_top o.frames)
      (record {
        step = o.state.position;
        step_id = stop_id o.frames;
        output = [];
        outputs = o.state.completed;
        suspend = none;
        path = o.state.path;
        sequence = 0;
      })
      input w o.state.db)

some_inj : {x y : Snapshot} → some x ≡ some y → x ≡ y
some_inj e = ground (arith, e)

run_of : (r : Option RunRecord) → status_of r ≡ some suspended → has_run r ≡ true
run_of none e = ground arith
run_of (some _) e = refl

suspended_of : (r : Option RunRecord) → status_of r ≡ some suspended → is_suspended r ≡ true
suspended_of none e = ground arith
suspended_of (some r) e = ground (arith, e)

-- What a call finds in order: the run is this workflow's, everything can be read, the caller may.
pub record IsOpen (call : Call) : Type 0 where
  pub readable : call.get_fails ≡ false
  pub listable : call.list_fails ≡ false
  pub ours : call.belongs ≡ true
  pub allowed : call.authorized ≡ true

module _ (n m : ℕ) (eng : Engine) (call : Call) (steps : Steps) (st : RunState) (o : Outcome)
    (w : World) (bound : eng.bound ≡ true) (is_open : IsOpen call) (valid : IsValidTree steps)
    (fresh : st.path ≡ []) (older : SuspendedUpTo st.position st.db.snapshots)
    (run : execute_frames n eng (steps ∷ []) st ≡ some o) (sus : o.result.status ≡ suspended)
    (alive : eng.env.context w.polls ≡ none) (fuel : steps_weight steps < m) where
  durable : IsDurable (suspends st.db.snapshots) st.position o
  durable = suspension-IsDurable eng bound n (steps ∷ []) st o run sus

  found :
      load_suspend_snapshot o.state.db.snapshots
      ≡ some (told_snapshot durable.told durable.wake o.state)
  found = load_finds (suspends st.db.snapshots) st.position o durable older

  found_run : has_run o.state.db.run ≡ true
  found_run = run_of o.state.db.run durable.status

  waits : is_suspended o.state.db.run ≡ true
  waits = suspended_of o.state.db.run durable.status

  checked : check_run eng call w o.state.db ≡ (none, (poll eng.env w).1)
  unfolding check_run
  checked = ground (arith, bound, alive, is_open.readable, is_open.ours, found_run, waits)

  continued :
      (input : RawMessage) (wake : Option ℕ)
      → continue_from m eng steps
          (told_snapshot durable.told wake o.state)
          input
          (poll eng.env w).1
          o.state.db
        ≡ resumed (goes_on m eng o input (poll eng.env w).1)
  unfolding continue_from
  continued input wake =
      rw
        (
          durable.names,
          continue_from,
          resume_frames_correct n m eng steps st o valid fresh run durable.at_step fuel,
        )
        refl

  schema_of :
      (schema : Option CompiledSchema)
      → steps_suspend_schema (stop_id o.frames) steps ≡ schema
      → steps_suspend_schema durable.told.step_id steps ≡ schema
  schema_of schema e = rw durable.names e

  known :
      (snap : Snapshot)
      → last_snapshot o.state.db.snapshots ≡ some snap
      → told_snapshot durable.told durable.wake o.state ≡ snap
  known snap last = some_inj (
      sym (last_snapshot-append durable.earlier (told_snapshot durable.told durable.wake o.state))
      ∙ ap last_snapshot (sym durable.saved)
      ∙ last)

-- A run that suspended for input, in a valid tree that was started from the top, is resumed where it
-- stopped: when the newest stored snapshot names no wake-up instant, the suspending step's schema
-- accepts the input, the input equals a published contract, the store can be read, the run is this
-- workflow's, the policy allows it and the context is alive, then Resume announces the resumption
-- and lets the executor go on behind the step, on the input, with the outputs, path and position
-- that the run had; no snapshot stored earlier in the run misleads it.
pub resume_continues :
    (n m : ℕ) (eng : Engine) (call : Call) (steps : Steps) (st : RunState) (o : Outcome) (w : World)
    (snap : Snapshot) (schema : CompiledSchema) (input : RawMessage)
    → eng.bound ≡ true
    → IsOpen call
    → IsValidTree steps
    → st.path ≡ []
    → SuspendedUpTo st.position st.db.snapshots
    → execute_frames n eng (steps ∷ []) st ≡ some o
    → o.result.status ≡ suspended
    → eng.env.context w.polls ≡ none
    → steps_weight steps < m
    → last_snapshot o.state.db.snapshots ≡ some snap
    → wakes snap ≡ none
    → steps_suspend_schema (stop_id o.frames) steps ≡ some schema
    → schema input ≡ true
    → meets_contract call input (contract_of snap) ≡ true
    → resume m eng call steps input w o.state.db
      ≡ resumed (goes_on m eng o input (poll eng.env w).1)
unfolding resume resume_checked
resume_continues n m eng call steps st o w snap schema input bound op valid fresh older run sus
      alive fuel last asleep has accepted met =
    let d = durable n m eng call steps st o w bound op valid fresh older run sus alive fuel in
    let check = checked n m eng call steps st o w bound op valid fresh older run sus alive fuel in
    let verdict = ap (λ (p : Option Rejection × World). p.0) check in
    let polled = ap (λ (p : Option Rejection × World). p.1) check in
    let known_snap =
      known n m eng call steps st o w bound op valid fresh older run sus alive fuel snap last in
    let loaded =
      found n m eng call steps st o w bound op valid fresh older run sus alive fuel
      ∙ ap (λ (s : Snapshot). some s) known_snap in
    let behind =
      subst
        (λ (s : Snapshot).
          continue_from m eng steps s input (poll eng.env w).1 o.state.db
          ≡ resumed (goes_on m eng o input (poll eng.env w).1))
        known_snap
        (continued n m eng call steps st o w bound op valid fresh older run sus alive fuel input
          d.wake) in
    let named =
      subst (λ (s : Snapshot). steps_suspend_schema s.step_id steps ≡ some schema) known_snap
        (schema_of n m eng call steps st o w bound op valid fresh older run sus alive fuel
          (some schema) has) in
    rw
      (
        resume, verdict, op.allowed, op.listable, loaded, resume_checked, asleep, named, accepted,
        met, polled,
      )
      behind

-- A run that sleeps, in a valid tree that was started from the top, is woken where it stopped: when
-- the newest stored snapshot names a wake-up instant, the store can be read, the run is this
-- workflow's, the policy allows it and the context is alive, then resumeWake with the token of that
-- position lets the executor go on behind the sleep, on the value that the run had at the sleep.
pub wake_continues :
    (n m : ℕ) (eng : Engine) (call : Call) (steps : Steps) (st : RunState) (o : Outcome) (w : World)
    (snap : Snapshot) (at : ℕ)
    → eng.bound ≡ true
    → IsOpen call
    → IsValidTree steps
    → st.path ≡ []
    → SuspendedUpTo st.position st.db.snapshots
    → execute_frames n eng (steps ∷ []) st ≡ some o
    → o.result.status ≡ suspended
    → eng.env.context w.polls ≡ none
    → steps_weight steps < m
    → last_snapshot o.state.db.snapshots ≡ some snap
    → wakes snap ≡ some at
    → resume_wake m eng call steps o.state.position w o.state.db
      ≡ resumed (goes_on m eng o o.state.current (poll eng.env w).1)
unfolding resume_wake
wake_continues n m eng call steps st o w snap at bound op valid fresh older run sus alive fuel last
      sleeps =
    let d = durable n m eng call steps st o w bound op valid fresh older run sus alive fuel in
    let check = checked n m eng call steps st o w bound op valid fresh older run sus alive fuel in
    let verdict = ap (λ (p : Option Rejection × World). p.0) check in
    let polled = ap (λ (p : Option Rejection × World). p.1) check in
    let known_snap =
      known n m eng call steps st o w bound op valid fresh older run sus alive fuel snap last in
    let loaded =
      found n m eng call steps st o w bound op valid fresh older run sus alive fuel
      ∙ ap (λ (s : Snapshot). some s) known_snap in
    let behind =
      subst
        (λ (s : Snapshot).
          continue_from m eng steps s (payload_of snap) (poll eng.env w).1 o.state.db
          ≡ resumed (goes_on m eng o (payload_of snap) (poll eng.env w).1))
        known_snap
        (continued n m eng call steps st o w bound op valid fresh older run sus alive fuel
          (payload_of snap) d.wake) in
    let asleep : d.wake ≡ some at = ap wakes known_snap ∙ sleeps in
    let handed : payload_of snap ≡ o.state.current =
      ap payload_of (sym known_snap) ∙ d.carries at asleep in
    let there : snap.step ≡ o.state.position = ap (λ (s : Snapshot). s.step) (sym known_snap) in
    let same : (snap.step == o.state.position) ≡ true = ground (arith, there) in
    rw (← handed)
      (rw (resume_wake, verdict, op.listable, loaded, sleeps, same, op.allowed, polled) behind)
