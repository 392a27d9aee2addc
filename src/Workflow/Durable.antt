-- ===== src/Workflow/Durable.antt =====
-- What the store holds when executeFrames returns.
use lebro.Common.{
  ℕ, ◌+◌, ◌-◌, ◌<◌, ◌≤◌, append-nil, ◌≡◌, ◌≢◌, refl, ap, ◌∙◌, true, false, Option, none, some, List,
  [], ◌∷◌, ◌++◌, arith,
}
use lebro.Workflow.Model.{SuspendSignal, emit, step_started, RunStatus, suspended}
use lebro.Workflow.Loop.Keeps.{loop-Keeps, begun}
use lebro.Workflow.Tree.{
  StepInfo, CompiledStep, task, sleep, mapping, looping, branching, Steps, steps_weight, cons, Wake,
  sleep_for, sleep_until,
}
use lebro.Workflow.State.{
  Engine, RunState, RunRecord, Snapshot, suspend_snapshot, last_snapshot, last_snapshot-append,
  suspends, suspends-append,
}
use lebro.Workflow.Frames.{
  next, enter, leave, Ended, SuspendResult, retry_step, visit, finish, advance_top, Outcome,
  execute_frames,
}
use lebro.Workflow.Retry.{resolve_retry_policy}
use lebro.Workflow.Retry.Bounds.{retry_suspended_id}
use lebro.Workflow.Resume.Correct.{IsAtStep, stop_id, IsValidTree, resume_frames_correct}
use lebro.Workflow.Resume.{resume_frames}
use lebro.Workflow.Frames.Rule.{execute_frames_rule}

abbrev pub status_of : Option RunRecord → Option RunStatus
status_of none = none
status_of (some r) = some r.status

module _ (eng : Engine) (bound : eng.bound ≡ true) where
  -- The run record's status is the returned one, if the last write went through.
  abbrev StatusAgrees : Ended → RunState → Type 0
  StatusAgrees e st = eng.save_fails (st.db.saves - 1) ≡ false → status_of st.db.run ≡ some e.status

  leave-StatusAgrees :
      (s : CompiledStep) (st : RunState) (e : Ended) (st' : RunState)
      → visit eng s st ≡ leave e st'
      → StatusAgrees e st'
  unfolding visit
  leave-StatusAgrees (task i) st e st' h saved = ground arith
  leave-StatusAgrees (sleep i wake) st e st' h saved = ground arith
  leave-StatusAgrees (mapping i f) st e st' h saved = ground arith
  leave-StatusAgrees (looping i c ss) st e st' h saved =
      ground
        (arith, loop-Keeps eng (record { steps = ss; config = c }) i.id st.current (begun i st))
  leave-StatusAgrees (branching i bs d) st e st' h saved = ground arith

  finish-StatusAgrees : (st : RunState) → StatusAgrees (finish eng st).0 (finish eng st).1
  unfolding finish
  finish-StatusAgrees st saved = ground arith

  -- When the run is bound to a store and the executor's last write to it went through, the status
  -- of the durable run record is the status that the caller is given.
  pub durable_status :
      (n : ℕ) (fs : List Steps) (st : RunState) (o : Outcome)
      → execute_frames n eng fs st ≡ some o
      → eng.save_fails (o.state.db.saves - 1) ≡ false
      → status_of o.state.db.run ≡ some o.result.status
  durable_status n fs st o =
      execute_frames_rule {Keep = λ _. Unit} {Post = λ x. StatusAgrees x.result x.state} eng
        (record {
          on_next = λ s st st' k h. tt;
          on_enter = λ s st t st' k h. tt;
          on_leave = λ s rest fs st e st' k h. leave-StatusAgrees s st e st' h;
          on_finish = λ st k. finish-StatusAgrees st;
        })
        n fs st o tt

-- The snapshot of a suspension that the caller is told of as `r`.
abbrev pub told_snapshot : SuspendResult → Option ℕ → RunState → Snapshot
told_snapshot r wake st =
    suspend_snapshot r.step_id
      (record { contract = r.contract; payload = r.payload; wake_at = wake }) st

-- A suspended return: it stands at the step that it names, and its snapshot is the newest.
-- It is the only suspension stored since `init`, at a position beyond `start`.
pub record IsDurable (init : List Snapshot) (start : ℕ) (o : Outcome) : Type 0 where
  pub told : SuspendResult
  pub is_told : o.result.suspend ≡ some told
  pub at_step : IsAtStep o.frames
  pub names : told.step_id ≡ stop_id o.frames
  pub counted : told.step ≡ o.state.position
  pub earlier : List Snapshot
  pub wake : Option ℕ
  pub since : suspends earlier ≡ init
  pub later : start < o.state.position
  pub status : status_of o.state.db.run ≡ some suspended
  pub saved : o.state.db.snapshots ≡ earlier ++ told_snapshot told wake o.state ∷ []
  -- a sleep hands on its input
  pub carries : (at : ℕ) → wake ≡ some at → told.payload ≡ o.state.current

abbrev told_of : Option SuspendResult → SuspendResult
told_of none = record { step = 0; step_id = ""; contract = []; payload = [] }
told_of (some r) = r

abbrev wake_time : Engine → Wake → RunState → ℕ
wake_time eng (sleep_for d) st = eng.now (st.world.polls + 1) + d
wake_time eng (sleep_until t) st = t

-- The step that a suspended task is reported at is that task.
task_names :
    (eng : Engine) (i : StepInfo) (st : RunState) (e : Ended) (st' : RunState)
    → visit eng (task i) st ≡ leave e st'
    → e.status ≡ suspended
    → (told_of e.suspend).step_id ≡ i.id
unfolding visit
task_names eng i st e st' h sus =
    let r = told_of e.suspend in
    let signal : SuspendSignal = record {
      step_id = r.step_id;
      contract = r.contract;
      payload = r.payload;
    } in
    ground (
      arith,
      retry_suspended_id eng.env (st.position + 1) (retry_step i)
          (resolve_retry_policy i.retry eng.overrides i.id) st.current
          (emit (step_started (st.position + 1) i.id)
            (record st.world { polls = st.world.polls + 1 }))
          signal,
    )

-- Between rounds: the suspensions stored are those of the start, and the position is not less.
abbrev pub Unsuspended : List Snapshot → ℕ → RunState → Type 0
Unsuspended init start st = (suspends st.db.snapshots ≡ init) × (start ≤ st.position)

next-Unsuspended :
    (init : List Snapshot) (start : ℕ) (eng : Engine) (s : CompiledStep) (st st' : RunState)
    → Unsuspended init start st
    → visit eng s st ≡ next st'
    → Unsuspended init start st'
unfolding visit
next-Unsuspended init start eng (task i) st st' k h =
    (grind (arith, suspends-append, append-nil), ground arith)
next-Unsuspended init start eng (sleep i wake) st st' k h = (ground arith, ground arith)
next-Unsuspended init start eng (mapping i f) st st' k h =
    (grind (arith, suspends-append, append-nil), ground arith)
next-Unsuspended init start eng (looping i c ss) st st' k h =
    let loop = loop-Keeps eng (record { steps = ss; config = c }) i.id st.current (begun i st) in
    (grind (arith, suspends-append, append-nil, loop), ground (arith, loop))
next-Unsuspended init start eng (branching i bs d) st st' k h = (ground arith, ground arith)

enter-Unsuspended :
    (init : List Snapshot) (start : ℕ) (eng : Engine) (s : CompiledStep) (st : RunState) (t : Steps)
    (st' : RunState)
    → Unsuspended init start st
    → visit eng s st ≡ enter t st'
    → Unsuspended init start st'
unfolding visit
enter-Unsuspended init start eng (task i) st t st' k h = (ground arith, ground arith)
enter-Unsuspended init start eng (sleep i wake) st t st' k h = (ground arith, ground arith)
enter-Unsuspended init start eng (mapping i f) st t st' k h = (ground arith, ground arith)
enter-Unsuspended init start eng (looping i c ss) st t st' k h = (ground arith, ground arith)
enter-Unsuspended init start eng (branching i bs d) st t st' k h = (ground arith, ground arith)

leave-IsDurable :
    (init : List Snapshot) (start : ℕ) (eng : Engine) (bound : eng.bound ≡ true) (s : CompiledStep)
    (rest : Steps) (fs : List Steps) (st : RunState) (e : Ended) (st' : RunState)
    → Unsuspended init start st
    → visit eng s st ≡ leave e st'
    → e.status ≡ suspended
    → IsDurable init start (record { result = e; state = st'; frames = cons s rest ∷ fs })
unfolding visit
leave-IsDurable init start eng bound (task i) rest fs st e st' k h sus = record {
  told = told_of e.suspend;
  is_told = ground arith;
  at_step = tt;
  names = task_names eng i st e st' h sus;
  counted = ground arith;
  earlier = st.db.snapshots;
  wake = none;
  since = k.0;
  later = ground arith;
  status = ground arith;
  saved = ground (arith, task_names eng i st e st' h sus);
  carries = λ at q. absurd (ground (arith, q));
}
leave-IsDurable init start eng bound (sleep i wake) rest fs st e st' k h sus = record {
  told = told_of e.suspend;
  is_told = ground arith;
  at_step = tt;
  names = ground arith;
  counted = ground arith;
  earlier = st.db.snapshots;
  wake = some (wake_time eng wake st);
  since = k.0;
  later = ground arith;
  status = ground arith;
  saved = ground arith;
  carries = λ at q. ground arith;
}
leave-IsDurable init start eng bound (mapping i f) rest fs st e st' k h sus = ground arith
leave-IsDurable init start eng bound (looping i c ss) rest fs st e st' k h sus = ground arith
leave-IsDurable init start eng bound (branching i bs d) rest fs st e st' k h sus = ground arith

finish_not_suspended : (eng : Engine) (st : RunState) → (finish eng st).0.status ≢ suspended
unfolding finish
finish_not_suspended eng st h = ground arith

-- A run that is bound to a store and returns suspended has its newest snapshot at that suspension.
pub suspension-IsDurable :
    (eng : Engine)
    → eng.bound ≡ true
    → (n : ℕ) (fs : List Steps) (st : RunState) (o : Outcome) → execute_frames n eng fs st ≡ some o
    → o.result.status ≡ suspended
    → IsDurable (suspends st.db.snapshots) st.position o
suspension-IsDurable eng bound n fs st o =
    let init = suspends st.db.snapshots in
    let start = st.position in
    execute_frames_rule {Keep = Unsuspended init start}
      {Post = λ x. x.result.status ≡ suspended → IsDurable init start x} eng
      (record {
        on_next = λ s x x' k h. next-Unsuspended init start eng s x x' k h;
        on_enter = λ s x t x' k h. enter-Unsuspended init start eng s x t x' k h;
        on_leave =
            λ s rest fs x e x' k h. leave-IsDurable init start eng bound s rest fs x e x' k h;
        on_finish = λ x k h. absurd (finish_not_suspended eng x h);
      })
      n fs st o (refl, omega arith)

-- A run that was started from the top of a valid tree, bound to a store, and returns suspended can
-- be resumed from its newest snapshot alone: the snapshot's path and step ID rebuild the frames that
-- the executor had, advanced past the suspended step, and its outputs and position are those of the
-- run.
pub resume_from_snapshot :
    (n m : ℕ) (eng : Engine) (steps : Steps) (st : RunState) (o : Outcome)
    → eng.bound ≡ true
    → IsValidTree steps
    → st.path ≡ []
    → execute_frames n eng (steps ∷ []) st ≡ some o
    → o.result.status ≡ suspended
    → steps_weight steps < m
    → (snap : Snapshot) × (last_snapshot o.state.db.snapshots ≡ some snap)
      × (resume_frames m (steps ∷ []) snap.path snap.step_id ≡ some (some (advance_top o.frames)))
      × (snap.outputs ≡ o.state.completed)
      × (snap.step ≡ o.state.position)
resume_from_snapshot n m eng steps st o bound valid fresh run sus fuel =
    let d = suspension-IsDurable eng bound n (steps ∷ []) st o run sus in
    (
      told_snapshot d.told d.wake o.state,
      ap last_snapshot d.saved
          ∙ last_snapshot-append d.earlier (told_snapshot d.told d.wake o.state),
      rw d.names (resume_frames_correct n m eng steps st o valid fresh run d.at_step fuel),
      refl,
      refl,
    )
