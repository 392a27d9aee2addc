-- ===== src/Workflow/Lifecycle/Rejected.antt =====
-- What Resume and resumeWake require before a step runs, and what a rejected call leaves behind.
use lebro.Common.{ℕ, ◌≡◌, refl, Bool, true, false, Option, none, some, List, [], ◌∷◌, arith}
use lebro.Workflow.Model.{RawMessage, World, suspended}
use lebro.Workflow.Tree.{Steps}
use lebro.Workflow.State.{Engine, RunRecord, Snapshot, Db}
use lebro.Workflow.Durable.{status_of}
use lebro.Workflow.Resume.{resume_frames}
use lebro.Workflow.Lifecycle.{
  Call, Rejection, Resumed, rejected, resumed, unresolved, check_run, load_suspend_snapshot,
  is_suspended, resume_checked, continue_from, resume, resume_wake, payload_of,
}

-- What must hold when steps are run by a call: the run is this workflow's and stands suspended, the
-- policy allows the call, and a suspend snapshot is stored.
pub record Cleared (call : Call) (db : Db) : Type 0 where
  pub allowed : call.authorized ≡ true
  pub ours : call.belongs ≡ true
  pub waits : status_of db.run ≡ some suspended
  pub snapshot : Snapshot
  pub loaded : load_suspend_snapshot db.snapshots ≡ some snapshot

-- A call that is turned away has only looked at the context; one that is not was cleared.
abbrev pub OnlyWhenCleared : Call → World → Db → Resumed → Type 0
OnlyWhenCleared call w db (rejected _ w' db') =
    (db' ≡ db) × (w'.events ≡ w.events) × (w'.calls ≡ w.calls)
OnlyWhenCleared call w db (resumed _) = Cleared call db
OnlyWhenCleared call w db unresolved = Unit

status_suspended : (r : Option RunRecord) → is_suspended r ≡ true → status_of r ≡ some suspended
status_suspended none e = ground (arith, e)
status_suspended (some r) e = ground (arith, e)

-- What passes check_run.
check_run_passed :
    (eng : Engine) (call : Call) (w : World) (db : Db)
    → (check_run eng call w db).0 ≡ none
    → (call.belongs ≡ true) × (is_suspended db.run ≡ true)
unfolding check_run
check_run_passed eng call w db e = ground (arith, e)

check_run_quiet :
    (eng : Engine) (call : Call) (w : World) (db : Db)
    → ((check_run eng call w db).1.events ≡ w.events)
      × ((check_run eng call w db).1.calls ≡ w.calls)
unfolding check_run
check_run_quiet eng call w db = ground arith

module _ (n : ℕ) (eng : Engine) (call : Call) (steps : Steps) (w w₁ : World) (db : Db)
    (quiet : (w₁.events ≡ w.events) × (w₁.calls ≡ w.calls)) (cleared : Cleared call db) where
  continue_from-OnlyWhenCleared :
      (snap : Snapshot) (input : RawMessage)
      → OnlyWhenCleared call w db (continue_from n eng steps snap input w₁ db)
  unfolding continue_from
  continue_from-OnlyWhenCleared snap input =
      go (resume_frames n (steps ∷ []) snap.path snap.step_id) refl
    where
      go :
          (found : Option (Option (List Steps)))
          → resume_frames n (steps ∷ []) snap.path snap.step_id ≡ found
          → OnlyWhenCleared call w db (continue_from n eng steps snap input w₁ db)
      go none e = rw (continue_from, e) tt
      go (some none) e = rw (continue_from, e) (refl, quiet.0, quiet.1)
      go (some (some frames)) e = rw (continue_from, e) cleared

  resume_checked-OnlyWhenCleared :
      (snap : Snapshot) (input : RawMessage)
      → OnlyWhenCleared call w db (resume_checked n eng call steps snap input w₁ db)
  unfolding resume_checked
  resume_checked-OnlyWhenCleared snap input =
      ground (arith, continue_from-OnlyWhenCleared snap input, quiet)

module _ (n : ℕ) (eng : Engine) (call : Call) (steps : Steps) (w : World) (db : Db) where
  cleared :
      (snap : Snapshot)
      → load_suspend_snapshot db.snapshots ≡ some snap
      → (check_run eng call w db).0 ≡ none
      → call.authorized ≡ true
      → Cleared call db
  cleared snap loaded checked allowed =
      let (ours, waits) = check_run_passed eng call w db checked in
      record {
        allowed = allowed;
        ours = ours;
        waits = status_suspended db.run waits;
        snapshot = snap;
        loaded = loaded;
      }

  resume-OnlyWhenCleared :
      (input : RawMessage) (found : Option Snapshot) (verdict : Option Rejection) (allowed : Bool)
      → load_suspend_snapshot db.snapshots ≡ found
      → (check_run eng call w db).0 ≡ verdict
      → call.authorized ≡ allowed
      → OnlyWhenCleared call w db (resume n eng call steps input w db)
  unfolding resume
  resume-OnlyWhenCleared input found (some r) a e c p =
      rw (resume, c) (refl, (check_run_quiet eng call w db).0, (check_run_quiet eng call w db).1)
  resume-OnlyWhenCleared input found none false e c p =
      ground (arith, c, p, check_run_quiet eng call w db)
  resume-OnlyWhenCleared input none none true e c p =
      ground (arith, e, c, p, check_run_quiet eng call w db)
  resume-OnlyWhenCleared input (some snap) none true e c p = ground (
    arith,
    e,
    c,
    p,
    check_run_quiet eng call w db,
    resume_checked-OnlyWhenCleared n eng call steps w (check_run eng call w db).1 db
        (check_run_quiet eng call w db) (cleared snap e c p) snap input,
  )

  resume_wake-OnlyWhenCleared :
      (token : ℕ) (found : Option Snapshot) (verdict : Option Rejection) (allowed : Bool)
      → load_suspend_snapshot db.snapshots ≡ found
      → (check_run eng call w db).0 ≡ verdict
      → call.authorized ≡ allowed
      → OnlyWhenCleared call w db (resume_wake n eng call steps token w db)
  unfolding resume_wake
  resume_wake-OnlyWhenCleared token found (some r) a e c p =
      rw (resume_wake, c)
        (refl, (check_run_quiet eng call w db).0, (check_run_quiet eng call w db).1)
  resume_wake-OnlyWhenCleared token none none a e c p =
      ground (arith, e, c, p, check_run_quiet eng call w db)
  resume_wake-OnlyWhenCleared token (some snap) none false e c p =
      ground (arith, e, c, p, check_run_quiet eng call w db)
  resume_wake-OnlyWhenCleared token (some snap) none true e c p = ground (
    arith,
    e,
    c,
    p,
    check_run_quiet eng call w db,
    continue_from-OnlyWhenCleared n eng call steps w (check_run eng call w db).1 db
        (check_run_quiet eng call w db) (cleared snap e c p) snap (payload_of snap),
  )

-- Resume and resumeWake hand a run to the executor only when it is this workflow's, its stored
-- status is suspended, the policy allows the call and a suspend snapshot is stored; a call that they
-- reject has written nothing to the store, emitted no event and invoked no handler.
pub resume_guarded :
    (n : ℕ) (eng : Engine) (call : Call) (steps : Steps) (input : RawMessage) (token : ℕ)
    (w : World) (db : Db)
    → OnlyWhenCleared call w db (resume n eng call steps input w db)
      × OnlyWhenCleared call w db (resume_wake n eng call steps token w db)
resume_guarded n eng call steps input token w db = (
  resume-OnlyWhenCleared n eng call steps w db input (load_suspend_snapshot db.snapshots)
      (check_run eng call w db).0 call.authorized refl refl refl,
  resume_wake-OnlyWhenCleared n eng call steps w db token (load_suspend_snapshot db.snapshots)
      (check_run eng call w db).0 call.authorized refl refl refl,
)
