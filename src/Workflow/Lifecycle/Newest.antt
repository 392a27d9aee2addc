-- ===== src/Workflow/Lifecycle/Newest.antt =====
-- loadSuspendSnapshot finds the snapshot of the latest suspension.
use lebro.Common.{
  ℕ, ◌≤◌, ◌<◌, ◌≡◌, refl, ap, ◌∙◌, Option, none, some, List, [], ◌∷◌, ◌++◌, All, arith,
}
use lebro.Workflow.State.{
  Snapshot, SuspendEnvelope, suspends, suspends-append, terminal_snapshot_sequence,
}
use lebro.Workflow.Frames.{Outcome}
use lebro.Workflow.Durable.{IsDurable, told_snapshot}
use lebro.Workflow.Lifecycle.{better, best_suspend, load_suspend_snapshot}

-- Only suspensions count.
best-suspends :
    (xs : List Snapshot) (best : Option Snapshot)
    → best_suspend best xs ≡ best_suspend best (suspends xs)
unfolding best_suspend
best-suspends [] best = refl
best-suspends (x ∷ xs) best = go (best-suspends xs) x.suspend refl
  where
    go :
        ((b : Option Snapshot) → best_suspend b xs ≡ best_suspend b (suspends xs))
        → (o : Option SuspendEnvelope) → x.suspend ≡ o
        → best_suspend best (x ∷ xs) ≡ best_suspend best (suspends (x ∷ xs))
    go later none e = ground (arith, e, later best)
    go later (some v) e = ground (arith, e, later (better best x))

abbrev Older : ℕ → Option Snapshot → Type 0
Older m none = Unit
Older m (some s) = s.sequence < m

better-Older :
    (m : ℕ) (best : Option Snapshot) (s : Snapshot)
    → Older m best
    → s.sequence < m
    → Older m (better best s)
better-Older m none s b h = ground arith
better-Older m (some t) s b h = ground arith

best-newest :
    (m : ℕ) (xs : List Snapshot) (c : Snapshot) (v : SuspendEnvelope) (best : Option Snapshot)
    → c.suspend ≡ some v
    → c.sequence ≡ m
    → Older m best
    → All (λ s. s.sequence < m) xs
    → best_suspend best (xs ++ c ∷ []) ≡ some c
unfolding best_suspend
best-newest m [] c v none e q o h = ground (arith, e)
best-newest m [] c v (some b) e q o h = ground (arith, e, q, o)
best-newest m (x ∷ xs) c v best e q o h =
    best-newest m xs c v (better best x) e q (better-Older m best x o h.0) h.1

-- The suspensions stored so far stand at positions up to `position`.
abbrev pub SuspendedUpTo : ℕ → List Snapshot → Type 0
SuspendedUpTo position snaps =
    All (λ s. s.sequence ≤ terminal_snapshot_sequence position) (suspends snaps)

raise :
    (m n : ℕ) (xs : List Snapshot)
    → m < n
    → All (λ s. s.sequence ≤ m) xs
    → All (λ s. s.sequence < n) xs
raise m n [] h a = tt
raise m n (x ∷ xs) h a = (omega arith, raise m n xs h a.1)

terminal_mono : (a b : ℕ) → a < b → terminal_snapshot_sequence a < terminal_snapshot_sequence b
unfolding terminal_snapshot_sequence
terminal_mono a b h = omega arith

-- At a suspended return, loadSuspendSnapshot finds the snapshot of that very suspension.
pub load_finds :
    (init : List Snapshot) (start : ℕ) (o : Outcome) (d : IsDurable init start o)
    → All (λ s. s.sequence ≤ terminal_snapshot_sequence start) init
    → load_suspend_snapshot o.state.db.snapshots ≡ some (told_snapshot d.told d.wake o.state)
unfolding load_suspend_snapshot
load_finds init start o d older =
    let snap = told_snapshot d.told d.wake o.state in
    let found =
      best-newest snap.sequence (suspends d.earlier) snap
        (record { contract = d.told.contract; payload = d.told.payload; wake_at = d.wake }) none
        refl refl tt
        (rw d.since (
          raise (terminal_snapshot_sequence start) snap.sequence init
            (terminal_mono start o.state.position d.later) older)) in
    ap load_suspend_snapshot d.saved
    ∙ best-suspends (d.earlier ++ snap ∷ []) none
    ∙ ap (best_suspend none) (suspends-append d.earlier (snap ∷ []))
    ∙ found
