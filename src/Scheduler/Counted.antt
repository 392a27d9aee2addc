-- ===== src/Scheduler/Counted.antt =====
-- Every due schedule of a tick is fired once: fireSchedule on each of its branches, and Tick's loop.
use lebro.Common.{
  ℕ, ◌≡◌, refl, String, Bool, true, false, ◌||◌, Option, none, some, List, [], Bool-cases, inl, inr,
  str_eq,
}
use lebro.Workflow.Model.{RunStatus}
use lebro.Cron.{CronSchedule, next}
use lebro.Cron.Time.{IsCalendar}
use lebro.Cron.Search.{next_later}
use lebro.Schedules.{ScheduleRecord, ScheduleExecStatus, ScheduleExecutionRecord}
use lebro.Scheduler.{
  Packages, State, Wake, woken, abandoned, stale, broken, Surroundings, TickResult, claim_inflight,
  normalized, new_execution,
}
use lebro.Scheduler.Fires.{
  next_fire, advance, advance_cleared, finish_wakeup, woke, fire_wakeup, is_terminal, is_suspended,
  due_at,
}
use lebro.Scheduler.Ticks.{release, run_workflow, fire_run, fire_skip, fire_due}
use lebro.Scheduler.Owned.{Own}
use lebro.Scheduler.Settled.{
  FiresLater, FiresOnce, Uncounted, count_fired-FiresOnce, count_skipped-FiresOnce, persist_settles,
}

module _ (os : Packages) (is_calendar : IsCalendar (os.calendar)) (now : ℕ) where
  next_fire_later : (compiled : Option CronSchedule) → FiresLater now (next_fire os compiled now)
  next_fire_later none = tt
  next_fire_later (some compiled) = go (next (os.calendar) compiled now) refl
    where
      go : (o : Option ℕ) → next (os.calendar) compiled now ≡ o → FiresLater now o
      go none e = tt
      go (some at) e = next_later (os.calendar) is_calendar compiled now at e

  module _ (w : Surroundings) (schedule : ScheduleRecord) (r : TickResult) where
    advance_settles :
        (compiled : Option CronSchedule) (exec : ScheduleExecutionRecord)
        (backlog : List ScheduleExecutionRecord) (s : State)
        → exec.schedule_id ≡ schedule.id
        → Own schedule backlog
        → Uncounted now schedule.id r (advance os w schedule compiled now exec backlog s r)
    unfolding advance
    advance_settles compiled exec backlog s own owns =
        persist_settles os w now
          (record schedule {
            last_fire_at = some exec.scheduled_for;
            next_fire_at = next_fire os compiled now;
            updated_at = now;
          })
          exec backlog s r own owns (next_fire_later compiled)

    finish_wakeup-FiresOnce :
        (status : ScheduleExecStatus) (message : String) (s : State)
        → FiresOnce now schedule.id r (finish_wakeup os w now schedule status message s r)
    unfolding finish_wakeup new_execution
    finish_wakeup-FiresOnce status message s = count_fired-FiresOnce now schedule.id r _ (
        persist_settles os w now
          (record schedule {
            last_fire_at = some (due_at schedule now);
            next_fire_at = none;
            paused = true;
            updated_at = now;
          })
          (new_execution os schedule.id schedule.wake_run_id status (due_at schedule now) now
            (some w.finished) message)
          [] s r refl tt tt)

    advance_cleared-FiresOnce :
        (exec : ScheduleExecutionRecord) (s : State)
        → exec.schedule_id ≡ schedule.id
        → FiresOnce now schedule.id r (advance_cleared os w schedule now exec s r)
    unfolding advance_cleared
    advance_cleared-FiresOnce exec s own = count_fired-FiresOnce now schedule.id r _ (
        persist_settles os w now
          (record schedule {
            last_fire_at = some exec.scheduled_for;
            next_fire_at = none;
            updated_at = now;
          })
          exec [] s r own tt tt)

    woke-FiresOnce : (a : State × Wake) → FiresOnce now schedule.id r (woke os w now schedule a r)
    unfolding woke
    woke-FiresOnce (s, woken status) =
        elim (Bool-cases (is_terminal status || is_suspended status)) [
          | inl e ↦ rw (e) (finish_wakeup-FiresOnce ScheduleExecStatus.succeeded "" s)
          | inr e ↦ rw (e) refl
        ]
    woke-FiresOnce (s, abandoned e) = refl
    woke-FiresOnce (s, stale) = finish_wakeup-FiresOnce ScheduleExecStatus.succeeded "" s
    woke-FiresOnce (s, broken e) = go (w.run_status schedule.wake_run_id s) refl
      where
        go :
            (o : Option RunStatus)
            → w.run_status schedule.wake_run_id s ≡ o
            → FiresOnce now schedule.id r (woke os w now schedule (s, broken e) r)
        go none k = rw (woke, k) refl
        go (some status) k = elim (Bool-cases (is_terminal status)) [
          | inl q ↦ rw (woke, k, q) (finish_wakeup-FiresOnce ScheduleExecStatus.failed e s)
          | inr q ↦ rw (woke, k, q) refl
        ]

    pub fire_wakeup-FiresOnce :
        (s : State) → FiresOnce now schedule.id r (fire_wakeup os w now schedule s r)
    unfolding fire_wakeup
    fire_wakeup-FiresOnce s = elim (Bool-cases (w.resolves schedule.workflow_id)) [
      | inl e ↦ rw (e) (woke-FiresOnce (w.resume_wake schedule.wake_run_id schedule.wake_token s))
      | inr e ↦ rw (e) (
          finish_wakeup-FiresOnce ScheduleExecStatus.failed (os.no_workflow schedule.workflow_id) s)
    ]

    its_own :
        (run : String) (status : ScheduleExecStatus) (at : ℕ) (finished : Option ℕ)
        (message : String)
        → (new_execution os schedule.id run status at now finished message).schedule_id
          ≡ schedule.id
    unfolding new_execution
    its_own run status at finished message = refl

    settled_exec :
        (compiled : Option CronSchedule) (run : String) (status : ScheduleExecStatus) (at : ℕ)
        (finished : Option ℕ) (message : String) (backlog : List ScheduleExecutionRecord)
        (s : State)
        → Own schedule backlog
        → Uncounted now schedule.id r (
            advance os w schedule compiled now
              (new_execution os schedule.id run status at now finished message)
              backlog
              s
              r)
    settled_exec compiled run status at finished message backlog s own =
        advance_settles compiled (new_execution os schedule.id run status at now finished message)
          backlog s (its_own run status at finished message) own

    fire_run-FiresOnce :
        (compiled : Option CronSchedule) (at : ℕ) (backlog : List ScheduleExecutionRecord)
        (claimed : Bool) (s : State)
        → Own schedule backlog
        → FiresOnce now schedule.id r (fire_run os w now schedule compiled at backlog claimed s r)
    unfolding fire_run
    fire_run-FiresOnce none at backlog claimed s own =
        advance_cleared-FiresOnce
          (new_execution os schedule.id "" ScheduleExecStatus.failed at now (some now)
            (os.invalid_spec schedule.spec))
          s (its_own "" ScheduleExecStatus.failed at (some now) (os.invalid_spec schedule.spec))
    fire_run-FiresOnce (some compiled) at backlog claimed s own =
        elim (Bool-cases (w.resolves schedule.workflow_id)) [
          | inl e ↦ rw (e) (
              count_fired-FiresOnce now schedule.id r _ (
                settled_exec (some compiled) _ _ at _ _ backlog
                  (run_workflow w schedule claimed s).0 own))
          | inr e ↦ rw (e) (
              count_fired-FiresOnce now schedule.id r _
                (settled_exec (some compiled) _ _ at _ _ backlog s own))
        ]

    fire_skip-FiresOnce :
        (compiled : Option CronSchedule) (at : ℕ) (backlog : List ScheduleExecutionRecord)
        (claim : Option (List String)) (s : State)
        → Own schedule backlog
        → FiresOnce now schedule.id r (fire_skip os w now schedule compiled (at, backlog) claim s r)
    unfolding fire_skip release
    fire_skip-FiresOnce compiled at backlog none s own =
        count_skipped-FiresOnce now schedule.id r _
          (settled_exec compiled "" ScheduleExecStatus.skipped at (some now) "" backlog s own)
    fire_skip-FiresOnce compiled at backlog (some inflight) s own =
        fire_run-FiresOnce compiled at backlog true (record s { inflight = inflight }) own

    pub fire_due-FiresOnce :
        (compiled : Option CronSchedule) (due : ℕ × List ScheduleExecutionRecord) (s : State)
        → Own schedule due.1
        → FiresOnce now schedule.id r (fire_due os w now schedule compiled due s r)
    unfolding fire_due
    fire_due-FiresOnce compiled (at, backlog) s own =
        elim (Bool-cases (str_eq (normalized schedule.concurrency) "skip")) [
          | inl e ↦ rw (e) (
              fire_skip-FiresOnce compiled at backlog (claim_inflight schedule.id s.inflight) s own)
          | inr e ↦ rw (e) (fire_run-FiresOnce compiled at backlog false s own)
        ]
