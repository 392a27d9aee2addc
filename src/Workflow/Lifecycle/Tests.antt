-- ===== src/Workflow/Lifecycle/Tests.antt =====
-- A paused run and a sleeping run, resumed.
use lebro.Common.{◌≡◌, refl, true, false, Option, none, some, [], ◌∷◌, arith, are_distinct-Distinct}
use lebro.Workflow.Model.{World, poll, succeeded, suspended}
use lebro.Workflow.Retry.{run_step_with_retry, resolve_retry_policy}
use lebro.Workflow.Tree.{
  task, sleep, sleep_for, Steps, nil, cons, steps_weight, steps_ids, select_branch,
}
use lebro.Workflow.State.{Snapshot, last_snapshot}
use lebro.Workflow.Frames.{Outcome, execute_frames, visit, finish}
use lebro.Workflow.Resume.{resume_frames}
use lebro.Workflow.Resume.Ids.{StepsStart}
use lebro.Workflow.Resume.Correct.{IsValidTree}
use lebro.Workflow.Tests.{
  plain_info, append_byte, ask, tree, engine, begin, outcome_or_none, paused, paused_lem,
  paused_status, tree-IsValidTree,
}
use lebro.Workflow.Lifecycle.{
  Call, Resumed, rejected, unresolved, resumed, resume, resume_wake, steps_suspend_schema,
  check_run, load_suspend_snapshot, best_suspend, resume_checked, continue_from,
}
use lebro.Workflow.Lifecycle.Continue.{IsOpen, goes_on, resume_continues, wake_continues}
use lebro.Workflow.Lifecycle.Lost.{Kept, resume_loses_input}
use lebro.Workflow.Lifecycle.Rejected.{OnlyWhenCleared, resume_guarded}
use lebro.Workflow.Lifecycle.Total.{Decides, resume_answers}

abbrev call : Call
call = record {
  authorized = true;
  get_fails = false;
  list_fails = false;
  belongs = true;
  json_equal = λ a b. false;
}

call-IsOpen : IsOpen call
call-IsOpen = record { readable = refl; listable = refl; ours = refl; allowed = refl }

abbrev awake : World
awake = record { polls = 7; calls = 3; events = [] }

abbrev snapshot_or_empty : Option Snapshot → Snapshot
snapshot_or_empty (some s) = s
snapshot_or_empty none = record {
  step = 0;
  step_id = "";
  output = [];
  outputs = [];
  suspend = none;
  path = [];
  sequence = 0;
}

abbrev pause : Snapshot
pause = snapshot_or_empty (last_snapshot paused.state.db.snapshots)

resume_continues_example :
    resume 20 engine call tree (5 ∷ []) awake paused.state.db
    ≡ resumed (goes_on 20 engine paused (5 ∷ []) (poll engine.env awake).1)
unfolding steps_weight steps_suspend_schema execute_frames visit finish run_step_with_retry
    select_branch resolve_retry_policy
resume_continues_example =
    resume_continues 20 20 engine call tree begin paused awake pause (λ v. true) (5 ∷ []) refl
      call-IsOpen tree-IsValidTree refl tt paused_lem paused_status refl (omega arith) refl refl
      refl refl refl

-- A draft, a sleep of ten, and a last step.
abbrev naps : Steps
naps = cons (task (plain_info "draft" (append_byte 1))) (
    cons (sleep (plain_info "nap" (append_byte 0)) (sleep_for 10))
      (cons (task (plain_info "send" (append_byte 3))) nil))

naps-IsValidTree : IsValidTree naps
unfolding steps_ids StepsStart
naps-IsValidTree = record {
  distinct = are_distinct-Distinct (steps_ids naps) refl;
  starts = (tt, (tt, (tt, tt)));
}

abbrev asleep : Outcome
asleep = outcome_or_none (execute_frames 20 engine (naps ∷ []) begin)

asleep_lem : execute_frames 20 engine (naps ∷ []) begin ≡ some asleep
unfolding execute_frames visit finish run_step_with_retry select_branch resolve_retry_policy
asleep_lem = refl

abbrev nap : Snapshot
nap = snapshot_or_empty (last_snapshot asleep.state.db.snapshots)

wake_continues_example :
    resume_wake 20 engine call naps asleep.state.position awake asleep.state.db
    ≡ resumed (goes_on 20 engine asleep asleep.state.current (poll engine.env awake).1)
unfolding steps_weight execute_frames visit finish run_step_with_retry select_branch
    resolve_retry_policy
wake_continues_example =
    wake_continues 20 20 engine call naps begin asleep awake nap 14 refl call-IsOpen
      naps-IsValidTree refl tt asleep_lem refl refl (omega arith) refl refl

resume_guarded_example :
    OnlyWhenCleared call awake paused.state.db
      (resume 20 engine call tree (5 ∷ []) awake paused.state.db)
    × OnlyWhenCleared call awake paused.state.db
        (resume_wake 20 engine call tree 3 awake paused.state.db)
resume_guarded_example = resume_guarded 20 engine call tree (5 ∷ []) 3 awake paused.state.db

resume_answers_example :
    Decides (resume 20 engine call tree (5 ∷ []) awake paused.state.db)
    × Decides (resume_wake 20 engine call tree 3 awake paused.state.db)
unfolding steps_weight
resume_answers_example =
    resume_answers 20 engine call tree (5 ∷ []) 3 awake paused.state.db (omega arith)

-- A draft, and a last step that asks.
abbrev asks : Steps
asks = cons (task (plain_info "draft" (append_byte 1))) (cons (task ask) nil)

asks-IsValidTree : IsValidTree asks
unfolding steps_ids StepsStart
asks-IsValidTree = record {
  distinct = are_distinct-Distinct (steps_ids asks) refl;
  starts = (tt, (tt, tt));
}

abbrev asking : Outcome
asking = outcome_or_none (execute_frames 20 engine (asks ∷ []) begin)

asking_lem : execute_frames 20 engine (asks ∷ []) begin ≡ some asking
unfolding execute_frames visit finish run_step_with_retry select_branch resolve_retry_policy
asking_lem = refl

asking_status : asking.result.status ≡ suspended
unfolding execute_frames visit finish run_step_with_retry select_branch resolve_retry_policy
asking_status = refl

abbrev outcome_of : Resumed → Option Outcome
outcome_of (resumed o) = o
outcome_of (rejected r w db) = none
outcome_of unresolved = none

-- The run that the answer 5 ends.
abbrev answered : Outcome
answered = outcome_or_none (outcome_of (resume 20 engine call asks (5 ∷ []) awake asking.state.db))

answered_lem : resume 20 engine call asks (5 ∷ []) awake asking.state.db ≡ resumed (some answered)
unfolding resume resume_checked continue_from check_run load_suspend_snapshot best_suspend
    steps_suspend_schema resume_frames execute_frames visit finish run_step_with_retry select_branch
    resolve_retry_policy
answered_lem = refl

answered_status : answered.result.status ≡ succeeded
unfolding resume resume_checked continue_from check_run load_suspend_snapshot best_suspend
    steps_suspend_schema resume_frames execute_frames visit finish run_step_with_retry select_branch
    resolve_retry_policy
answered_status = refl

resume_loses_input_example :
    (answered.result.output ≡ 5 ∷ []) × Kept asking.state.completed answered
unfolding steps_weight steps_suspend_schema execute_frames visit finish run_step_with_retry
    select_branch resolve_retry_policy
resume_loses_input_example =
    resume_loses_input 20 20 engine call asks begin asking awake
      (snapshot_or_empty (last_snapshot asking.state.db.snapshots)) (λ v. true) (5 ∷ []) (task ask)
      answered refl call-IsOpen asks-IsValidTree refl tt asking_lem asking_status refl (omega arith)
      refl refl refl refl refl refl answered_lem answered_status
