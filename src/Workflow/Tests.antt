-- ===== src/Workflow/Tests.antt =====
-- Runs of the workflow engine on a concrete tree, and its theorems applied to them.
use lebro.Common.{
  ℕ, ◌<◌, ◌≡◌, refl, true, false, Option, none, some, [], ◌∷◌, ◌++◌, arith, are_distinct-Distinct,
  ◌⊎◌,
}
use lebro.Workflow.Model.{
  StepId, Handler, returned, erred, suspend_error, suspended, succeeded, failed,
}
use lebro.Workflow.Retry.{run_step_with_retry, resolve_retry_policy}
use lebro.Workflow.Tree.{
  verdict, StepInfo, task, branching, Steps, nil, cons, Branches, no_more, branch, steps_weight,
  steps_ids, select_branch,
}
use lebro.Workflow.State.{Engine, RunState, Snapshot, terminal_record}
use lebro.Workflow.Frames.{Outcome, execute_frames, visit, finish, advance_top}
use lebro.Workflow.Frames.Termination.{frames_weight, execute_frames_ends}
use lebro.Workflow.Resume.{resume_frames}
use lebro.Workflow.Resume.Ids.{StepsStart}
use lebro.Workflow.Resume.Correct.{IsValidTree, IsAtStep, stop_id, resume_frames_correct}
use lebro.Workflow.State.{last_snapshot}
use lebro.Workflow.Durable.{status_of, durable_status, resume_from_snapshot}
use lebro.Workflow.Retry.Announcements.{announcements}
use lebro.Workflow.Announce.{one_announcement}
use lebro.Workflow.Success.{durable_success}

abbrev pub plain_info : StepId → Handler → StepInfo
plain_info id h = record {
  id = id;
  handler = h;
  input_schema = none;
  output_schema = none;
  suspend_schema = none;
  retry = none;
}

-- Appends a byte to its input.
abbrev pub append_byte : ℕ → Handler
append_byte b calls input = returned (input ++ b ∷ [])

-- Asks for approval.
abbrev pub ask : StepInfo
ask =
    record (plain_info "ask" (λ calls input.
      erred (suspend_error (record { step_id = "other"; contract = []; payload = input })))) {
        suspend_schema = some (λ v. true);
      }

abbrev choices : Branches
choices =
    branch "skip" (λ input. verdict false) (cons (task (plain_info "skipped" (append_byte 9))) nil)
      (branch "approve" (λ input. verdict true) (cons (task ask) nil) no_more)

abbrev pub tree : Steps
tree = cons (task (plain_info "draft" (append_byte 1))) (
    cons (branching (plain_info "route" (append_byte 0)) choices "")
      (cons (task (plain_info "send" (append_byte 3))) nil))

abbrev pub engine : Engine
engine = record {
  env = record { context = λ _. none };
  bound = true;
  save_fails = λ _. false;
  now = λ n. n;
  overrides = [];
}

abbrev pub begin : RunState
begin = record {
  current = 0 ∷ [];
  completed = [];
  path = [];
  position = 0;
  last_step_id = "";
  last_position = 0;
  world = record { polls = 0; calls = 0; events = [] };
  db = record { saves = 0; run = none; snapshots = []; wakeups = [] };
}

-- The outcome of a run, or an empty one.
abbrev pub outcome_or_none : Option Outcome → Outcome
outcome_or_none (some o) = o
outcome_or_none none = record {
  result = record { status = failed; output = []; suspend = none; failure = none };
  state = begin;
  frames = [];
}

tree_weight : frames_weight (tree ∷ []) < 20
unfolding steps_weight
tree_weight = omega arith

execute_frames_ends_example : (o : Outcome) × (execute_frames 20 engine (tree ∷ []) begin ≡ some o)
execute_frames_ends_example = execute_frames_ends 20 engine (tree ∷ []) begin tree_weight

-- The run that suspends in the branch.
abbrev pub paused : Outcome
paused = outcome_or_none (execute_frames 20 engine (tree ∷ []) begin)

pub paused_lem : execute_frames 20 engine (tree ∷ []) begin ≡ some paused
unfolding execute_frames visit finish run_step_with_retry select_branch resolve_retry_policy
paused_lem = refl

pub paused_status : paused.result.status ≡ suspended
unfolding execute_frames visit finish run_step_with_retry select_branch resolve_retry_policy
paused_status = refl

paused_IsAtStep : IsAtStep paused.frames
unfolding execute_frames visit finish run_step_with_retry select_branch resolve_retry_policy
paused_IsAtStep = tt

pub tree-IsValidTree : IsValidTree tree
unfolding steps_ids StepsStart
tree-IsValidTree = record {
  distinct = are_distinct-Distinct (steps_ids tree) refl;
  starts = (tt, ((tt, ((tt, tt), (tt, ((tt, tt), tt)))), (tt, tt)));
}

resume_frames_correct_example :
    resume_frames 20 (tree ∷ []) paused.state.path (stop_id paused.frames)
    ≡ some (some (advance_top paused.frames))
unfolding steps_weight
resume_frames_correct_example =
    resume_frames_correct 20 20 engine tree begin paused tree-IsValidTree refl paused_lem
      paused_IsAtStep (omega arith)

durable_status_example : status_of paused.state.db.run ≡ some paused.result.status
durable_status_example = durable_status engine refl 20 (tree ∷ []) begin paused paused_lem refl

resume_from_snapshot_example :
    (snap : Snapshot) × (last_snapshot paused.state.db.snapshots ≡ some snap)
    × (resume_frames 20 (tree ∷ []) snap.path snap.step_id
        ≡ some (some (advance_top paused.frames)))
    × (snap.outputs ≡ paused.state.completed)
    × (snap.step ≡ paused.state.position)
unfolding steps_weight
resume_from_snapshot_example =
    resume_from_snapshot 20 20 engine tree begin paused refl tree-IsValidTree refl paused_lem
      paused_status (omega arith)

one_announcement_example : announcements paused.state.world.events ≡ [] ++ paused.result.status ∷ []
one_announcement_example = one_announcement 20 engine (tree ∷ []) begin paused paused_lem

-- The run that goes on behind the suspended step, with the answer 5 5.
abbrev resumed : RunState
resumed = record paused.state { current = 5 ∷ 5 ∷ []; completed = [] }

abbrev done : Outcome
done = outcome_or_none (execute_frames 20 engine (advance_top paused.frames) resumed)

done_lem : execute_frames 20 engine (advance_top paused.frames) resumed ≡ some done
unfolding execute_frames visit finish run_step_with_retry select_branch resolve_retry_policy
done_lem = refl

done_status : done.result.status ≡ succeeded
unfolding execute_frames visit finish run_step_with_retry select_branch resolve_retry_policy
done_status = refl

durable_success_example :
    (done.state.db.run ≡ some (terminal_record succeeded none done.state))
    × ((done.state.completed ≡ [])
        ⊎ ((terminal_record succeeded none done.state).output ≡ done.result.output))
durable_success_example =
    durable_success engine refl 20 (advance_top paused.frames) resumed done refl done_lem
      done_status
