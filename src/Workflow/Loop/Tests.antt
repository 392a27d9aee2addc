-- ===== src/Workflow/Loop/Tests.antt =====
-- A loop run on concrete steps, and its theorems applied to it.
use lebro.Common.{◌≡◌, refl, true, false, none, some, [], ◌∷◌, ◌++◌, ltb}
use lebro.Workflow.Model.{returned}
use lebro.Workflow.Retry.{run_step_with_retry, resolve_retry_policy}
use lebro.Workflow.Tree.{CompiledStep, task, cons, nil, loop_until}
use lebro.Workflow.State.{Engine, RunState}
use lebro.Workflow.Loop.{CompiledLoop, done, execute_loop}
use lebro.Workflow.Loop.Ends.{StoppedBetween, loop_stops}
use lebro.Workflow.Loop.Events.{RoundsWithin, loop_rounds_bounded}

-- Appends a byte.
abbrev grow : CompiledStep
grow = task (record {
  id = "grow";
  handler = λ calls input. returned (input ++ 1 ∷ []);
  input_schema = none;
  output_schema = none;
  suspend_schema = none;
  retry = none;
})

-- Until the third round.
abbrev three_rounds : CompiledLoop
three_rounds = record {
  steps = cons grow nil;
  config = record { limit = 5; condition = λ v round. some (ltb 2 round); mode = loop_until };
}

abbrev engine : Engine
engine = record {
  env = record { context = λ _. none };
  bound = true;
  save_fails = λ _. false;
  now = λ n. n;
  overrides = [];
}

abbrev begin : RunState
begin = record {
  current = [];
  completed = [];
  path = [];
  position = 4;
  last_step_id = "";
  last_position = 0;
  world = record { polls = 0; calls = 0; events = [] };
  db = record { saves = 0; run = none; snapshots = []; wakeups = [] };
}

grown : (execute_loop engine three_rounds "loop" [] begin).0 ≡ done (1 ∷ 1 ∷ 1 ∷ [])
unfolding execute_loop run_step_with_retry resolve_retry_policy
grown = refl

loop_stops_example :
    StoppedBetween engine three_rounds "loop" 1 6
      (1 ∷ 1 ∷ 1 ∷ [])
      (execute_loop engine three_rounds "loop" [] begin).1
loop_stops_example = loop_stops engine three_rounds "loop" [] begin (1 ∷ 1 ∷ 1 ∷ []) grown

loop_rounds_bounded_example :
    RoundsWithin engine three_rounds "loop" 5 begin
      (execute_loop engine three_rounds "loop" [] begin).1
loop_rounds_bounded_example = loop_rounds_bounded engine three_rounds "loop" [] begin
