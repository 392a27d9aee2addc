-- ===== src/Workflow/Construction.antt =====
-- NewLinearWorkflow and newCompiledStep of internal/runtime/workflow.go: a definition is checked,
-- then compiled into the tree that the executor walks. The store, the clock, the ID source, the
-- listener and the policy of a workflow are left out.
pub mod Kept
pub mod Apart
pub mod Forms
pub mod Parts
pub mod Valid
pub mod Safe
mod Tests
use lebro.Common.{
  ℕ, String, Bool, true, false, not, ◌&&◌, Option, none, some, List, [], ◌∷◌, str_eq, ℤ, pos,
  negsuc, if◌then◌else◌,
}
use lebro.Workflow.Model.{RawMessage, StepId, CompiledSchema, Handler, panicked, RetryPolicy}
use lebro.Workflow.Retry.{validate_retry_policy}
use lebro.Workflow.Tree.{
  BranchPredicate, Wake, sleep_for, sleep_until, StepInfo, LoopMode, loop_while, loop_until,
  LoopConfig, CompiledStep, task, sleep, mapping, looping, branching, Steps, nil, cons, Branches,
  no_more, branch,
}
use lebro.Workflow.Definition.{
  StepHead, MapForm, LoopPredicate, Step, step, StepList, no_steps, one_step, BranchList,
  no_branches, one_branch, FanOut, no_fan_out, fan_out, FanOutBranches, no_fan_out_branches,
  one_fan_out_branch, ForEach, no_for_each, for_each, LoopForm, no_loop, loop, has_steps, is_set,
}
use lebro.Workflow.StepChecks.{Validation}
use lebro.Workflow.Validation.{validate_step_tree}

-- json.Valid, the configured schema compiler (`none` for an error or a nil schema), and executeMap.
pub record Toolkit : Type 0 where
  pub json_valid : RawMessage → Bool
  pub compiler : Option (RawMessage → Option CompiledSchema)
  pub execute_map : String → List (String × String) → RawMessage → Option RawMessage

-- What a construction comes to: a result, an error, or a panic.
pub data Construction (A : Type 0) : Type 0 where
  built : A → Construction A
  refused crashed : Construction A

abbrev pub and_then : {A B : Type 0} → Construction A → (A → Construction B) → Construction B
and_then (built a) f = f a
and_then refused f = refused
and_then crashed f = crashed

abbrev pub with_both : {A B C : Type 0} → (A → B → C) → Option A → Option B → Option C
with_both f none b = none
with_both f (some a) none = none
with_both f (some a) (some b) = some (f a b)

-- A nil handler panics when it is invoked.
abbrev pub handler_or_nil : Option Handler → Handler
handler_or_nil none = λ calls input. panicked 0
handler_or_nil (some f) = f

-- One of the blocks for schemas; a nil compiler panics when it is called.
unfoldable pub compile_schema : Toolkit → RawMessage → Construction (Option CompiledSchema)
compile_schema tk [] = built none
compile_schema tk (b ∷ bs) = if not (tk.json_valid (b ∷ bs)) then refused else elim tk.compiler [
  | none ↦ crashed
  | some compile ↦ elim (compile (b ∷ bs)) [ none ↦ refused | some s ↦ built (some s) ]
]

unfoldable pub compile_info : Toolkit → StepHead → Construction StepInfo
unfolding compile_schema
compile_info tk h = and_then (compile_schema tk h.input_schema) (λ input.
    and_then (compile_schema tk h.output_schema) (λ output.
      and_then (compile_schema tk h.suspend_schema) (λ suspend. built (record {
        id = h.id;
        handler = handler_or_nil h.handler;
        input_schema = input;
        output_schema = output;
        suspend_schema = suspend;
        retry = h.retry;
      }))))

abbrev pub wake_of : Option ℤ → Option (Option ℕ) → Option Wake
wake_of (some (pos d)) at = some (sleep_for d)
wake_of none (some (some t)) = some (sleep_until t)
wake_of _ _ = none

-- The step of the tree for a definition of one form, by its compiled children; `none` for a form that
-- the tree does not have: fan-out, foreach, a nil condition or a negative number.
abbrev pub compiled_form :
    Toolkit
    → Step
    → Option Branches
    → Option (LoopConfig × Steps)
    → Option (LoopConfig × Steps)
    → StepInfo
    → Option CompiledStep
compiled_form tk (step h (one_branch _ _ _ _) fo m fe dw du s su) branches while until i =
    elim branches [ none ↦ none | some bs ↦ some (branching i bs h.default) ]
compiled_form tk (step h no_branches no_fan_out none no_for_each (loop _ _ _) du s su) branches
      while until i =
    elim while [ none ↦ none | some (c, steps) ↦ some (looping i c steps) ]
compiled_form tk (step h no_branches no_fan_out none no_for_each no_loop (loop _ _ _) s su) branches
      while until i =
    elim until [ none ↦ none | some (c, steps) ↦ some (looping i c steps) ]
compiled_form tk (step h no_branches no_fan_out (some m) fe dw du s su) branches while until i =
    some (mapping i (tk.execute_map m.path m.fields))
compiled_form tk (step h no_branches no_fan_out none no_for_each no_loop no_loop none none) branches
      while until i =
    some (task i)
compiled_form tk (step h no_branches no_fan_out none no_for_each no_loop no_loop s su) branches
      while until i =
    elim (wake_of s su) [ none ↦ none | some w ↦ some (sleep i w) ]
compiled_form tk _ branches while until i = none

-- The branches of a step with one more before them: the entry ID is read off its first step.
unfoldable pub add_branch :
    String
    → Option BranchPredicate
    → Bool
    → Construction (Option Steps)
    → Construction (Option Branches)
    → Construction (Option Branches)
add_branch name condition nonempty steps rest = and_then steps (λ ss.
    if not nonempty
    then crashed
    else and_then rest
        (λ bs. built (elim condition [ none ↦ none | some c ↦ with_both (branch name c) ss bs ])))

abbrev pub loop_of :
    LoopMode → ℤ → Option LoopPredicate → Option Steps → Option (LoopConfig × Steps)
loop_of mode (pos n) (some c) (some steps) =
    some (record { limit = n; condition = c; mode = mode }, steps)
loop_of mode _ _ _ = none

unfoldable pub new_step_of :
    Toolkit
    → Step
    → Construction (Option Branches)
    → Construction (Option Steps)
    → Construction (Option Steps)
    → Construction (Option (LoopConfig × Steps))
    → Construction (Option (LoopConfig × Steps))
    → Construction (Option CompiledStep)
unfolding compile_info
new_step_of tk (step h bs fo m fe dw du s su) branches fanned each while until =
    elim (validate_retry_policy h.retry) [
      | some e ↦ refused
      | none ↦ and_then branches (λ cb. and_then fanned (λ cf. and_then each (λ ce.
          and_then while (λ cw. and_then until (λ cu.
            and_then (compile_info tk h)
              (λ i. built (compiled_form tk (step h bs fo m fe dw du s su) cb cw cu i)))))))
    ]

unfoldable mutual
  unfolding new_step_of add_branch

  pub new_compiled_step : Toolkit → Step → Construction (Option CompiledStep)
  new_compiled_step tk (step h bs fo m fe dw du s su) =
      new_step_of tk (step h bs fo m fe dw du s su) (compile_branches tk bs) (compile_fan_out tk fo)
        (compile_for_each tk fe) (compile_loop tk loop_while dw) (compile_loop tk loop_until du)

  pub compile_steps : Toolkit → StepList → Construction (Option Steps)
  compile_steps tk no_steps = built (some nil)
  compile_steps tk (one_step s rest) =
      let later = compile_steps tk rest in
      and_then (new_compiled_step tk s) (λ c. and_then later (λ cs. built (with_both cons c cs)))

  pub compile_branches : Toolkit → BranchList → Construction (Option Branches)
  compile_branches tk no_branches = built (some no_more)
  compile_branches tk (one_branch name condition steps rest) =
      add_branch name condition (has_steps steps) (compile_steps tk steps)
        (compile_branches tk rest)

  pub compile_fan_out : Toolkit → FanOut → Construction (Option Steps)
  compile_fan_out tk no_fan_out = built none
  compile_fan_out tk (fan_out _ _ bs) = compile_fan_out_branches tk bs

  pub compile_fan_out_branches : Toolkit → FanOutBranches → Construction (Option Steps)
  compile_fan_out_branches tk no_fan_out_branches = built none
  compile_fan_out_branches tk (one_fan_out_branch _ steps rest) =
      let later = compile_fan_out_branches tk rest in
      and_then (compile_steps tk steps) (λ cs. later)

  pub compile_for_each : Toolkit → ForEach → Construction (Option Steps)
  compile_for_each tk no_for_each = built none
  compile_for_each tk (for_each _ steps) = compile_steps tk steps

  pub compile_loop : Toolkit → LoopMode → LoopForm → Construction (Option (LoopConfig × Steps))
  compile_loop tk mode no_loop = built none
  compile_loop tk mode (loop limit condition steps) =
      and_then (compile_steps tk steps) (λ cs. built (loop_of mode limit condition cs))

-- NewLinearWorkflow
unfoldable pub new_linear_workflow : Toolkit → String → StepList → Construction (Option Steps)
unfolding validate_step_tree new_compiled_step
new_linear_workflow tk id steps =
    if str_eq id ""
    then refused
    else if not (has_steps steps)
    then refused
    else elim (validate_step_tree steps (record { seen = []; has_schema = false })) [
      | none ↦ refused
      | some v ↦
          if v.has_schema && not (is_set tk.compiler) then refused else compile_steps tk steps
    ]
