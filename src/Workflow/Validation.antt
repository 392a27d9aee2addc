-- ===== src/Workflow/Validation.antt =====
-- validateStepTree of internal/runtime/workflow.go. What a failed check says is left out: `none` is
-- an error.
pub mod Spec
pub mod OneForm
pub mod Schemas
pub mod Quiet
pub mod Walks
pub mod Forms
pub mod Sound
use lebro.Common.{
  ℕ, ◌+◌, ◌-◌, ◌^◌, String, Bool, true, false, not, ◌&&◌, ◌||◌, Option, none, some, List, [], ◌∷◌,
  ◌++◌, ltb, str_eq, ℤ, pos, negsuc, if◌then◌else◌, is_fresh, starts_with, ends_with, contains,
}
use lebro.Workflow.Model.{RawMessage, StepId}
use lebro.Workflow.Definition.{
  StepHead, MapForm, Step, step, StepList, no_steps, one_step, BranchList, no_branches, one_branch,
  FanOut, no_fan_out, fan_out, FanOutBranches, no_fan_out_branches, one_fan_out_branch, ForEach,
  no_for_each, for_each, LoopForm, no_loop, loop, has_branches, has_fan_out, has_fan_out_branches,
  has_for_each, has_loop, has_steps, is_set, is_given, head,
}
use lebro.Workflow.StepChecks.{
  note_id, note_schema, count, control_count, is_negative, is_bad_path, fields_valid, are_plain,
  none_suspends, max_loop_iterations, is_loop_bound, has_own_work, validate_map, validate_sleep,
  validate_task, close_branching, Validation,
}

-- The chain over the forms, by what the walks over the children return.
unfoldable pub by_form :
    Step
    → Validation
    → Option (List String × Validation)
    → Option Validation
    → Option Validation
    → Option Validation
    → Option Validation
    → Option Validation
unfolding close_branching validate_map validate_sleep validate_task
by_form (step h bs fo m fe dw du s su) v walked fanning iterating while until =
    if has_branches bs
    then close_branching h walked
    else if has_fan_out fo
    then fanning
    else elim m [
      | some form ↦ validate_map h form v
      | none ↦
          if has_for_each fe
          then iterating
          else if has_loop dw
          then while
          else if has_loop du
          then until
          else if is_set s || is_set su
          then validate_sleep h s su v
          else validate_task h v
    ]

-- Each form's block; the walk over branches also returns their names.
unfoldable mutual
  unfolding by_form are_plain none_suspends

  pub validate_step_tree : StepList → Validation → Option Validation
  validate_step_tree no_steps v = some v
  validate_step_tree (one_step s rest) v = elim (validate_step s v) [
    | none ↦ none
    | some v' ↦ validate_step_tree rest v'
  ]

  pub validate_step : Step → Validation → Option Validation
  validate_step (step h bs fo m fe dw du s su) v =
      let v₁ = note_id h.id v in
      let walked = validate_branches bs [] (note_schema (is_given h.input_schema) v₁) in
      let fanning = validate_fan_out h fo v₁ in
      let iterating = validate_for_each h fe v₁ in
      let while = validate_loop h dw v₁ in
      let until = validate_loop h du v₁ in
      if str_eq h.id ""
      then none
      else if not (is_fresh h.id v.seen)
      then none
      else if has_branches bs && has_fan_out fo
      then none
      else if ltb 1 (control_count (step h bs fo m fe dw du s su))
      then none
      else by_form (step h bs fo m fe dw du s su) v₁ walked fanning iterating while until

  pub validate_branches : BranchList → List String → Validation → Option (List String × Validation)
  validate_branches no_branches names v = some (names, v)
  validate_branches (one_branch name condition steps rest) names v =
      if str_eq name ""
      then none
      else if not (is_fresh name names)
      then none
      else if not (has_steps steps)
      then none
      else if not (is_set condition)
      then none
      else elim (validate_step_tree steps v) [
        | none ↦ none
        | some v' ↦ validate_branches rest (names ++ name ∷ []) v'
      ]

  pub validate_fan_out : StepHead → FanOut → Validation → Option Validation
  validate_fan_out h no_fan_out v = some v
  validate_fan_out h (fan_out policy parallel bs) v =
      let walked = validate_fan_out_branches bs [] (note_schema (is_given h.input_schema) v) in
      if has_own_work h
      then none
      else if not (has_fan_out_branches bs)
      then none
      else if is_negative parallel
      then none
      else if not (str_eq policy "" || str_eq policy "fail_fast" || str_eq policy "collect_all")
      then none
      else walked

  pub validate_fan_out_branches : FanOutBranches → List String → Validation → Option Validation
  validate_fan_out_branches no_fan_out_branches names v = some v
  validate_fan_out_branches (one_fan_out_branch name steps rest) names v =
      if str_eq name ""
      then none
      else if not (is_fresh name names)
      then none
      else if not (has_steps steps)
      then none
      else elim (validate_step_tree steps v) [
        | none ↦ none
        | some v' ↦ validate_fan_out_branches rest (names ++ name ∷ []) v'
      ]

  pub validate_for_each : StepHead → ForEach → Validation → Option Validation
  validate_for_each h no_for_each v = some v
  validate_for_each h (for_each parallel steps) v =
      let walked = validate_step_tree steps (note_schema (is_given h.input_schema) v) in
      if has_own_work h
      then none
      else if is_negative parallel
      then none
      else if not (has_steps steps)
      then none
      else if not (are_plain steps)
      then none
      else walked

  pub validate_loop : StepHead → LoopForm → Validation → Option Validation
  validate_loop h no_loop v = some v
  validate_loop h (loop limit condition steps) v =
      let walked = validate_step_tree steps (note_schema (is_given h.input_schema) v) in
      if has_own_work h
      then none
      else if not (is_loop_bound limit)
      then none
      else if not (is_set condition)
      then none
      else if not (has_steps steps)
      then none
      else if not (are_plain steps && none_suspends steps)
      then none
      else walked
