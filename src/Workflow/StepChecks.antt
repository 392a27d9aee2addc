-- ===== src/Workflow/StepChecks.antt =====
-- The checks that validateStepTree of internal/runtime/workflow.go makes on one step.
use lebro.Common.{
  ℕ, ◌+◌, ◌-◌, ◌^◌, String, Bool, true, false, not, ◌&&◌, ◌||◌, Option, none, some, List, [], ◌∷◌,
  ◌++◌, ltb, str_eq, ℤ, pos, negsuc, if◌then◌else◌, is_fresh, starts_with, ends_with, contains,
}
use lebro.Workflow.Model.{StepId}
use lebro.Workflow.Definition.{
  StepHead, MapForm, Step, step, StepList, no_steps, one_step, has_branches, has_fan_out,
  has_for_each, has_loop, is_set, is_given, head,
}

-- The variables that the walk shares: the step IDs seen, and whether a schema was declared.
pub record Validation : Type 0 where
  pub seen : List StepId
  pub has_schema : Bool

abbrev pub note_id : StepId → Validation → Validation
note_id id v = record v { seen = v.seen ++ id ∷ [] }

abbrev pub note_schema : Bool → Validation → Validation
note_schema declared v = record v { has_schema = declared || v.has_schema }

abbrev pub count : Bool → ℕ
count true = 1
count false = 0

-- controlCount
abbrev pub control_count : Step → ℕ
control_count (step _ bs fo m fe dw du s su) =
    count (has_branches bs)
    + count (has_fan_out fo)
    + count (is_set m)
    + count (has_for_each fe)
    + count (has_loop dw)
    + count (has_loop du)
    + count (is_set s)
    + count (is_set su)

abbrev pub is_negative : ℤ → Bool
is_negative (pos _) = false
is_negative (negsuc _) = true

abbrev pub is_bad_path : String → Bool
is_bad_path path =
    not (str_eq path ".") && (starts_with path "." || ends_with path "." || contains path "..")

unfoldable pub fields_valid : List (String × String) → Bool
fields_valid [] = true
fields_valid ((key, path) ∷ rest) =
    not (str_eq key "" || str_eq path "") && not (is_bad_path path) && fields_valid rest

-- No child has a control-flow form.
unfoldable pub are_plain : StepList → Bool
are_plain no_steps = true
are_plain (one_step s rest) = not (ltb 0 (control_count s)) && are_plain rest

unfoldable pub none_suspends : StepList → Bool
none_suspends no_steps = true
none_suspends (one_step s rest) = not (is_given (head s).suspend_schema) && none_suspends rest

-- maxLoopIterations
abbrev pub max_loop_iterations : ℕ
max_loop_iterations = 2 ^ 32 - 2

abbrev pub is_loop_bound : ℤ → Bool
is_loop_bound (pos n) = ltb 0 n && not (ltb max_loop_iterations n)
is_loop_bound (negsuc _) = false

-- The declarations of handler, output and suspend schema, and retry policy.
abbrev pub has_own_work : StepHead → Bool
has_own_work h =
    is_set h.handler || is_given h.output_schema || is_given h.suspend_schema || is_set h.retry

unfoldable pub validate_map : StepHead → MapForm → Validation → Option Validation
unfolding fields_valid
validate_map h m v =
    if is_set h.handler
    then none
    else if is_given h.suspend_schema || is_set h.retry
    then none
    else if not (str_eq m.path "") && not (elim m.fields [ [] ↦ true | _ ∷ _ ↦ false ])
    then none
    else if str_eq m.path "" && elim m.fields [ [] ↦ true | _ ∷ _ ↦ false ]
    then none
    else if not (str_eq m.path "") && is_bad_path m.path
    then none
    else if not (fields_valid m.fields)
    then none
    else some (note_schema (is_given h.input_schema || is_given h.output_schema) v)

unfoldable pub validate_sleep :
    StepHead → Option ℤ → Option (Option ℕ) → Validation → Option Validation
validate_sleep h duration at v =
    if is_set h.handler
    then none
    else if is_given h.suspend_schema || is_set h.retry
    then none
    else if elim duration [ none ↦ false | some d ↦ is_negative d ]
    then none
    else if elim at [ none ↦ false | some t ↦ not (is_set t) ]
    then none
    else some (note_schema (is_given h.input_schema || is_given h.output_schema) v)

unfoldable pub validate_task : StepHead → Validation → Option Validation
validate_task h v =
    if not (is_set h.handler)
    then none
    else some (
        note_schema
          (is_given h.input_schema || is_given h.output_schema || is_given h.suspend_schema) v)

-- The block for branches, by what the walk over them returns.
unfoldable pub close_branching : StepHead → Option (List String × Validation) → Option Validation
close_branching h walked = if has_own_work h then none else elim walked [
  | none ↦ none
  | some (names, v) ↦ if not (str_eq h.default "") && is_fresh h.default names then none else some v
]
