-- ===== src/Workflow/Validation/Schemas.antt =====
-- What validateStepTree notes of schemas: a walk that noted none met none.
use lebro.Common.{
  passed, ℕ, ◌≡◌, refl, String, true, false, ◌||◌, Option, none, some, List, [], ℤ, arith,
  if◌then◌else◌,
}
use lebro.Workflow.Definition.{
  StepHead, MapForm, Step, step, StepList, no_steps, one_step, BranchList, no_branches, one_branch,
  FanOut, no_fan_out, fan_out, FanOutBranches, no_fan_out_branches, one_fan_out_branch, ForEach,
  no_for_each, for_each, LoopForm, no_loop, loop, is_set, is_given, has_fan_out, has_for_each,
  has_loop,
}
use lebro.Workflow.StepChecks.{
  Validation, note_schema, has_own_work, validate_map, validate_sleep, validate_task,
  close_branching,
}
use lebro.Workflow.Validation.{
  by_form, validate_branches, validate_fan_out, validate_for_each, validate_loop,
}
use lebro.Workflow.Validation.OneForm.{
  OneForm, branches_only, fan_out_only, map_only, for_each_only, while_only, until_only, no_form,
}
use lebro.Workflow.Validation.Walks.{closed}

-- A step declares no schema.
abbrev pub Bare : StepHead → Type 0
Bare h =
    (is_given h.input_schema ≡ false)
    × (is_given h.output_schema ≡ false)
    × (is_given h.suspend_schema ≡ false)

-- No step at any depth declares a schema.
unfoldable mutual
  pub StepBare : Step → Type 0
  StepBare (step h bs fo m fe dw du s su) =
      Bare h × BranchesBare bs × FanOutBare fo × ForEachBare fe × LoopBare dw × LoopBare du

  pub ListBare : StepList → Type 0
  ListBare no_steps = Unit
  ListBare (one_step s rest) = StepBare s × ListBare rest

  pub BranchesBare : BranchList → Type 0
  BranchesBare no_branches = Unit
  BranchesBare (one_branch name condition steps rest) = ListBare steps × BranchesBare rest

  pub FanOutBare : FanOut → Type 0
  FanOutBare no_fan_out = Unit
  FanOutBare (fan_out _ _ bs) = FanOutBranchesBare bs

  pub FanOutBranchesBare : FanOutBranches → Type 0
  FanOutBranchesBare no_fan_out_branches = Unit
  FanOutBranchesBare (one_fan_out_branch name steps rest) = ListBare steps × FanOutBranchesBare rest

  pub ForEachBare : ForEach → Type 0
  ForEachBare no_for_each = Unit
  ForEachBare (for_each _ steps) = ListBare steps

  pub LoopBare : LoopForm → Type 0
  LoopBare no_loop = Unit
  LoopBare (loop limit condition steps) = ListBare steps

-- If no schema is noted in `v'`, none was in `v`, and `B` holds of what was walked over.
abbrev pub Quiet : Type 0 → Validation → Validation → Type 0
Quiet B v v' = v'.has_schema ≡ false → (v.has_schema ≡ false) × B

-- A form that notes the input schema and whose step has no work of its own.
pub own-Bare :
    (h : StepHead) (B : Type 0) (v v' : Validation)
    → has_own_work h ≡ false
    → Quiet B (note_schema (is_given h.input_schema) v) v'
    → Quiet (Bare h × B) v v'
own-Bare h B v v' idle q e =
    let noted = (q e).0 in
    (
      ground (arith, noted),
      ((ground (arith, noted), ground (arith, idle), ground (arith, idle)), (q e).1),
    )

pub map-Quiet :
    (h : StepHead) (m : MapForm) (v v' : Validation)
    → validate_map h m v ≡ some v'
    → Quiet (Bare h) v v'
unfolding validate_map
map-Quiet h m v v' e q =
    (ground (arith, e, q), (ground (arith, e, q), ground (arith, e, q), ground (arith, e, q)))

pub sleep-Quiet :
    (h : StepHead) (s : Option ℤ) (su : Option (Option ℕ)) (v v' : Validation)
    → validate_sleep h s su v ≡ some v'
    → Quiet (Bare h) v v'
unfolding validate_sleep
sleep-Quiet h s su v v' e q =
    (ground (arith, e, q), (ground (arith, e, q), ground (arith, e, q), ground (arith, e, q)))

pub task-Quiet :
    (h : StepHead) (v v' : Validation) → validate_task h v ≡ some v' → Quiet (Bare h) v v'
unfolding validate_task
task-Quiet h v v' e q =
    (ground (arith, e, q), (ground (arith, e, q), ground (arith, e, q), ground (arith, e, q)))

pub rest-Quiet :
    (h : StepHead) (s : Option ℤ) (su : Option (Option ℕ)) (v v' : Validation)
    → (if is_set s || is_set su then validate_sleep h s su v else validate_task h v) ≡ some v'
    → Quiet (Bare h) v v'
rest-Quiet h none none v v' e = task-Quiet h v v' e
rest-Quiet h none (some t) v v' e = sleep-Quiet h none (some t) v v' e
rest-Quiet h (some d) su v v' e = sleep-Quiet h (some d) su v v' e

-- What the walks over the children of a step show.
pub record QuietChildren (h : StepHead) (bs : BranchList) (fo : FanOut) (fe : ForEach)
    (dw du : LoopForm) (v : Validation) : Type 0 where
  pub in_branches :
      (names : List String) (v' : Validation)
      → validate_branches bs [] (note_schema (is_given h.input_schema) v) ≡ some (names, v')
      → Quiet (BranchesBare bs) (note_schema (is_given h.input_schema) v) v'
  pub in_fan_out :
      (v' : Validation)
      → has_fan_out fo ≡ true
      → validate_fan_out h fo v ≡ some v'
      → Quiet (Bare h × FanOutBare fo) v v'
  pub in_each :
      (v' : Validation)
      → has_for_each fe ≡ true
      → validate_for_each h fe v ≡ some v'
      → Quiet (Bare h × ForEachBare fe) v v'
  pub in_while :
      (v' : Validation)
      → has_loop dw ≡ true
      → validate_loop h dw v ≡ some v'
      → Quiet (Bare h × LoopBare dw) v v'
  pub in_until :
      (v' : Validation)
      → has_loop du ≡ true
      → validate_loop h du v ≡ some v'
      → Quiet (Bare h × LoopBare du) v v'

pub idle_branching :
    (h : StepHead) (walked : Option (List String × Validation)) (v' : Validation)
    → close_branching h walked ≡ some v'
    → has_own_work h ≡ false
unfolding close_branching
idle_branching h walked v' e = (passed (has_own_work h) _ v' e).0

pub form-Quiet :
    (h : StepHead) (bs : BranchList) (fo : FanOut) (m : Option MapForm) (fe : ForEach)
    (dw du : LoopForm) (s : Option ℤ) (su : Option (Option ℕ)) (v v' : Validation)
    → OneForm bs fo m fe dw du
    → QuietChildren h bs fo fe dw du v
    → by_form
        (step h bs fo m fe dw du s su)
        v
        (validate_branches bs [] (note_schema (is_given h.input_schema) v))
        (validate_fan_out h fo v)
        (validate_for_each h fe v)
        (validate_loop h dw v)
        (validate_loop h du v)
      ≡ some v'
    → Quiet (StepBare (step h bs fo m fe dw du s su)) v v'
unfolding by_form StepBare
form-Quiet h _ _ _ _ _ _ s su v v' (branches_only n c ss bs) kids e q =
    let bs' = one_branch n c ss bs in
    let walked = validate_branches bs' [] (note_schema (is_given h.input_schema) v) in
    let (names, k, known) = closed h walked v' e in
    let r =
      own-Bare h (BranchesBare bs') v v' (idle_branching h walked v' e)
        (kids.in_branches names v' k) q in
    (r.0, (r.1.0, r.1.1, tt, tt, tt, tt))
form-Quiet h _ _ _ _ _ _ s su v v' (fan_out_only p w bs) kids e q =
    let r = kids.in_fan_out v' refl e q in (r.0, (r.1.0, tt, r.1.1, tt, tt, tt))
form-Quiet h _ _ _ _ _ _ s su v v' (map_only m) kids e q =
    let r = map-Quiet h m v v' e q in (r.0, (r.1, tt, tt, tt, tt, tt))
form-Quiet h _ _ _ _ _ _ s su v v' (for_each_only w ss) kids e q =
    let r = kids.in_each v' refl e q in (r.0, (r.1.0, tt, tt, r.1.1, tt, tt))
form-Quiet h _ _ _ _ _ _ s su v v' (while_only l c ss) kids e q =
    let r = kids.in_while v' refl e q in (r.0, (r.1.0, tt, tt, tt, r.1.1, tt))
form-Quiet h _ _ _ _ _ _ s su v v' (until_only l c ss) kids e q =
    let r = kids.in_until v' refl e q in (r.0, (r.1.0, tt, tt, tt, tt, r.1.1))
form-Quiet h _ _ _ _ _ _ s su v v' no_form kids e q =
    let r = rest-Quiet h s su v v' e q in (r.0, (r.1, tt, tt, tt, tt, tt))
