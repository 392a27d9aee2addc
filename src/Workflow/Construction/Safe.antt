-- ===== src/Workflow/Construction/Safe.antt =====
-- NewLinearWorkflow does not panic.
use lebro.Common.{
  ◌≡◌, refl, ◌≢◌, ◌⊎◌, inl, inr, Bool, true, false, not, ◌&&◌, Option, none, some, [], ◌∷◌, String,
  arith, str_eq, if◌then◌else◌,
}
use lebro.Workflow.Model.{RawMessage}
use lebro.Workflow.Retry.{validate_retry_policy}
use lebro.Workflow.Tree.{
  BranchPredicate, LoopMode, loop_while, loop_until, LoopConfig, Steps, Branches,
}
use lebro.Workflow.Definition.{
  StepHead, Step, step, StepList, no_steps, one_step, BranchList, no_branches, one_branch, FanOut,
  no_fan_out, fan_out, FanOutBranches, no_fan_out_branches, one_fan_out_branch, ForEach,
  no_for_each, for_each, LoopForm, no_loop, loop, has_steps, is_set, is_given, head,
}
use lebro.Workflow.StepChecks.{Validation}
use lebro.Workflow.Validation.{validate_step_tree}
use lebro.Workflow.Validation.Spec.{
  WellFormed, ListWellFormed, BranchesWellFormed, FanOutWellFormed, FanOutBranchesWellFormed,
  ForEachWellFormed, LoopWellFormed,
}
use lebro.Workflow.Validation.Sound.{fresh_validation, validate_sound}
use lebro.Workflow.Validation.Schemas.{
  Bare, StepBare, ListBare, BranchesBare, FanOutBare, FanOutBranchesBare, ForEachBare, LoopBare,
}
use lebro.Workflow.Validation.Quiet.{tree-Quiet}
use lebro.Workflow.Construction.{
  Toolkit, Construction, built, refused, crashed, and_then, compile_schema, compile_info,
  add_branch, new_step_of, new_compiled_step, compile_steps, compile_branches, compile_fan_out,
  compile_fan_out_branches, compile_for_each, compile_loop, new_linear_workflow,
}

-- No panic.
abbrev Safe : {A : Type 0} → Construction A → Type 0
Safe (built a) = Unit
Safe refused = Unit
Safe crashed = ⊥

next-Safe :
    {A B : Type 0} (r : Construction A) (f : A → Construction B)
    → Safe r
    → ((a : A) → Safe (f a))
    → Safe (and_then r f)
next-Safe (built a) f s t = t a
next-Safe refused f s t = tt
next-Safe crashed f s t = s

-- A construction behind a check.
checked-Safe :
    {A E : Type 0} (o : Option E) (r : Construction A)
    → Safe r
    → Safe (elim o [ some x ↦ refused | none ↦ r ])
checked-Safe none r s = s
checked-Safe (some x) r s = tt

guarded-Safe :
    {A : Type 0} (b : Bool) (r : Construction A) → Safe r → Safe (if b then refused else r)
guarded-Safe true r s = tt
guarded-Safe false r s = s

given-Safe :
    {A B : Type 0} (o : Option A) (f : A → Construction B)
    → ((a : A) → o ≡ some a → Safe (f a))
    → Safe (elim o [ none ↦ refused | some a ↦ f a ])
given-Safe none f s = tt
given-Safe (some a) f s = s a refl

Safe-crashed : {A : Type 0} (r : Construction A) → Safe r → r ≢ crashed
Safe-crashed (built a) s e = ground (arith, e)
Safe-crashed refused s e = ground (arith, e)
Safe-crashed crashed s e = s

module _ (tk : Toolkit) where
  -- There is a compiler, or nothing to compile.
  abbrev Covered : Type 0 → Type 0
  Covered B = (is_set tk.compiler ≡ true) ⊎ B

  covered : {B C : Type 0} → (B → C) → Covered B → Covered C
  covered f (inl e) = inl e
  covered f (inr b) = inr (f b)

  compile_schema-Safe : (v : RawMessage) → Covered (is_given v ≡ false) → Safe (compile_schema tk v)
  unfolding compile_schema
  compile_schema-Safe [] c = tt
  compile_schema-Safe (b ∷ bs) (inl e) = ground (arith, e)
  compile_schema-Safe (b ∷ bs) (inr e) = ground (arith, e)

  compile_info-Safe : (h : StepHead) → Covered (Bare h) → Safe (compile_info tk h)
  unfolding compile_info
  compile_info-Safe h c =
      next-Safe (compile_schema tk h.input_schema) _
        (compile_schema-Safe h.input_schema (covered (λ b. b.0) c))
        (λ i.
          next-Safe (compile_schema tk h.output_schema) _
            (compile_schema-Safe h.output_schema (covered (λ b. b.1) c))
            (λ o.
              next-Safe (compile_schema tk h.suspend_schema) _
                (compile_schema-Safe h.suspend_schema (covered (λ b. b.2) c)) (λ s. tt)))

  new_step_of-Safe :
      (s : Step) (branches : Construction (Option Branches))
      (fanned each : Construction (Option Steps))
      (while until : Construction (Option (LoopConfig × Steps)))
      → Safe branches
      → Safe fanned
      → Safe each
      → Safe while
      → Safe until
      → Covered (Bare (head s))
      → Safe (new_step_of tk s branches fanned each while until)
  unfolding new_step_of
  new_step_of-Safe (step h bs fo m fe dw du s su) branches fanned each while until b f e w u c =
      checked-Safe (validate_retry_policy h.retry) _ (
        next-Safe branches _ b (λ cb. next-Safe fanned _ f (λ cf. next-Safe each _ e (λ ce.
          next-Safe while _ w (λ cw.
            next-Safe until _ u
              (λ cu. next-Safe (compile_info tk h) _ (compile_info-Safe h c) (λ i. tt)))))))

  add_branch-Safe :
      (name : String) (condition : Option BranchPredicate) (nonempty : Bool)
      (steps : Construction (Option Steps)) (rest : Construction (Option Branches))
      → nonempty ≡ true
      → Safe steps
      → Safe rest
      → Safe (add_branch name condition nonempty steps rest)
  unfolding add_branch
  add_branch-Safe name condition false steps rest e s r = ground (arith, e)
  add_branch-Safe name condition true steps rest e s r =
      next-Safe steps _ s (λ ss. next-Safe rest _ r (λ bs. tt))

  mutual
    unfolding new_compiled_step ListWellFormed ListBare

    step-Safe : (s : Step) → WellFormed s → Covered (StepBare s) → Safe (new_compiled_step tk s)
    step-Safe (step h bs fo m fe dw du s su) w c =
        new_step_of-Safe (step h bs fo m fe dw du s su) (compile_branches tk bs)
          (compile_fan_out tk fo) (compile_for_each tk fe) (compile_loop tk loop_while dw)
          (compile_loop tk loop_until du) (branches-Safe bs w.3 (covered (λ b. b.1) c))
          (fan_out-Safe fo w.6 (covered (λ b. b.2) c)) (for_each-Safe fe w.7 (covered (λ b. b.3) c))
          (loop-Safe loop_while dw w.8 (covered (λ b. b.4) c))
          (loop-Safe loop_until du w.9 (covered (λ b. b.5) c)) (covered (λ b. b.0) c)

    steps-Safe :
        (steps : StepList)
        → ListWellFormed steps
        → Covered (ListBare steps)
        → Safe (compile_steps tk steps)
    steps-Safe no_steps w c = tt
    steps-Safe (one_step s rest) w c =
        next-Safe (new_compiled_step tk s) _ (step-Safe s w.0 (covered (λ b. b.0) c)) (λ x.
          next-Safe (compile_steps tk rest) _ (steps-Safe rest w.1 (covered (λ b. b.1) c))
            (λ y. tt))

    branches-Safe :
        (bs : BranchList)
        → BranchesWellFormed bs
        → Covered (BranchesBare bs)
        → Safe (compile_branches tk bs)
    branches-Safe no_branches w c = tt
    branches-Safe (one_branch name condition steps rest) w c =
        add_branch-Safe name condition (has_steps steps) (compile_steps tk steps)
          (compile_branches tk rest) w.2 (steps-Safe steps w.3 (covered (λ b. b.0) c))
          (branches-Safe rest w.4 (covered (λ b. b.1) c))

    fan_out-Safe :
        (fo : FanOut) → FanOutWellFormed fo → Covered (FanOutBare fo) → Safe (compile_fan_out tk fo)
    fan_out-Safe no_fan_out w c = tt
    fan_out-Safe (fan_out _ _ bs) w c = fan_out_branches-Safe bs w.0 c

    fan_out_branches-Safe :
        (bs : FanOutBranches)
        → FanOutBranchesWellFormed bs
        → Covered (FanOutBranchesBare bs)
        → Safe (compile_fan_out_branches tk bs)
    fan_out_branches-Safe no_fan_out_branches w c = tt
    fan_out_branches-Safe (one_fan_out_branch name steps rest) w c =
        next-Safe (compile_steps tk steps) _ (steps-Safe steps w.2 (covered (λ b. b.0) c))
          (λ x. fan_out_branches-Safe rest w.3 (covered (λ b. b.1) c))

    for_each-Safe :
        (fe : ForEach)
        → ForEachWellFormed fe
        → Covered (ForEachBare fe)
        → Safe (compile_for_each tk fe)
    for_each-Safe no_for_each w c = tt
    for_each-Safe (for_each _ steps) w c = steps-Safe steps w.1 c

    loop-Safe :
        (mode : LoopMode) (l : LoopForm)
        → LoopWellFormed l
        → Covered (LoopBare l)
        → Safe (compile_loop tk mode l)
    loop-Safe mode no_loop w c = tt
    loop-Safe mode (loop limit condition steps) w c =
        next-Safe (compile_steps tk steps) _ (steps-Safe steps w.6 c) (λ x. tt)

  compiled-Safe :
      (steps : StepList) (v : Validation)
      → validate_step_tree steps fresh_validation ≡ some v
      → Safe (if v.has_schema && not (is_set tk.compiler) then refused else compile_steps tk steps)
  compiled-Safe steps v e = by_cases v.has_schema (is_set tk.compiler) refl refl
    where
      by_cases :
          (noted given : Bool)
          → v.has_schema ≡ noted
          → is_set tk.compiler ≡ given
          → Safe
              (if v.has_schema && not (is_set tk.compiler) then refused else compile_steps tk steps)
      by_cases true false p q = rw (p, q) tt
      by_cases noted true p q =
          ground (arith, p, q, steps-Safe steps (validate_sound steps v e).0 (inl q))
      by_cases false false p q = rw p (
          steps-Safe steps (validate_sound steps v e).0
            (inr (tree-Quiet steps fresh_validation v e p).1))

-- NewLinearWorkflow never panics, whatever steps it is given: no schema is compiled without a
-- compiler, and every branch that is compiled has a first step.
pub new_linear_workflow_never_panics :
    (tk : Toolkit) (id : String) (steps : StepList) → new_linear_workflow tk id steps ≢ crashed
unfolding new_linear_workflow
new_linear_workflow_never_panics tk id steps = Safe-crashed (new_linear_workflow tk id steps) (
    guarded-Safe (str_eq id "") _ (
      guarded-Safe (not (has_steps steps)) _
        (given-Safe (validate_step_tree steps fresh_validation) _ (compiled-Safe tk steps))))
