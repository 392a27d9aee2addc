-- ===== src/Workflow/Validation/OneForm.antt =====
-- The forms of a step that has at most one.
use lebro.Common.{ℕ, ◌≤◌, String, Option, none, some, ℤ, arith}
use lebro.Workflow.Tree.{BranchPredicate}
use lebro.Workflow.Definition.{
  StepHead, MapForm, LoopPredicate, step, StepList, BranchList, no_branches, one_branch, FanOut,
  no_fan_out, fan_out, FanOutBranches, ForEach, no_for_each, for_each, LoopForm, no_loop, loop,
}
use lebro.Workflow.StepChecks.{control_count}

pub data OneForm
    : BranchList → FanOut → Option MapForm → ForEach → LoopForm → LoopForm → Type 0 where
  branches_only :
      (n : String) (c : Option BranchPredicate) (ss : StepList) (bs : BranchList)
      → OneForm (one_branch n c ss bs) no_fan_out none no_for_each no_loop no_loop
  fan_out_only :
      (p : String) (w : ℤ) (bs : FanOutBranches)
      → OneForm no_branches (fan_out p w bs) none no_for_each no_loop no_loop
  map_only : (m : MapForm) → OneForm no_branches no_fan_out (some m) no_for_each no_loop no_loop
  for_each_only :
      (w : ℤ) (ss : StepList) → OneForm no_branches no_fan_out none (for_each w ss) no_loop no_loop
  while_only :
      (l : ℤ) (c : Option LoopPredicate) (ss : StepList)
      → OneForm no_branches no_fan_out none no_for_each (loop l c ss) no_loop
  until_only :
      (l : ℤ) (c : Option LoopPredicate) (ss : StepList)
      → OneForm no_branches no_fan_out none no_for_each no_loop (loop l c ss)
  no_form : OneForm no_branches no_fan_out none no_for_each no_loop no_loop

pub one_form :
    (h : StepHead) (bs : BranchList) (fo : FanOut) (m : Option MapForm) (fe : ForEach)
    (dw du : LoopForm) (s : Option ℤ) (su : Option (Option ℕ))
    → control_count (step h bs fo m fe dw du s su) ≤ 1
    → OneForm bs fo m fe dw du
one_form h (one_branch n c ss bs) no_fan_out none no_for_each no_loop no_loop s su k =
    branches_only n c ss bs
one_form h no_branches (fan_out p w bs) none no_for_each no_loop no_loop s su k =
    fan_out_only p w bs
one_form h no_branches no_fan_out (some m) no_for_each no_loop no_loop s su k = map_only m
one_form h no_branches no_fan_out none (for_each w ss) no_loop no_loop s su k = for_each_only w ss
one_form h no_branches no_fan_out none no_for_each (loop l c ss) no_loop s su k = while_only l c ss
one_form h no_branches no_fan_out none no_for_each no_loop (loop l c ss) s su k = until_only l c ss
one_form h no_branches no_fan_out none no_for_each no_loop no_loop s su k = no_form
one_form h (one_branch n c ss bs) (fan_out _ _ _) m fe dw du s su k = absurd (omega (arith, k))
one_form h (one_branch n c ss bs) no_fan_out (some _) fe dw du s su k = absurd (omega (arith, k))
one_form h (one_branch n c ss bs) no_fan_out none (for_each _ _) dw du s su k =
    absurd (omega (arith, k))
one_form h (one_branch n c ss bs) no_fan_out none no_for_each (loop _ _ _) du s su k =
    absurd (omega (arith, k))
one_form h (one_branch n c ss bs) no_fan_out none no_for_each no_loop (loop _ _ _) s su k =
    absurd (omega (arith, k))
one_form h no_branches (fan_out _ _ _) (some _) fe dw du s su k = absurd (omega (arith, k))
one_form h no_branches (fan_out _ _ _) none (for_each _ _) dw du s su k = absurd (omega (arith, k))
one_form h no_branches (fan_out _ _ _) none no_for_each (loop _ _ _) du s su k =
    absurd (omega (arith, k))
one_form h no_branches (fan_out _ _ _) none no_for_each no_loop (loop _ _ _) s su k =
    absurd (omega (arith, k))
one_form h no_branches no_fan_out (some _) (for_each _ _) dw du s su k = absurd (omega (arith, k))
one_form h no_branches no_fan_out (some _) no_for_each (loop _ _ _) du s su k =
    absurd (omega (arith, k))
one_form h no_branches no_fan_out (some _) no_for_each no_loop (loop _ _ _) s su k =
    absurd (omega (arith, k))
one_form h no_branches no_fan_out none (for_each _ _) (loop _ _ _) du s su k =
    absurd (omega (arith, k))
one_form h no_branches no_fan_out none (for_each _ _) no_loop (loop _ _ _) s su k =
    absurd (omega (arith, k))
one_form h no_branches no_fan_out none no_for_each (loop _ _ _) (loop _ _ _) s su k =
    absurd (omega (arith, k))
