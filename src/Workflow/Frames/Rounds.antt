-- ===== src/Workflow/Frames/Rounds.antt =====
-- What a round of executeFrames does to the frames and to the path.
use lebro.Common.{
  ◌≡◌, String, Option, none, some, [], ◌∷◌, ◌++◌, ◌⊎◌, inl, arith, str_eq, if◌then◌else◌,
}
use lebro.Workflow.Model.{RawMessage}
use lebro.Workflow.Loop.Keeps.{loop-Keeps, begun}
use lebro.Workflow.Tree.{
  CompiledStep, task, sleep, mapping, looping, branching, Steps, Branches, no_more, branch,
  entry_id, Selection, selected, condition_failed, no_branch_matched, find_branch, first_match,
  select_branch,
}
use lebro.Workflow.State.{Engine, RunState}
use lebro.Workflow.Frames.{next, enter, leave, Ended, visit}

abbrev pub IsBranchOf : Steps → Branches → Type 0
IsBranchOf t no_more = ⊥
IsBranchOf t (branch _ _ steps rest) = (t ≡ steps) ⊎ IsBranchOf t rest

abbrev pub branches_of : CompiledStep → Branches
branches_of (branching _ bs _) = bs
branches_of _ = no_more

find_branch-IsBranchOf :
    (name n : String) (bs : Branches) (t : Steps)
    → find_branch name bs ≡ selected n t
    → IsBranchOf t bs
unfolding find_branch
find_branch-IsBranchOf name n no_more t h = cc
find_branch-IsBranchOf name n (branch m c steps rest) t h =
    ground (arith, find_branch-IsBranchOf name n rest t)

first_match-IsBranchOf :
    (fallback : Selection) (input : RawMessage) (n : String) (bs : Branches) (t : Steps)
    → first_match fallback input bs ≡ selected n t
    → (fallback ≡ selected n t) ⊎ IsBranchOf t bs
unfolding first_match
first_match-IsBranchOf fallback input n no_more t h = inl h
first_match-IsBranchOf fallback input n (branch m c steps rest) t h =
    ground (arith, first_match-IsBranchOf fallback input n rest t)

select_branch-IsBranchOf :
    (bs : Branches) (default : String) (input : RawMessage) (n : String) (t : Steps)
    → select_branch bs default input ≡ selected n t
    → IsBranchOf t bs
unfolding select_branch
select_branch-IsBranchOf bs default input n t h = ground (
  arith,
  first_match-IsBranchOf (if str_eq default "" then no_branch_matched else find_branch default bs)
      input n bs t h,
  find_branch-IsBranchOf default n bs t,
)

abbrev selected_steps : Selection → Option Steps
selected_steps (selected _ t) = some t
selected_steps _ = none

selected_steps_name :
    (sel : Selection) (t : Steps)
    → selected_steps sel ≡ some t
    → (n : String) × (sel ≡ selected n t)
selected_steps_name (selected n u) t h = (n, ground arith)
selected_steps_name condition_failed t h = cc
selected_steps_name no_branch_matched t h = cc

selected_steps-IsBranchOf :
    (bs : Branches) (default : String) (input : RawMessage) (t : Steps)
    → selected_steps (select_branch bs default input) ≡ some t
    → IsBranchOf t bs
selected_steps-IsBranchOf bs default input t h =
    let (n, e) = selected_steps_name (select_branch bs default input) t h in
    select_branch-IsBranchOf bs default input n t e

-- A round that enters a list of steps does so at a branching step that has them for a branch.
pub visit_enter :
    (eng : Engine) (s : CompiledStep) (st : RunState) (t : Steps) (st' : RunState)
    → visit eng s st ≡ enter t st'
    → IsBranchOf t (branches_of s) × (st'.path ≡ st.path ++ entry_id t ∷ [])
unfolding visit
visit_enter eng (task i) st t st' h = ground arith
visit_enter eng (sleep i wake) st t st' h = ground arith
visit_enter eng (mapping i f) st t st' h = ground arith
visit_enter eng (looping i c ss) st t st' h =
    ground (arith, loop-Keeps eng (record { steps = ss; config = c }) i.id st.current (begun i st))
visit_enter eng (branching i bs default) st t st' h =
    ground (arith, selected_steps-IsBranchOf bs default st.current t)

pub visit-next_path :
    (eng : Engine) (s : CompiledStep) (st : RunState) (st' : RunState)
    → visit eng s st ≡ next st'
    → st'.path ≡ st.path
unfolding visit
visit-next_path eng (task i) st st' h = ground arith
visit-next_path eng (sleep i wake) st st' h = ground arith
visit-next_path eng (mapping i f) st st' h = ground arith
visit-next_path eng (looping i c ss) st st' h =
    ground (arith, loop-Keeps eng (record { steps = ss; config = c }) i.id st.current (begun i st))
visit-next_path eng (branching i bs default) st st' h = ground arith

pub visit_leave_path :
    (eng : Engine) (s : CompiledStep) (st : RunState) (e : Ended) (st' : RunState)
    → visit eng s st ≡ leave e st'
    → st'.path ≡ st.path
unfolding visit
visit_leave_path eng (task i) st e st' h = ground arith
visit_leave_path eng (sleep i wake) st e st' h = ground arith
visit_leave_path eng (mapping i f) st e st' h = ground arith
visit_leave_path eng (looping i c ss) st e st' h =
    ground (arith, loop-Keeps eng (record { steps = ss; config = c }) i.id st.current (begun i st))
visit_leave_path eng (branching i bs default) st e st' h = ground arith
