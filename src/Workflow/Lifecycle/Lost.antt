-- ===== src/Workflow/Lifecycle/Lost.antt =====
-- A run that is resumed behind its last step, and what its record keeps of the resume input.
use lebro.Common.{ℕ, ◌<◌, ◌≡◌, refl, ap, ◌∙◌, sym, subst, true, Option, none, some, List, [], ◌∷◌}
use lebro.Workflow.Model.{RawMessage, CompiledSchema, World, succeeded, suspended, poll}
use lebro.Workflow.Tree.{CompiledStep, Steps, nil, cons, steps_weight}
use lebro.Workflow.State.{
  Engine, RunState, RunRecord, Snapshot, last_snapshot, last_output, terminal_record,
}
use lebro.Workflow.Frames.{Outcome, execute_frames, advance_top}
use lebro.Workflow.Resume.Correct.{stop_id, IsValidTree}
use lebro.Workflow.Success.{nothing_left}
use lebro.Workflow.Lifecycle.{
  Call, resumed, resuming, resume_state, meets_contract, contract_of, wakes, steps_suspend_schema,
  resume,
}
use lebro.Workflow.Lifecycle.Newest.{SuspendedUpTo}
use lebro.Workflow.Lifecycle.Continue.{IsOpen, goes_on, resume_continues}

resumed_inj : {x y : Option Outcome} → resumed x ≡ resumed y → x ≡ y
resumed_inj e = cc

behind_last :
    (frames : List Steps) (s : CompiledStep)
    → frames ≡ cons s nil ∷ []
    → advance_top frames ≡ nil ∷ []
unfolding advance_top
behind_last frames s e = ap advance_top e

-- The stored record says that the run succeeded, and its output is the last of `completed`.
abbrev pub Kept : List RawMessage → Outcome → Type 0
Kept completed o =
    (r : RunRecord) × (o.state.db.run ≡ some r)
    × (r.status ≡ succeeded)
    × (r.output ≡ last_output completed)

-- The executor behind the last step of a run.
lost_behind :
    (m : ℕ) (eng : Engine) (o o' : Outcome) (s : CompiledStep) (input : RawMessage) (w : World)
    → eng.bound ≡ true
    → o.frames ≡ cons s nil ∷ []
    → goes_on m eng o input w ≡ some o'
    → o'.result.status ≡ succeeded
    → (o'.result.output ≡ input) × Kept o.state.completed o'
unfolding terminal_record
lost_behind m eng o o' s input w bound ends run done =
    let st : RunState =
      resume_state (advance_top o.frames)
        (record {
          step = o.state.position;
          step_id = stop_id o.frames;
          output = [];
          outputs = o.state.completed;
          suspend = none;
          path = o.state.path;
          sequence = 0;
        })
        input w o.state.db in
    let left : execute_frames m (resuming eng) (nil ∷ []) st ≡ some o' =
      subst (λ (fs : List Steps). execute_frames m (resuming eng) fs st ≡ some o')
        (behind_last o.frames s ends) run in
    let (out, stored, kept) = nothing_left (resuming eng) bound m st o' left done in
    (out, (terminal_record succeeded none o'.state, stored, refl, kept))

-- A run whose last step suspended for input loses that input in its record: when Resume goes on
-- behind that step, under the conditions under which it does, and the resumed run succeeds, then
-- the run returns the resume input as its output, but the record that is stored for it, succeeded
-- as well, has the last output completed before the suspension.
pub resume_loses_input :
    (n m : ℕ) (eng : Engine) (call : Call) (steps : Steps) (st : RunState) (o : Outcome) (w : World)
    (snap : Snapshot) (schema : CompiledSchema) (input : RawMessage) (s : CompiledStep)
    (o' : Outcome)
    → eng.bound ≡ true
    → IsOpen call
    → IsValidTree steps
    → st.path ≡ []
    → SuspendedUpTo st.position st.db.snapshots
    → execute_frames n eng (steps ∷ []) st ≡ some o
    → o.result.status ≡ suspended
    → eng.env.context w.polls ≡ none
    → steps_weight steps < m
    → last_snapshot o.state.db.snapshots ≡ some snap
    → wakes snap ≡ none
    → steps_suspend_schema (stop_id o.frames) steps ≡ some schema
    → schema input ≡ true
    → meets_contract call input (contract_of snap) ≡ true
    → o.frames ≡ cons s nil ∷ []
    → resume m eng call steps input w o.state.db ≡ resumed (some o')
    → o'.result.status ≡ succeeded
    → (o'.result.output ≡ input) × Kept o.state.completed o'
resume_loses_input n m eng call steps st o w snap schema input s o' bound op valid fresh older run
      sus alive fuel last asleep has accepted met ends answer done =
    let goes =
      resume_continues n m eng call steps st o w snap schema input bound op valid fresh older run
        sus alive fuel last asleep has accepted met in
    lost_behind m eng o o' s input (poll eng.env w).1 bound ends (resumed_inj (sym goes ∙ answer))
      done
