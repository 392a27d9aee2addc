-- ===== src/Workflow/Join.antt =====
-- The join of executeFanOut: from the branches' outcomes, in declaration order, to the step's
-- output or error. `ctx_done i` is whether the run's own context is found finished when the loop
-- reads it at branch `i`. The joined output is the list that is encoded; the encoding of decoded values
-- does not fail.
pub mod Failures
mod Tests
use lebro.Common.{
  ℕ, zero, suc, ◌+◌, String, Bool, true, false, not, ◌&&◌, Option, none, some, List, [], ◌∷◌,
  if◌then◌else◌,
}
use lebro.Workflow.Model.{
  RawMessage, StepId, RunStatus, succeeded, failed, cancelled, running, suspended,
}
use lebro.Workflow.State.{
  ErrorKind, cancelled_run, fan_out_input_mapper_failed, fan_out_branch_failed, WorkflowError,
}
use lebro.Workflow.FanOut.{BranchOutcome}

-- FanOutBranchResult; a failure carries the workflow error's data.
pub record BranchResult : Type 0 where
  pub name : String
  pub status : RunStatus
  pub output : RawMessage
  pub failure : Option WorkflowError

abbrev pub is_success : RunStatus → Bool
is_success succeeded = true
is_success _ = false

abbrev pub is_cancelled_status : RunStatus → Bool
is_cancelled_status cancelled = true
is_cancelled_status _ = false

abbrev pub is_cancellation : WorkflowError → Bool
is_cancellation e = elim e.kind [ cancelled_run ↦ true | _ ↦ false ]

unfoldable pub branch_result : String → BranchOutcome → BranchResult
branch_result name o =
    if is_success o.status
    then record { name = name; status = o.status; output = o.output; failure = none }
    else record { name = name; status = o.status; output = []; failure = o.failure }

-- The variables of the loop over the outcomes.
pub record Joining : Type 0 where
  pub status : RunStatus
  pub primary : Option WorkflowError

abbrev note_status : BranchOutcome → RunStatus → RunStatus
note_status o status = if is_success o.status then status else elim o.failure [
  | none ↦ status
  | some e ↦ if is_cancelled_status status then status else failed
]

unfoldable pub join_one : Bool → BranchOutcome → Joining → Joining
join_one done o j =
    let status = note_status o j.status in
    elim o.failure [
      | none ↦ record { status = status; primary = j.primary }
      | some e ↦ elim j.primary [
        | some p ↦ record { status = status; primary = some p }
        | none ↦
            if is_cancellation e
            then (if done
                then record { status = cancelled; primary = some e }
                else record { status = status; primary = none })
            else record { status = status; primary = some e }
      ]
    ]

unfoldable pub join_loop :
    (ℕ → Bool) → ℕ → List (String × BranchOutcome) → Joining → List BranchResult × Joining
unfolding branch_result join_one
join_loop ctx_done i [] j = ([], j)
join_loop ctx_done i ((name, o) ∷ rest) j =
    let (results, j') = join_loop ctx_done (i + 1) rest (join_one (ctx_done i) o j) in
    (branch_result name o ∷ results, j')

-- The error that wraps the primary one.
unfoldable pub wrap_primary : ℕ → WorkflowError → WorkflowError
wrap_primary position e = record {
  kind = elim e.kind [
    | cancelled_run ↦ cancelled_run
    | fan_out_input_mapper_failed ↦ fan_out_input_mapper_failed
    | _ ↦ fan_out_branch_failed
  ];
  step = position;
  step_id = e.step_id;
}

-- json.Unmarshal of a text into a variable of type any that is nil: the value that is in it then, which is
-- `null` if the text is no JSON, and may be another number than the text shows.
pub record Decoding (V : Type 0) : Type 0 where
  pub null : V
  pub decode : RawMessage → V

-- What the step gets: the joined output, or the error; and the join record in either case.
pub record Joined (V : Type 0) : Type 0 where
  pub status : RunStatus
  pub branches : List BranchResult
  pub result : Option (List (String × V))
  pub failure : Option WorkflowError

-- The value of one output; an empty one is not decoded.
unfoldable pub output_value : {V : Type 0} → Decoding V → RawMessage → V
output_value json [] = json.null
output_value json (b ∷ bs) = json.decode (b ∷ bs)

-- buildFanOutJoinedOutput.
unfoldable pub joined_output : {V : Type 0} → Decoding V → List BranchResult → List (String × V)
unfolding output_value
joined_output json [] = []
joined_output json (r ∷ rs) = (r.name, output_value json r.output) ∷ joined_output json rs

unfoldable pub join :
    {V : Type 0} → Decoding V → (ℕ → Bool) → ℕ → StepId → List (String × BranchOutcome) → Joined V
unfolding join_loop wrap_primary joined_output
join json ctx_done position id outcomes =
    let (results, j) =
      join_loop ctx_done 0 outcomes (record { status = succeeded; primary = none }) in
    let primary : Option WorkflowError = elim j.primary [
      | some e ↦ some e
      | none ↦
          if is_cancelled_status j.status
          then some (record { kind = cancelled_run; step = position; step_id = id })
          else none
    ] in
    elim primary [
      | some e ↦ record {
        status = j.status;
        branches = results;
        result = none;
        failure = some (wrap_primary position e);
      }
      | none ↦ record {
        status = j.status;
        branches = results;
        result = some (joined_output json results);
        failure = none;
      }
    ]
