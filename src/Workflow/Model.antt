-- ===== src/Workflow/Model.antt =====
-- The data of internal/runtime/workflow.go that the engine's parts share: errors, retry policies,
-- events, and the world that the engine acts on.
use lebro.Common.{ℕ, ◌+◌, String, Bool, true, Option, none, some, List, [], ◌∷◌, ◌++◌, ℤ}

-- json.RawMessage: the bytes of a JSON text.
abbrev pub RawMessage : Type 0
RawMessage = List ℕ

abbrev pub StepId : Type 0
StepId = String

-- A compiled schema is what the configured compiler returned: the values that it accepts.
abbrev pub CompiledSchema : Type 0
CompiledSchema = RawMessage → Bool

-- The two errors of a finished context.
pub data ContextError : Type 0 where
  canceled deadline_exceeded : ContextError

pub record SuspendSignal : Type 0 where
  pub step_id : StepId
  pub contract : RawMessage
  pub payload : RawMessage

-- A handler's error, as far as the engine tells errors apart: one that carries a suspend signal,
-- one that matches ErrWorkflowSuspend and carries none, one that wraps a context error, any other.
pub data HandlerError : Type 0 where
  suspend_error : SuspendSignal → HandlerError
  suspend_sentinel : HandlerError
  context_error : ContextError → HandlerError
  plain_error : ℕ → HandlerError

-- What `invokeStepHandler` hands back.
pub data Handled : Type 0 where
  returned : RawMessage → Handled
  panicked : ℕ → Handled
  erred : HandlerError → Handled

-- A handler may answer each of its invocations differently: it is given the number of handler
-- invocations made before it.
abbrev pub Handler : Type 0
Handler = ℕ → RawMessage → Handled

pub record RetryPolicy : Type 0 where
  pub attempts : ℤ
  pub delay : ℤ
  pub retryable : Option (HandlerError → Bool)

pub data RunStatus : Type 0 where
  running suspended succeeded failed cancelled : RunStatus

-- The text that names a child's place: its fan-out branch, its item or its round.
pub data ChildLabel : Type 0 where
  branch_named : String → ChildLabel
  item iteration : ℕ → ChildLabel

pub data Event : Type 0 where
  step_started : ℕ → StepId → Event
  step_finished : ℕ → StepId → Bool → Event
  attempt_started : ℕ → StepId → ℕ → ℤ → Event
  attempt_finished : ℕ → StepId → ℕ → ℤ → Bool → Event
  branch_selected : ℕ → StepId → String → Event
  -- step_started and step_finished of a child
  child_started : ℕ → StepId → ChildLabel → Event
  child_finished : ℕ → StepId → ChildLabel → Bool → Event
  run_started : Event
  run_resumed : ℕ → StepId → Event
  loop_started : ℕ → StepId → ℕ → Event
  loop_finished : ℕ → StepId → ℕ → Bool → Event
  run_suspended : ℕ → StepId → Event
  run_terminal : ℕ → StepId → RunStatus → Event

-- What the engine does to the outside: it polls the context, invokes handlers, emits events.
-- `polls` and `calls` count, and the environment answers by the count.
pub record World : Type 0 where
  pub polls : ℕ
  pub calls : ℕ
  pub events : List Event

-- The environment: the context's answer at each poll.
pub record Env : Type 0 where
  pub context : ℕ → Option ContextError

abbrev pub emit : Event → World → World
emit e w = record w { events = w.events ++ e ∷ [] }

-- ctx.Err(), and equally the wait of `select` on a timer and ctx.Done().
abbrev pub poll : Env → World → Option ContextError × World
poll env w = (env.context w.polls, record w { polls = w.polls + 1 })

-- validateStepValue: no schema accepts everything.
abbrev pub accepts : Option CompiledSchema → RawMessage → Bool
accepts none v = true
accepts (some schema) v = schema v
