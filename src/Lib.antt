-- ===== src/Lib.antt =====
-- A model of the durable workflow engine of this repository and of smaller parts beside it, and
-- theorems about them.
--
-- The engine (internal/runtime/workflow.go) runs a tree of steps. A step has a handler, or sleeps,
-- or reshapes its input, or loops over child steps, or selects one of several branches.
-- `executeFrames` walks the tree on a stack of frames;
-- `runStepWithRetry` invokes one handler under a retry policy; the persist functions write the run
-- record and the snapshots; `resumeFrames` rebuilds the stack of a suspended run,
-- for `Resume` and `resumeWake`, which check a call against the stored run before the executor goes
-- on; `NewLinearWorkflow` checks a definition and compiles it to the tree;
-- `executeFanOutBranch` and the join of `executeFanOut` run the branches of a fan-out step.
--
-- The scheduler (internal/runtime/scheduler.go) loads the schedules that are due from a store, runs
-- their workflows, or resumes the sleeping run that a wakeup names, records each fire, and has
-- the cron schedule say when the next one is due.
--
-- The files, and what they model (functions of internal/runtime/workflow.go where no other file
-- is named):
--   Common: names of the libraries, Boolean tests, the Go integers, membership in lists.
--   Workflow/Model: errors, suspend signals, retry policies, events; the world that the engine acts
--     on (a count of context reads, a count of handler invocations, the events emitted).
--   Workflow/Tree: compiledStep, compiledBranch, selectBranch.
--   Workflow/Retry: DefaultRetryable, RetryPolicy, resolveRetryPolicy, runStepWithRetry.
--     Its children hold the bounds, the runs that succeed or fail, and the events.
--   Workflow/State: the variables of executeFrames, the run record and the snapshots, persistStep,
--     persistSuspend, persistSleep, persistTerminal.
--   Workflow/Exits: the exits that the steps of executeFrames share.
--   Workflow/Frames: executeFrames. Frames/Termination bounds its rounds, Frames/Rounds says what a
--     round does to frames and path, Frames/Rule is the invariant rule of its loop.
--   Workflow/Resume: resumeFrames. Resume/Ids holds the step IDs of a stack, Resume/Rounds its
--     rounds, Resume/Correct the agreement with the executor.
--   Workflow/Lifecycle: Resume, resumeWake, loadSuspendSnapshot, suspendSchemaForStep. Lifecycle/Newest
--     is about the snapshot that is found, Lifecycle/Continue, Rejected and Total about the calls, Lost about
--     the output of a run that is resumed behind its last step.
--   Workflow/Definition: Step and StepDefinition, as a caller writes them. Workflow/StepChecks and
--     Workflow/Validation: validateStepTree. Validation/Spec says what it is to ensure of a tree,
--     Validation/Walks, OneForm, Forms and Sound are its proof, Validation/Schemas and Quiet
--     are about the schemas that it notes.
--   Workflow/Construction: NewLinearWorkflow and newCompiledStep, from a definition to the tree of the
--     executor. Construction/Apart, Forms, Parts, Kept and Valid are about what is built,
--     Construction/Safe about panics.
--   Workflow/Durable, Workflow/Announce, Workflow/Success: the store, the final events and the output
--     of a run.
--   Workflow/FanOut, Workflow/Join: executeFanOutBranch and the join of executeFanOut. What
--     json.Unmarshal makes of the output of a branch is a parameter, `Decoding`.
--   Workflow/Loop: executeLoop and persistLoopCheckpoint.
--   Fallback: the walk along a chain of model providers (internal/runtime/fallback.go).
--   Dedup: the deduplicators of channels/dedup.go, and the threads of the in-memory store that they use
--     (internal/runtime/memory_storage.go).
--   Chunker: CharacterChunker (internal/runtime/rag_chunker.go).
--   Compaction: the boundary search and the replacement of history
--     (internal/runtime/context_compaction.go). Compaction/Closed is about the
--     boundaries, Compaction/Boundary about the search.
--   Cron: CronSchedule, ParseCronSpec and Next (internal/runtime/cron.go). Cron/Time is what it takes from
--     the time package; Cron/Spelled says how a field is written, Fields, Parts,
--     Readings and Marks are about what it names, Cron/Search about Next,
--     Cron/Months is a calendar for tests. Strings: strings and strconv of Go on lists of bytes.
--   Schedules: the records of internal/runtime/schedule.go and the part of the in-memory store for
--     them (internal/runtime/memory_storage.go), with its lists and pages in Schedules/Pages.
--     Schedules/Saved is about what is found again, Schedules/Whole about what is listed.
--   Scheduler: the state of internal/runtime/scheduler.go, claims and collectMissed. Scheduler/Fires holds
--     persist, advance and fireWakeup, Scheduler/Ticks fireSchedule and the loop of Tick,
--     Scheduler/Loads loadDue and Tick. Missed is about the occurrences, Persisted about the
--     store, Owned, Settled, Counted and Once about what a fire leaves, Claims about what is in
--     flight, Whole about a tick.
--   The files named Tests run the definitions on concrete data.
--
-- Conventions. A JSON text is the list of its bytes. A compiled schema is a test on such texts; the
-- schema compiler is third-party code. A handler is a function of the number of invocations made
-- before and of its input, so that it may answer differently each time. A context is a function of
-- the number of reads made before; waiting for a timer is one such read. A store is a function that
-- says which of its transactions fail. The clock is a function of the number of context reads. For the
-- scheduler an instant is a number of nanoseconds, the store is the in-memory one, and a workflow is a
-- function of the state of the scheduler, so that it may do anything to the store while it runs,
-- another tick included.
--
-- Fuel. `execute_frames` and `resume_frames` run on fuel, and `run_children` as well; the weight
-- of the step tree (Tree.steps_weight) bounds the rounds of the first two, as the termination theorem
-- and the theorem on resumption state. `chunk` runs on fuel too, and the
-- length of the document is enough. `retry_loop` recurses on the attempts left, as its source counts them.
-- The scan of Next has a round for each minute before its limit, collectMissed one for each nanosecond
-- from the first due occurrence to now, loadDue one for each schedule, and the steps of a field one
-- for each value: their theorems show that none runs out.
--
-- Not modelled: foreach steps and the fan-out step inside the executor; Run around it; the store,
-- clock and policy of a configuration; the schedule of fan-out goroutines; the JSON encoding,
-- metadata, times and error texts of the engine's records and events; the background loop
-- of the scheduler; the agents, SQL storage, adapters and servers.
pub mod Chunker
pub mod Common
pub mod Compaction
pub mod Cron
pub mod Dedup
pub mod Fallback
pub mod Scheduler
pub mod Schedules
pub mod Strings
pub mod Workflow
