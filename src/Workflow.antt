-- ===== src/Workflow.antt =====
-- internal/runtime/workflow.go: the linear workflow engine.
pub mod Model
pub mod Tree
pub mod State
pub mod Retry
pub mod Exits
pub mod Frames
pub mod Resume
pub mod Durable
pub mod Announce
pub mod Success
pub mod Lifecycle
pub mod Definition
pub mod StepChecks
pub mod Validation
pub mod Construction
pub mod FanOut
pub mod Join
pub mod Loop
mod Tests
