-- ===== src/Agent.antt =====
-- The agent, automate/src: what runs on every managed host.
pub mod JobAction
pub mod ScheduleType
pub mod RunStatus
pub mod ScheduleStatus
pub mod BaseJob
pub mod EnumTexts
pub mod Messages
pub mod Contexts
pub mod Executor
pub mod React
pub mod Execution
pub mod Schedules
pub mod Supervisors
pub mod Timers
mod Tests
