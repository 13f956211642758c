-- ===== src/Workflow.antt =====
-- The workflow engine of the server, crates/service/src/logic/workflow.
pub mod Enums
pub mod Tables
pub mod Condition
pub mod Graph
pub mod Check
pub mod Store
pub mod Dispatch
pub mod Flow
pub mod Status
pub mod Start
pub mod Removal
pub mod Rights
mod Tests
