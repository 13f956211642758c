-- ===== src/Jobs.antt =====
-- The server's logic of jobs (crates/service/src/logic/job): what it records of the runs that the
-- agents report, and how it schedules a job on them.
pub mod Tables
pub mod Services
pub mod Running
pub mod Callback
pub mod Report
pub mod Push
pub mod Prepare
pub mod Schedule
pub mod Actions
pub mod Runnable
mod Tests
