-- ===== src/Agent/RunStatus.antt =====
-- automate/src/scheduler/types.rs: the state of one execution of a job.
use jiascheduler.Base.{String}

pub data RunStatus : Type 0 where
  prepare running stop : RunStatus

-- `impl fmt::Display for RunStatus`.
unfoldable pub to_string : RunStatus → String
to_string prepare = "prepare"
to_string running = "running"
to_string stop = "stop"
