-- ===== src/Agent/ScheduleStatus.antt =====
-- automate/src/scheduler/types.rs: whether a timer or a supervisor is set up.
use jiascheduler.Base.{String}

pub data ScheduleStatus : Type 0 where
  prepare supervising unsupervised scheduling unscheduled : ScheduleStatus

-- `impl fmt::Display for ScheduleStatus`.
unfoldable pub to_string : ScheduleStatus → String
to_string prepare = "prepare"
to_string scheduling = "scheduling"
to_string unscheduled = "unscheduled"
to_string supervising = "supervising"
to_string unsupervised = "unsupervised"
