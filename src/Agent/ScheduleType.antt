-- ===== src/Agent/ScheduleType.antt =====
-- automate/src/scheduler/types.rs: how a job is scheduled.
use jiascheduler.Base.{String, ◌==◌, if◌then◌else◌, Result, ok, err}

pub data ScheduleType : Type 0 where
  once timer flow daemon : ScheduleType

-- `impl TryFrom<&str> for ScheduleType`.
unfoldable pub try_from : String → Result String ScheduleType
try_from value =
    if value == "once"
    then ok once
    else (if value == "flow"
        then ok flow
        else (if value == "timer"
            then ok timer
            else (if value == "daemon" then ok daemon else err "invalid schedule type")))

-- `impl fmt::Display for ScheduleType`.
unfoldable pub to_string : ScheduleType → String
to_string once = "once"
to_string timer = "timer"
to_string flow = "flow"
to_string daemon = "daemon"
