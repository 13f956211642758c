-- ===== src/Agent/EnumTexts.antt =====
-- Reading and printing the enums of automate/src/scheduler/types.rs.
use jiascheduler.Base.{◌≡◌, ◌↔◌, refl, String, eq_iff, ok, arith}
use jiascheduler.Agent.JobAction
use jiascheduler.Agent.JobAction.{JobAction}
use jiascheduler.Agent.ScheduleType
use jiascheduler.Agent.ScheduleType.{ScheduleType}

job_action_round_trip : (a : JobAction) → JobAction.try_from (JobAction.to_string a) ≡ ok a
unfolding JobAction.try_from JobAction.to_string
job_action_round_trip JobAction.todo = refl
job_action_round_trip JobAction.exec = refl
job_action_round_trip JobAction.kill = refl
job_action_round_trip _ = refl

job_action_text :
    (s : String) (a : JobAction) → JobAction.try_from s ≡ ok a → s ≡ JobAction.to_string a
unfolding JobAction.try_from JobAction.to_string
job_action_text s a h = ground (
  arith,
  eq_iff s "todo",
  eq_iff s "exec",
  eq_iff s "kill",
  eq_iff s "start_timer",
  eq_iff s "stop_timer",
  eq_iff s "start_supervising",
  eq_iff s "stop_supervising",
  eq_iff s "restart_supervising",
)

-- A text is read as a job action exactly when it is the text that the action prints.
pub job_action_read :
    (s : String) (a : JobAction) → (JobAction.try_from s ≡ ok a) ↔ (s ≡ JobAction.to_string a)
job_action_read s a = (job_action_text s a, λ e. rw e (job_action_round_trip a))

schedule_type_round_trip :
    (a : ScheduleType) → ScheduleType.try_from (ScheduleType.to_string a) ≡ ok a
unfolding ScheduleType.try_from ScheduleType.to_string
schedule_type_round_trip ScheduleType.once = refl
schedule_type_round_trip _ = refl

schedule_type_text :
    (s : String) (a : ScheduleType) → ScheduleType.try_from s ≡ ok a → s ≡ ScheduleType.to_string a
unfolding ScheduleType.try_from ScheduleType.to_string
schedule_type_text s a h =
    ground (arith, eq_iff s "once", eq_iff s "flow", eq_iff s "timer", eq_iff s "daemon")

-- A text is read as a schedule type exactly when it is the text that the type prints.
pub schedule_type_read :
    (s : String) (a : ScheduleType)
    → (ScheduleType.try_from s ≡ ok a) ↔ (s ≡ ScheduleType.to_string a)
schedule_type_read s a = (schedule_type_text s a, λ e. rw e (schedule_type_round_trip a))
