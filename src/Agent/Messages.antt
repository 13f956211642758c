-- ===== src/Agent/Messages.antt =====
-- automate/src/bridge/msg.rs: the parameters of the messages between the agent and the server.
-- A JSON value that the agent only carries along is its text, a `String`; a `Duration` is its
-- nanoseconds; a time is the number of milliseconds that chrono gives for it.
use jiascheduler.Base.{ℕ, Bool, String, Option, none, some, List, map, HashMap}
use jiascheduler.Agent.JobAction.{JobAction}
use jiascheduler.Agent.ScheduleType.{ScheduleType}
use jiascheduler.Agent.RunStatus.{RunStatus}
use jiascheduler.Agent.ScheduleStatus.{ScheduleStatus}
use jiascheduler.Agent.BaseJob.{BaseJob, BundleOutput, Output, output, bundle, get_exit_code}

pub data RuntimeAction : Type 0 where
  kill stop_timer start_supervising restart_supervising stop_supervising : RuntimeAction

pub record TimerExpr : Type 0 where
  pub timezone : String
  pub expr : String

pub record DispatchJobParams : Type 0 where
  pub base_job : BaseJob
  pub schedule_id : String
  pub instance_id : Option String
  pub run_id : String
  pub fields : Option String
  pub timer_expr : Option TimerExpr
  pub restart_interval : Option ℕ
  pub is_sync : Bool
  pub created_user : String
  pub action : JobAction

pub record RuntimeActionParams : Type 0 where
  pub eid : String
  pub fields : Option (HashMap String)
  pub is_sync : Bool
  pub created_user : String
  pub action : RuntimeAction

pub record BundleOutputParams : Type 0 where
  pub eid : String
  pub exit_code : Option ℕ
  pub exit_status : Option String
  pub stdout : Option String
  pub stderr : Option String

pub record UpdateJobParams : Type 0 where
  pub schedule_id : String
  pub schedule_type : Option ScheduleType
  pub base_job : BaseJob
  pub fields : Option String
  pub instance_id : String
  pub bind_ip : String
  pub bind_namespace : String
  pub run_status : Option RunStatus
  pub schedule_status : Option ScheduleStatus
  pub exit_code : Option ℕ
  pub exit_status : Option String
  pub stdout : Option String
  pub stderr : Option String
  pub created_user : String
  pub bundle_output : Option (List BundleOutputParams)
  pub run_id : String
  pub start_time : Option ℕ
  pub end_time : Option ℕ
  pub prev_time : Option ℕ
  pub next_time : Option ℕ
  pub is_timeout : Bool

abbrev pub bundle_entry : String × Output → BundleOutputParams
bundle_entry (eid, v) = record {
  eid = eid;
  exit_code = get_exit_code (BundleOutput.output v);
  exit_status = some v.status;
  stdout = some v.stdout;
  stderr = some v.stderr;
}

-- `BundleOutputParams::parse`; the order of a `HashMap` is that of insertion.
unfoldable pub parse : BundleOutput → Option (List BundleOutputParams)
unfolding get_exit_code
parse (output v) = none
parse (bundle v) = some (map bundle_entry v)
