-- ===== src/Jobs/Tables.antt =====
-- The tables of the job logic (crates/entity/src/entity), without their row numbers, the times of
-- their last change and the columns that the logic leaves at the default. A JSON column is its
-- text, a time its milliseconds.
use jiascheduler.Base.{ℕ, Bool, String, Option, List, HashMap, Result}
use jiascheduler.Agent.Messages.{DispatchJobParams}
use jiascheduler.Workflow.Tables.{DispatchResult}

-- job_running_status
pub record JobRunningStatus : Type 0 where
  pub eid : String
  pub schedule_type : String
  pub instance_id : String
  pub schedule_id : String
  pub schedule_status : String
  pub run_status : String
  pub exit_status : String
  pub exit_code : ℕ
  pub job_type : String
  pub start_time : Option ℕ
  pub end_time : Option ℕ
  pub prev_time : Option ℕ
  pub next_time : Option ℕ
  pub updated_user : String
  pub is_deleted : Bool

-- job_exec_history
pub record JobExecHistory : Type 0 where
  pub schedule_id : String
  pub instance_id : String
  pub exit_status : String
  pub exit_code : ℕ
  pub output : String
  pub run_id : String
  pub eid : String
  pub start_time : Option ℕ
  pub end_time : Option ℕ
  pub bundle_script_result : Option String
  pub created_user : String
  pub job_type : String

-- The agent that a dispatch goes to, and a dispatch as it is kept
-- (crates/service/src/logic/job/types.rs).
pub record DispatchTarget : Type 0 where
  pub ip : String
  pub mac_addr : String
  pub namespace : String
  pub instance_id : String

pub record DispatchData : Type 0 where
  pub target : List DispatchTarget
  pub params : DispatchJobParams

-- job_schedule
pub record JobSchedule : Type 0 where
  pub id : ℕ
  pub name : String
  pub eid : String
  pub job_type : String
  pub snapshot_data : Option String
  pub actual_args : Option String
  pub created_user : String
  pub updated_user : String
  pub instance_ids : List String
  pub schedule_type : String
  pub action : String
  pub timer_expr : Option String
  pub restart_interval : ℕ

-- job_schedule_history
pub record JobScheduleHistory : Type 0 where
  pub schedule_pid : ℕ
  pub schedule_id : String
  pub name : String
  pub eid : String
  pub job_type : String
  pub schedule_type : String
  pub dispatch_result : List DispatchResult
  pub action : String
  pub dispatch_data : Option DispatchData
  pub snapshot_data : Option String
  pub actual_args : Option String
  pub created_user : String
  pub updated_user : String

-- A request that the logic has sent to another server: its address, headers and body.
pub record Post : Type 0 where
  pub url : String
  pub headers : HashMap String
  pub body : String

-- `next_schedule` is the number of the next row of `schedules`; `posts` are the requests sent.
pub record Records : Type 0 where
  pub running : List JobRunningStatus
  pub executions : List JobExecHistory
  pub schedules : List JobSchedule
  pub histories : List JobScheduleHistory
  pub next_schedule : ℕ
  pub posts : List Post

abbrev pub M : Type 0 → Type 0
M A = Records → Result String A × Records
