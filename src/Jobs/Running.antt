-- ===== src/Jobs/Running.antt =====
-- The row that a report writes to the table of running jobs (crates/service/src/logic/job/
-- schedule.rs, `update_job_status`). The table has one row for each job, kind of schedule and
-- instance: an insert of another one becomes an update of the columns in `update_values`.
pub mod Assignments
pub mod Board
use jiascheduler.Base.{
  ℕ, String, ◌==◌, Bool, true, false, ◌&&◌, Option, none, some, List, [], ◌∷◌, ◌++◌, any,
  update_where, if◌then◌else◌,
}
use jiascheduler.Agent.RunStatus
use jiascheduler.Agent.ScheduleType
use jiascheduler.Agent.ScheduleStatus
use jiascheduler.Agent.ScheduleStatus.{ScheduleStatus}
use jiascheduler.Agent.Messages.{UpdateJobParams}
use jiascheduler.Jobs.Tables.{JobRunningStatus}

pub data Column : Type 0 where
  schedule_id updated_user run_status exit_status schedule_status : String → Column
  exit_code : ℕ → Column
  is_deleted : Bool → Column
  start_time end_time prev_time next_time : Option ℕ → Column

-- `col = value` of an SQL update.
abbrev pub assign : JobRunningStatus → Column → JobRunningStatus
assign row (schedule_id v) = record row { schedule_id = v }
assign row (updated_user v) = record row { updated_user = v }
assign row (run_status v) = record row { run_status = v }
assign row (exit_status v) = record row { exit_status = v }
assign row (schedule_status v) = record row { schedule_status = v }
assign row (exit_code v) = record row { exit_code = v }
assign row (is_deleted v) = record row { is_deleted = v }
assign row (start_time v) = record row { start_time = v }
assign row (end_time v) = record row { end_time = v }
assign row (prev_time v) = record row { prev_time = v }
assign row (next_time v) = record row { next_time = v }

-- The assignments of an update, in their order.
abbrev pub assign_all : List Column → JobRunningStatus → JobRunningStatus
assign_all [] row = row
assign_all (c ∷ columns) row = assign_all columns (assign row c)

-- One or two assignments if there is a value.
abbrev pub if_some {ℓ} : {A : Type ℓ} → Option A → (A → List Column) → List Column
if_some none columns = []
if_some (some a) columns = columns a

abbrev pub unscheduled_next : Option ℕ → ScheduleStatus → List Column
unscheduled_next next ScheduleStatus.unscheduled = next_time next ∷ []
unscheduled_next next _ = []

unfoldable pub update_values : UpdateJobParams → List Column
update_values params =
    schedule_id params.schedule_id
      ∷ updated_user params.created_user
      ∷ is_deleted false
      ∷ if_some params.start_time (λ v. start_time (some v) ∷ end_time params.end_time ∷ [])
    ++ if_some params.schedule_status (unscheduled_next params.next_time)
    ++ if_some params.run_status (λ v. run_status (RunStatus.to_string v) ∷ [])
    ++ if_some params.exit_status (λ v. exit_status v ∷ [])
    ++ if_some params.exit_code (λ v. exit_code v ∷ [])
    ++ if_some params.schedule_status (λ v. schedule_status (ScheduleStatus.to_string v) ∷ [])
    ++ if_some params.prev_time (λ v. prev_time (some v) ∷ [])
    ++ if_some params.next_time (λ v. next_time (some v) ∷ [])

abbrev pub text_of {ℓ} : {A : Type ℓ} → (A → String) → String → Option A → String
text_of to_text default_ none = default_
text_of to_text default_ (some a) = to_text a

abbrev pub job_type_of {ℓ} : {A : Type ℓ} → Option A → String
job_type_of none = "default"
job_type_of (some scripts) = "bundle"

-- The row that the insert writes: what is not set has the column's default.
unfoldable pub new_status : UpdateJobParams → JobRunningStatus
new_status params = record {
  eid = params.base_job.eid;
  schedule_type = text_of ScheduleType.to_string "once" params.schedule_type;
  instance_id = params.instance_id;
  schedule_id = params.schedule_id;
  schedule_status = text_of ScheduleStatus.to_string "" params.schedule_status;
  run_status = text_of RunStatus.to_string "" params.run_status;
  exit_status = "";
  exit_code = 0;
  job_type = job_type_of params.base_job.bundle_script;
  start_time = params.start_time;
  end_time = none;
  prev_time = params.prev_time;
  next_time = none;
  updated_user = params.created_user;
  is_deleted = false;
}

-- The unique key of the table.
pub record Key : Type 0 where
  pub eid : String
  pub schedule_type : String
  pub instance_id : String

abbrev pub key_of : JobRunningStatus → Key
key_of row = record {
  eid = row.eid;
  schedule_type = row.schedule_type;
  instance_id = row.instance_id;
}

abbrev pub key_eq : Key → Key → Bool
key_eq a b =
    (a.eid == b.eid) && ((a.schedule_type == b.schedule_type) && (a.instance_id == b.instance_id))

abbrev pub has_key : Key → JobRunningStatus → Bool
has_key key row = key_eq (key_of row) key

-- `INSERT ... ON DUPLICATE KEY UPDATE`.
unfoldable pub upsert : UpdateJobParams → List JobRunningStatus → List JobRunningStatus
upsert params rows =
    let key = key_of (new_status params) in
    if any (has_key key) rows
    then update_where (has_key key) (assign_all (update_values params)) rows
    else rows ++ new_status params ∷ []
