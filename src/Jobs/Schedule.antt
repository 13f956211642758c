-- ===== src/Jobs/Schedule.antt =====
-- How a job is scheduled on instances (crates/service/src/logic/job/schedule.rs). The identifiers
-- that are drawn are in the request; the row numbers that are returned are left out.
pub mod Outcome
use jiascheduler.Base.{
  ℕ, ◌/◌, ◌%◌, ◌+◌, ◌^◌, nat_eq, String, ◌==◌, Bool, true, false, ◌||◌, Option, none, some, List,
  [], ◌∷◌, ◌++◌, map, Result, ok, err, ok_or, ◌>>=◌, any, find, insert, update_where, HashMap,
  format, if◌then◌else◌,
}
use jiascheduler.BatchDo.{async_batch_do, always}
use jiascheduler.Agent.JobAction
use jiascheduler.Agent.JobAction.{JobAction}
use jiascheduler.Agent.ScheduleType
use jiascheduler.Agent.ScheduleType.{ScheduleType}
use jiascheduler.Agent.BaseJob.{BaseJob, BundleScript, UploadFile}
use jiascheduler.Agent.Messages.{DispatchJobParams, TimerExpr}
use jiascheduler.Workflow.Tables.{DispatchResult}
use jiascheduler.Workflow.Store.{Fault, failed, panicked, or_failed}
use jiascheduler.Jobs.Tables.{
  Records, JobSchedule, JobScheduleHistory, DispatchData, DispatchTarget,
}
use jiascheduler.Jobs.Services.{Job, BundleScriptRecord}
use jiascheduler.Jobs.Push.{Network, push, push_again}
use jiascheduler.Jobs.Prepare.{Sources, ScheduleRequest, Prepared, prepare, map_some}

-- The row of the job's schedule, with the number that the caller names: a restart is kept as a
-- start.
abbrev kept_action : JobAction → JobAction
kept_action JobAction.restart_supervising = JobAction.start_supervising
kept_action action = action

-- `as_secs() as i32`, by its 32 bits.
abbrev seconds : Option ℕ → ℕ
seconds none = 0
seconds (some nanoseconds) = (nanoseconds / 1000000000) % 2 ^ 32

module _ (sources : Sources) where
  abbrev new_schedule : ScheduleRequest → Option (HashMap String) → ℕ → JobSchedule
  unfolding ScheduleType.to_string JobAction.to_string
  new_schedule req args id = record {
    id = id;
    name = req.schedule_name;
    eid = req.job_record.eid;
    job_type = req.job_record.job_type;
    snapshot_data = some (sources.print_job req.job_record);
    actual_args = some (sources.print_args args);
    created_user = req.created_user;
    updated_user = req.created_user;
    instance_ids = req.instance_ids;
    schedule_type = ScheduleType.to_string req.schedule_type;
    action = JobAction.to_string req.action;
    timer_expr = map_some sources.print_timer req.timer_expr;
    restart_interval = seconds req.restart_interval;
  }

  -- The row of the schedule: its number, and the tables after.
  unfoldable pub save_parent :
      ScheduleRequest → Option (HashMap String) → Option ℕ → Records → ℕ × Records
  unfolding JobAction.to_string new_schedule
  save_parent req args (some pid) s = (
    pid,
    record s {
      schedules =
          update_where (λ row. nat_eq row.id pid)
            (λ row. record row { action = JobAction.to_string (kept_action req.action) })
            s.schedules;
    },
  )
  save_parent req args none s = (
    s.next_schedule,
    record s {
      schedules = s.schedules ++ new_schedule req args s.next_schedule ∷ [];
      next_schedule = s.next_schedule + 1;
    },
  )

  abbrev no_content : UploadFile → UploadFile
  no_content v = record v { content = none }

  -- The uploaded file is kept without its content.
  abbrev without_file : DispatchData → DispatchData
  without_file data_ = record data_ {
    params = record data_.params {
      base_job = record data_.params.base_job {
        upload_file = map_some no_content data_.params.base_job.upload_file;
      };
    };
  }

  unfoldable pub new_history :
      ScheduleRequest → Prepared → List DispatchResult → ℕ → JobScheduleHistory
  unfolding ScheduleType.to_string JobAction.to_string
  new_history req prepared dispatch_result schedule_pid = record {
    schedule_pid = schedule_pid;
    schedule_id = req.schedule_id;
    name = req.schedule_name;
    eid = req.job_record.eid;
    job_type = prepared.job_type;
    schedule_type = ScheduleType.to_string req.schedule_type;
    dispatch_result = dispatch_result;
    action = JobAction.to_string req.action;
    dispatch_data = some (without_file prepared.data_);
    snapshot_data = some (sources.print_job req.job_record);
    actual_args = some (sources.print_args prepared.job_actual_args);
    created_user = req.created_user;
    updated_user = req.created_user;
  }

abbrev pub all_sent : List DispatchResult → Result Fault (Unit {0})
all_sent results =
    if any (λ v. v.has_err) results then err (failed "Partial job scheduling failed") else ok tt

-- `v.unwrap()` of each result: an error is a panic.
abbrev pub unwrap_all : List (Result String DispatchResult) → Result Fault (List DispatchResult)
unwrap_all [] = ok []
unwrap_all (err e ∷ results) = err panicked
unwrap_all (ok v ∷ results) = unwrap_all results >>= λ (rest : List DispatchResult). ok (v ∷ rest)

module _ (network : Network) (sources : Sources) where
  abbrev pub push_all : String → DispatchData → Result Fault (List DispatchResult)
  push_all secret data_ =
      unwrap_all
        (async_batch_do network.schedule data_.target (always (push network secret data_.params)))

  -- What is kept of a request, once the pushes are over.
  unfoldable pub schedule_pushed :
      ScheduleRequest
      → Prepared
      → Result Fault (List DispatchResult)
      → Records
      → Result Fault (Unit {0}) × Records
  schedule_pushed req prepared (err e) s = (err e, s)
  schedule_pushed req prepared (ok results) s =
      let (schedule_pid, t) = save_parent sources req prepared.job_actual_args req.schedule_pid s in
      (
        all_sent results,
        record t {
          histories = t.histories ++ new_history sources req prepared results schedule_pid ∷ [];
        },
      )

  unfoldable pub schedule_prepared :
      ScheduleRequest → Prepared → Records → Result Fault (Unit {0}) × Records
  schedule_prepared req prepared s =
      schedule_pushed req prepared (push_all req.secret prepared.data_) s

  unfoldable pub schedule_from :
      ScheduleRequest → Result Fault Prepared → Records → Result Fault (Unit {0}) × Records
  schedule_from req (err e) s = (err e, s)
  schedule_from req (ok prepared) s = schedule_prepared req prepared s

  unfoldable pub schedule_job : ScheduleRequest → Records → Result Fault (Unit {0}) × Records
  schedule_job req s = schedule_from req (prepare sources req) s

  -- The job's row is looked up first.
  unfoldable pub dispatch_job :
      Option Job → ScheduleRequest → Records → Result Fault (Unit {0}) × Records
  dispatch_job none req s = (err (failed "cannot found job"), s)
  dispatch_job (some job_record) req s =
      schedule_job (record req { job_record = job_record; schedule_pid = none }) s

abbrev again : JobAction → String → String → DispatchData → DispatchJobParams
again action run_id created_user data_ = record data_.params {
  run_id = run_id;
  action = action;
  created_user = created_user;
}

module _ (network : Network) where
  abbrev push_all_again :
      DispatchJobParams → List DispatchTarget → Result Fault (List DispatchResult)
  push_all_again params target =
      unwrap_all (async_batch_do network.schedule target (always (push_again network params)))

  -- What is kept of the results.
  unfoldable pub redispatched :
      String
      → JobAction
      → Result Fault (List DispatchResult)
      → Records
      → Result Fault (List DispatchResult) × Records
  unfolding JobAction.to_string
  redispatched schedule_id action (err e) s = (err e, s)
  redispatched schedule_id action (ok results) s = (
    all_sent results >>= λ _. ok results,
    record s {
      histories =
          update_where (λ row. row.schedule_id == schedule_id)
            (λ row. record row { action = JobAction.to_string action; dispatch_result = results })
            s.histories;
    },
  )

  unfoldable pub redispatch_job :
      String
      → JobAction
      → JobScheduleHistory
      → String
      → String
      → Records
      → Result Fault (List DispatchResult) × Records
  redispatch_job schedule_id action job_schedule_record created_user run_id s =
      elim job_schedule_record.dispatch_data [
        | none ↦ (err (failed "cannot found job dispatch data"), s)
        | some data_ ↦
            redispatched schedule_id action
              (push_all_again (again action run_id created_user data_) data_.target) s
      ]
