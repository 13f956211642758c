-- ===== src/Jobs/Prepare.antt =====
-- What precedes the dispatch of a job (crates/service/src/logic/job/schedule.rs, `schedule_job`):
-- its check, its arguments and what is to be pushed. `Sources` is what the logic reads from other
-- tables and files, renders or writes as JSON.
pub mod Args
use jiascheduler.Base.{
  ℕ, ◌/◌, ◌%◌, ◌+◌, ◌^◌, nat_eq, String, ◌==◌, Bool, true, false, ◌||◌, Option, none, some, List,
  [], ◌∷◌, ◌++◌, map, Result, ok, err, ok_or, ◌>>=◌, any, find, insert, update_where, HashMap,
  format, if◌then◌else◌,
}
use mathlib.Core.List.{reverse}
use jiascheduler.Agent.JobAction
use jiascheduler.Agent.JobAction.{JobAction}
use jiascheduler.Agent.ScheduleType
use jiascheduler.Agent.ScheduleType.{ScheduleType}
use jiascheduler.Agent.BaseJob.{BaseJob, BundleScript, UploadFile}
use jiascheduler.Agent.Messages.{DispatchJobParams, TimerExpr}
use jiascheduler.Workflow.Tables.{DispatchResult}
use jiascheduler.Workflow.Store.{Fault, failed, panicked, or_failed}
use jiascheduler.Jobs.Tables.{
  Records, JobSchedule, JobScheduleHistory, DispatchData, DispatchTarget,
}
use jiascheduler.Jobs.Services.{Job, BundleScriptRecord}
use jiascheduler.Jobs.Push.{Network, push, push_again}

pub record JobFormalArg : Type 0 where
  pub name : String
  pub val : String
  pub info : String

pub record Sources : Type 0 where
  pub find_instances : List String → List DispatchTarget
  -- The command and the arguments of an executor.
  pub find_executor : ℕ → Option (String × List String)
  pub read_file : String → Result String String
  pub file_name : String → String
  -- The entries of a JSON array of formal arguments; none for a value that is no array.
  pub read_args : String → Option (Result String (List JobFormalArg))
  pub read_scripts : String → Result String (List BundleScriptRecord)
  -- `get_job_code`, by the template engine.
  pub get_job_code : String → Option (HashMap String) → Result String String
  pub print_job : Job → String
  pub print_args : Option (HashMap String) → String
  pub print_timer : TimerExpr → String

-- `actual_args` is a JSON object; a value that is no object counts as none.
pub record ScheduleRequest : Type 0 where
  pub secret : String
  pub instance_ids : List String
  pub job_record : Job
  pub is_sync : Bool
  pub schedule_name : String
  pub schedule_type : ScheduleType
  pub action : JobAction
  pub timer_expr : Option TimerExpr
  pub restart_interval : Option ℕ
  pub actual_args : Option (HashMap String)
  pub created_user : String
  pub schedule_pid : Option ℕ
  pub schedule_id : String
  pub run_id : String

abbrev pub refuse : JobAction → Result Fault (Unit {0})
unfolding JobAction.to_string
refuse action =
    err (
      failed
        (format ("cannot " ∷ JobAction.to_string action ∷ " job with once schedule type" ∷ [])))

-- The actions that a kind of schedule takes; a flow is a panic, `unimplemented!`.
unfoldable pub check_schedule_type : JobAction → ScheduleType → Result Fault (Unit {0})
check_schedule_type JobAction.exec ScheduleType.once = ok tt
check_schedule_type JobAction.kill ScheduleType.once = ok tt
check_schedule_type JobAction.start_timer ScheduleType.timer = ok tt
check_schedule_type JobAction.stop_timer ScheduleType.timer = ok tt
check_schedule_type JobAction.exec ScheduleType.timer = ok tt
check_schedule_type JobAction.kill ScheduleType.timer = ok tt
check_schedule_type JobAction.start_supervising ScheduleType.daemon = ok tt
check_schedule_type JobAction.restart_supervising ScheduleType.daemon = ok tt
check_schedule_type JobAction.stop_supervising ScheduleType.daemon = ok tt
check_schedule_type action ScheduleType.flow = err panicked
check_schedule_type action _ = refuse action

-- The default value of each formal argument; a later one overwrites.
abbrev pub formal_values : List JobFormalArg → HashMap String → HashMap String
formal_values [] ret = ret
formal_values (arg ∷ args) ret = formal_values args (insert arg.name arg.val ret)

-- `extend`: each entry overwrites.
abbrev pub extend : HashMap String → HashMap String → HashMap String
extend ret [] = ret
extend ret ((k, v) ∷ entries) = extend (insert k v ret) entries

abbrev pub extend_given : HashMap String → Option (HashMap String) → HashMap String
extend_given ret none = ret
extend_given ret (some entries) = extend ret entries

abbrev pub require_targets : List DispatchTarget → Result String (List DispatchTarget)
require_targets [] = err "cannot found valid instance"
require_targets (v ∷ endpoints) = ok (v ∷ endpoints)

abbrev script_of : BundleScriptRecord → String × List String → BundleScript
script_of v cmd = record { eid = v.eid; cmd_name = cmd.0; args = cmd.1; code = v.code }

abbrev non_empty_text : String → Option String
non_empty_text v = if v == "" then none else some v

abbrev base_job_of :
    Job → String × List String → Option (List BundleScript) → Option UploadFile → String → BaseJob
base_job_of job cmd bundle_script upload_file code = record {
  eid = job.eid;
  cmd_name = cmd.0;
  code = code;
  bundle_script = bundle_script;
  args = cmd.1;
  upload_file = upload_file;
  read_code_from_stdin = false;
  timeout = job.timeout;
  work_dir = non_empty_text job.work_dir;
  work_user = non_empty_text job.work_user;
  max_retry = some job.max_retry;
  max_parallel = some job.max_parallel;
  is_workflow = false;
}

abbrev dispatch_params : ScheduleRequest → BaseJob → DispatchJobParams
dispatch_params req base_job = record {
  base_job = base_job;
  schedule_id = req.schedule_id;
  instance_id = none;
  run_id = req.run_id;
  fields = none;
  timer_expr = req.timer_expr;
  restart_interval = req.restart_interval;
  is_sync = req.is_sync;
  created_user = req.created_user;
  action = req.action;
}

module _ (sources : Sources) where
  unfoldable pub get_job_actual_args :
      Option String → Option (HashMap String) → Result String (Option (HashMap String))
  get_job_actual_args none actual_args = ok none
  get_job_actual_args (some val) actual_args = elim (sources.read_args val) [
    | none ↦ ok none
    | some (err e) ↦ err e
    | some (ok args) ↦ ok (some (extend_given (formal_values args []) actual_args))
  ]

  abbrev upload_of : String → Result String (Option UploadFile)
  upload_of path =
      if path == ""
      then ok none
      else (sources.read_file path >>= λ data_.
          ok (some (record { filename = sources.file_name path; content = some data_ })))

  abbrev scripts_of : List BundleScriptRecord → Result String (List BundleScript)
  scripts_of [] = ok []
  scripts_of (v ∷ list) =
      ok_or (sources.find_executor v.executor_id) "cannot found executor" >>= λ cmd.
      scripts_of list >>= λ (ret : List BundleScript). ok (script_of v cmd ∷ ret)

  abbrev bundle_of : Option String → Result String (Option (List BundleScript) × String)
  bundle_of none = ok (none, "default")
  bundle_of (some v) =
      sources.read_scripts v >>= λ list. scripts_of list >>= λ ret. ok (some ret, "bundle")

abbrev pub map_some {ℓ κ} : {A : Type ℓ} {B : Type κ} → (A → B) → Option A → Option B
map_some f none = none
map_some f (some a) = some (f a)

-- What is to be pushed, the kind of the job and its arguments.
pub record Prepared : Type 0 where
  pub data_ : DispatchData
  pub job_type : String
  pub job_actual_args : Option (HashMap String)

module _ (sources : Sources) where
  -- The job for the agents, its kind and its arguments.
  abbrev pub job_for :
      ScheduleRequest → Job → Result String (BaseJob × String × Option (HashMap String))
  job_for req job = ok_or (sources.find_executor job.executor_id) "cannot found executor" >>= λ cmd.
      upload_of sources job.upload_file >>= λ upload_file.
      bundle_of sources job.bundle_script >>= λ (bundle : Option (List BundleScript) × String).
      get_job_actual_args sources job.args req.actual_args >>= λ args.
      sources.get_job_code job.code args >>= λ code.
      ok (base_job_of job cmd bundle.0 upload_file code, bundle.1, args)

  abbrev pub prepared_of :
      ScheduleRequest → List DispatchTarget → BaseJob × String × Option (HashMap String) → Prepared
  prepared_of req endpoints (base_job, job_type, args) = record {
    data_ = record { target = endpoints; params = dispatch_params req base_job };
    job_type = job_type;
    job_actual_args = args;
  }

  -- All that comes before the first push.
  unfoldable pub prepare_checked : ScheduleRequest → Result String Prepared
  prepare_checked req = require_targets (sources.find_instances req.instance_ids) >>= λ endpoints.
      job_for req req.job_record >>= λ job. ok (prepared_of req endpoints job)

  unfoldable pub prepare : ScheduleRequest → Result Fault Prepared
  prepare req =
      check_schedule_type req.action req.schedule_type >>= λ _. or_failed (prepare_checked req)
