-- ===== src/Jobs/Services.antt =====
-- What the job logic calls that is not its own: the reading and writing of JSON, the expression
-- engine, the HTTP client; and the records that it reads out of JSON.
use jiascheduler.Base.{ℕ, Bool, String, Option, List, HashMap, Result}
use jiascheduler.Agent.Messages.{UpdateJobParams}
use jiascheduler.Jobs.Tables.{Post}

-- The columns of a job that the logic reads (crates/entity/src/entity/job.rs).
pub record Job : Type 0 where
  pub eid : String
  pub executor_id : ℕ
  pub job_type : String
  pub code : String
  pub args : Option String
  pub upload_file : String
  pub bundle_script : Option String
  pub completed_callback : Option String
  pub work_dir : String
  pub work_user : String
  pub timeout : ℕ
  pub max_retry : ℕ
  pub max_parallel : ℕ

-- crates/service/src/logic/types.rs
pub data CompletedCallbackTriggerType : Type 0 where
  all error : CompletedCallbackTriggerType

pub record CompletedCallbackOpts : Type 0 where
  pub trigger_on : CompletedCallbackTriggerType
  pub header : Option (HashMap String)
  pub url : String
  pub enable : Bool

-- crates/service/src/logic/job/types.rs
pub record BundleScriptRecord : Type 0 where
  pub eid : String
  pub name : String
  pub code : String
  pub executor_id : ℕ
  pub info : String
  pub cond_expr : String

pub record BundleScriptResult : Type 0 where
  pub name : String
  pub eid : String
  pub cond_expr : String
  pub exit_code : Option ℕ
  pub exit_status : Option String
  pub stdout : Option String
  pub stderr : Option String
  pub eval_err : Option String
  pub result : Bool

pub record Services : Type 0 where
  -- `serde_json::from_value`.
  pub read_job : String → Result String Job
  pub read_callback : String → Result String CompletedCallbackOpts
  pub read_scripts : String → Result String (List BundleScriptRecord)
  -- `serde_json::to_value`.
  pub print_results : List BundleScriptResult → Result String String
  -- The body of a callback: the report with the job under `base_job`.
  pub callback_body : UpdateJobParams → Job → Result String String
  -- `HeaderName::from_str` and `HeaderValue::from_str`.
  pub header_name : String → Result String String
  pub header_value : String → Result String String
  pub send : Post → Result String (Unit {0})
  pub eval_boolean : String → Result String Bool
