-- ===== src/Agent/BaseJob.antt =====
-- automate/src/scheduler/types.rs: the job record and the result of running it.
-- A text or a byte string of a file is a `String`; `ExitStatus` and `Output` are the types of
-- `std::process`, of which the code uses the parts below.
use jiascheduler.Base.{ℕ, Bool, String, if◌then◌else◌, Option, none, some, List}

pub record BundleScript : Type 0 where
  pub eid : String
  pub cmd_name : String
  pub args : List String
  pub code : String

pub record UploadFile : Type 0 where
  pub filename : String
  pub content : Option String

pub record BaseJob : Type 0 where
  pub eid : String
  pub cmd_name : String
  pub code : String
  pub bundle_script : Option (List BundleScript)
  pub args : List String
  pub upload_file : Option UploadFile
  pub read_code_from_stdin : Bool
  pub timeout : ℕ
  pub work_dir : Option String
  pub work_user : Option String
  pub max_retry : Option ℕ
  pub max_parallel : Option ℕ
  pub is_workflow : Bool

-- Remove `upload_file` and return the pure job.
unfoldable pub to_pure_job : BaseJob → BaseJob
to_pure_job self = record {
  eid = self.eid;
  cmd_name = self.cmd_name;
  code = self.code;
  bundle_script = self.bundle_script;
  args = self.args;
  upload_file = none;
  read_code_from_stdin = self.read_code_from_stdin;
  timeout = self.timeout;
  work_dir = self.work_dir;
  work_user = self.work_user;
  max_retry = self.max_retry;
  max_parallel = self.max_parallel;
  is_workflow = self.is_workflow;
}

-- `std::process::Output`: whether the process succeeded, its exit code (none if a signal killed
-- it), the text of its status, and its two streams as lossy UTF-8. A code is a byte on Unix.
pub record Output : Type 0 where
  pub success : Bool
  pub code : Option ℕ
  pub status : String
  pub stdout : String
  pub stderr : String

pub data BundleOutput : Type 0 where
  output : Output → BundleOutput
  bundle : List (String × Output) → BundleOutput

unfoldable pub get_exit_status : BundleOutput → Option String
get_exit_status (output v) = some v.status
get_exit_status (bundle v) = none

abbrev or_killed : Option ℕ → Option ℕ
or_killed none = some 9
or_killed (some code) = some code

unfoldable pub get_exit_code : BundleOutput → Option ℕ
get_exit_code (output v) = if v.success then v.code else or_killed v.code
get_exit_code (bundle v) = none

unfoldable pub get_stdout : BundleOutput → Option String
get_stdout (output v) = some v.stdout
get_stdout (bundle v) = none

unfoldable pub get_stderr : BundleOutput → Option String
get_stderr (output v) = some v.stderr
get_stderr (bundle v) = none
