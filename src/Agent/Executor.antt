-- ===== src/Agent/Executor.antt =====
-- automate/src/scheduler/executor.rs: the processes that a job runs. The log file is disabled by
-- every caller, and is left out; a kill signal is part of the process's result.
use jiascheduler.Base.{
  ℕ, String, Option, none, some, List, [], ◌∷◌, ◌++◌, Result, ok, ◌>>=◌, if◌then◌else◌, ltb,
  HashMap, insert,
}
use jiascheduler.Agent.BaseJob.{BaseJob, BundleScript, BundleOutput, Output, output, bundle}

-- What `exec` hands to `Cmd`.
pub record Command : Type 0 where
  pub name : String
  pub args : List String
  pub stdin : Option String
  pub work_dir : Option String
  pub work_user : Option String
  pub timeout : Option ℕ

unfoldable pub command : BaseJob → String → List String → String → Command
command job cmd_name args code = record {
  name = cmd_name;
  args = if job.read_code_from_stdin then args else args ++ code ∷ [];
  stdin = if job.read_code_from_stdin then some code else none;
  work_dir = job.work_dir;
  work_user = job.work_user;
  timeout = if ltb 0 job.timeout then some job.timeout else none;
}

module _ (process : Command → Result String Output) where
  -- The scripts run one after the other; the first error ends the run.
  unfoldable pub run_scripts :
      BaseJob → List BundleScript → HashMap Output → Result String BundleOutput
  unfolding command
  run_scripts job [] outputs = ok (bundle outputs)
  run_scripts job (v ∷ scripts) outputs =
      process (command job v.cmd_name v.args v.code) >>= λ output.
      run_scripts job scripts (insert v.eid output outputs)

  abbrev run_job : BaseJob → Option (List BundleScript) → Result String BundleOutput
  run_job job none = process (command job job.cmd_name job.args job.code) >>= λ v. ok (output v)
  run_job job (some scripts) = run_scripts job scripts []

  unfoldable pub run : BaseJob → Result String BundleOutput
  unfolding run_scripts
  run job = run_job job job.bundle_script
