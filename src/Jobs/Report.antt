-- ===== src/Jobs/Report.antt =====
-- A report of an agent (crates/service/src/logic/job/schedule.rs, `update_job_status`). The number
-- of the row that it answers with is left out.
pub mod Refines
pub mod Ended
pub mod Delivered
pub mod Unscheduled
use jiascheduler.Base.{
  ℕ, String, Option, none, some, List, [], ◌∷◌, ◌++◌, Result, ok, err, ok_or, ◌>>=◌, find, format,
}
use jiascheduler.Agent.RunStatus.{RunStatus}
use jiascheduler.Agent.Messages.{UpdateJobParams, BundleOutputParams}
use jiascheduler.Jobs.Tables.{Records, JobScheduleHistory, JobExecHistory, M}
use jiascheduler.Jobs.Services.{Services}
use jiascheduler.Jobs.Running.{upsert}
use jiascheduler.Jobs.Callback.{eval, completed_callback, has_schedule, or_empty}

abbrev pub or_zero : Option ℕ → ℕ
or_zero none = 0
or_zero (some code) = code

-- The errors of the run before its output.
abbrev pub output_of : Option String → Option String → String
output_of stdout none = or_empty stdout
output_of stdout (some stderr) = format (stderr ∷ "\n" ∷ or_empty stdout ∷ [])

module _ (services : Services) where
  -- The results of the scripts of a bundle, by the job as it was when it was scheduled.
  abbrev pub bundle_result :
      UpdateJobParams
      → Option JobScheduleHistory
      → Option (List BundleOutputParams)
      → Result String (Option String × String)
  bundle_result params history none = ok (none, "default")
  bundle_result params history (some output) =
      ok_or history (format ("cannot get schedule record " ∷ params.schedule_id ∷ []))
      >>= λ (h : JobScheduleHistory).
          ok_or h.snapshot_data "cannot get snapshot_data" >>= λ snapshot.
          services.read_job snapshot >>= λ job.
          ok_or job.bundle_script "cannot get bundle_sciprt" >>= λ scripts.
          services.read_scripts scripts >>= λ bundle_script.
          services.print_results (eval services bundle_script output) >>= λ val.
          ok (some val, "bundle")

  abbrev pub execution : UpdateJobParams → Option String × String → JobExecHistory
  execution params (result, job_type) = record {
    schedule_id = params.schedule_id;
    instance_id = params.instance_id;
    exit_status = or_empty params.exit_status;
    exit_code = or_zero params.exit_code;
    output = output_of params.stdout params.stderr;
    run_id = params.run_id;
    eid = params.base_job.eid;
    start_time = params.start_time;
    end_time = params.end_time;
    bundle_script_result = result;
    created_user = params.created_user;
    job_type = job_type;
  }

  unfoldable pub add_execution :
      UpdateJobParams → Result String (Option String × String) → M (Unit {0})
  add_execution params (err e) s = (err e, s)
  add_execution params (ok result) s =
      (ok tt, record s { executions = s.executions ++ execution params result ∷ [] })

  -- A run that has stopped: an error of the callback is only logged.
  unfoldable pub stopped : UpdateJobParams → M (Unit {0})
  stopped params s =
      let t = (completed_callback services params s).1 in
      add_execution params
        (bundle_result params (find (has_schedule params.schedule_id) t.histories)
          params.bundle_output)
        t

  unfoldable pub with_run_status : UpdateJobParams → Option RunStatus → M (Unit {0})
  with_run_status params (some RunStatus.stop) s = stopped params s
  with_run_status params _ s = (ok tt, s)

  unfoldable pub update_job_status : UpdateJobParams → M (Unit {0})
  update_job_status params s =
      with_run_status params params.run_status (record s { running = upsert params s.running })
