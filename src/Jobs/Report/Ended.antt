-- ===== src/Jobs/Report/Ended.antt =====
-- The history of the runs that have ended (crates/service/src/logic/job/schedule.rs,
-- `update_job_status`).
use jiascheduler.Base.{
  ◌≡◌, ◌≢◌, ◌⊎◌, refl, subst, inl, inr, none, some, List, [], ◌∷◌, ◌++◌, Option, Result, ok, err,
  String, find,
}
use jiascheduler.Agent.RunStatus.{RunStatus}
use jiascheduler.Agent.Messages.{UpdateJobParams, BundleOutputParams}
use jiascheduler.Jobs.Tables.{Records, JobExecHistory, JobScheduleHistory}
use jiascheduler.Jobs.Services.{Services}
use jiascheduler.Jobs.Callback.{completed_callback, has_schedule}
use jiascheduler.Jobs.Report.{
  or_zero, output_of, bundle_result, add_execution, stopped, with_run_status, update_job_status,
}
use jiascheduler.Jobs.Report.Refines.{completed_callback-keeps}

-- A run that has stopped has its row in the history: its identifier, its exit code and its output.
abbrev pub IsRecorded : UpdateJobParams → List JobExecHistory → List JobExecHistory → Type 0
IsRecorded params before after =
    (row : JobExecHistory) × (after ≡ before ++ row ∷ [])
    × (row.run_id ≡ params.run_id)
    × (row.exit_code ≡ or_zero params.exit_code)
    × (row.output ≡ output_of params.stdout params.stderr)

-- Only a report that a run has stopped is recorded, and unless it has the output of a bundle it is.
abbrev pub Ends :
    UpdateJobParams
    → Option RunStatus
    → List JobExecHistory
    → Result String (Unit {0}) × Records
    → Type 0
Ends params status before (r, t) =
    ((r ≡ ok tt) × (status ≡ some RunStatus.stop) × IsRecorded params before t.executions)
    ⊎ ((r ≡ ok tt) × (status ≢ some RunStatus.stop) × (t.executions ≡ before))
    ⊎ ((r ≢ ok tt)
        × (status ≡ some RunStatus.stop)
        × (params.bundle_output ≢ none)
        × (t.executions ≡ before))

module _ (services : Services) where
  add_execution-Ends :
      (params : UpdateJobParams) (r : Result String (Option String × String)) (s : Records)
      → ((e : String) → r ≡ err e → params.bundle_output ≢ none)
      → Ends params (some RunStatus.stop) s.executions (add_execution services params r s)
  unfolding add_execution
  add_execution-Ends params (err e) s h = inr (inr (λ k. cc, refl, h e refl, refl))
  add_execution-Ends params (ok result) s h = inl (refl, refl, (_, refl, refl, refl, refl))

  bundle_result-err :
      (params : UpdateJobParams) (history : Option JobScheduleHistory)
      (output : Option (List BundleOutputParams)) (e : String)
      → bundle_result services params history output ≡ err e
      → output ≢ none
  bundle_result-err params history none e h = cc
  bundle_result-err params history (some output) e h = λ k. cc

  with_run_status-Ends :
      (params : UpdateJobParams) (status : Option RunStatus) (s : Records)
      → Ends params status s.executions (with_run_status services params status s)
  unfolding with_run_status stopped
  with_run_status-Ends params (some RunStatus.stop) s =
      let t = (completed_callback services params s).1 in
      subst (λ rows. Ends params (some RunStatus.stop) rows (stopped services params s))
        (completed_callback-keeps services params s).1
        (add_execution-Ends params _ t (
          bundle_result-err params (find (has_schedule params.schedule_id) t.histories)
            params.bundle_output))
  with_run_status-Ends params (some RunStatus.running) s = inr (inl (refl, λ k. cc, refl))
  with_run_status-Ends params (some RunStatus.prepare) s = inr (inl (refl, λ k. cc, refl))
  with_run_status-Ends params none s = inr (inl (refl, λ k. cc, refl))

  -- A report that a run has stopped, and that does not fail, adds one row with the run's
  -- identifier, exit code and output to the history; it can only fail if it has the output of a
  -- bundle, and then adds none. Any other report succeeds and adds none.
  pub update_job_status-Ends :
      (params : UpdateJobParams) (s : Records)
      → Ends params params.run_status s.executions (update_job_status services params s)
  unfolding update_job_status
  update_job_status-Ends params s = with_run_status-Ends params params.run_status _
