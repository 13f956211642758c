-- ===== src/Jobs/Report/Refines.antt =====
-- The reports of the agents and the statuses that the table shows (crates/service/src/logic/job/
-- schedule.rs, `update_job_status`).
use jiascheduler.Base.{
  ◌≡◌, ◌∙◌, ap, refl, inl, inr, none, some, List, [], ◌∷◌, Option, Result, ok, err, String, find,
}
use jiascheduler.Agent.RunStatus.{RunStatus}
use jiascheduler.Agent.Messages.{UpdateJobParams}
use jiascheduler.Jobs.Tables.{Records}
use jiascheduler.Jobs.Services.{Services}
use jiascheduler.Jobs.Running.{upsert, has_key}
use jiascheduler.Jobs.Running.Board.{Board, tell, Shows, upsert-Shows}
use jiascheduler.Jobs.Callback.{completed_callback}
use jiascheduler.Jobs.Callback.Due.{completed_callback-Outcome}
use jiascheduler.Jobs.Report.{add_execution, stopped, with_run_status, update_job_status}

module _ (services : Services) where
  -- A callback changes none of the tables.
  pub completed_callback-keeps :
      (params : UpdateJobParams) (s : Records)
      → ((completed_callback services params s).1.running ≡ s.running)
        × ((completed_callback services params s).1.executions ≡ s.executions)
        × ((completed_callback services params s).1.histories ≡ s.histories)
  completed_callback-keeps params s = elim (completed_callback-Outcome services params s) [
    | inl (e, _) ↦ (ap (λ t. t.running) e, ap (λ t. t.executions) e, ap (λ t. t.histories) e)
    | inr (_, (sent, e)) ↦
        (ap (λ t. t.running) e, ap (λ t. t.executions) e, ap (λ t. t.histories) e)
  ]

  add_execution-running :
      (params : UpdateJobParams) (r : Result String (Option String × String)) (s : Records)
      → (add_execution services params r s).1.running ≡ s.running
  unfolding add_execution
  add_execution-running params (err e) s = refl
  add_execution-running params (ok result) s = refl

  with_run_status-running :
      (params : UpdateJobParams) (status : Option RunStatus) (s : Records)
      → (with_run_status services params status s).1.running ≡ s.running
  unfolding with_run_status stopped
  with_run_status-running params (some RunStatus.stop) s =
      add_execution-running params _ (completed_callback services params s).1
      ∙ (completed_callback-keeps params s).0
  with_run_status-running params (some RunStatus.running) s = refl
  with_run_status-running params (some RunStatus.prepare) s = refl
  with_run_status-running params none s = refl

  pub update_job_status-running :
      (params : UpdateJobParams) (s : Records)
      → (update_job_status services params s).1.running ≡ upsert params s.running
  unfolding update_job_status
  update_job_status-running params s = with_run_status-running params params.run_status _

  -- The reports in the order in which they come, whatever each is answered.
  abbrev pub report_all : List UpdateJobParams → Records → Records
  report_all [] s = s
  report_all (params ∷ reports) s = report_all reports (update_job_status services params s).1

  abbrev pub tell_all : List UpdateJobParams → Board → Board
  tell_all [] board = board
  tell_all (params ∷ reports) board = tell_all reports (tell params board)

  -- If the table shows what a board does, it still does after any reports, in whatever order they
  -- come and whatever each is answered: the board changes, report by report, only the status of
  -- the job, kind of schedule and instance that the report is about.
  pub report_all-Shows :
      (reports : List UpdateJobParams) (s : Records) (board : Board)
      → Shows s.running board
      → Shows (report_all reports s).running (tell_all reports board)
  report_all-Shows [] s board h = h
  report_all-Shows (params ∷ reports) s board h =
      report_all-Shows reports (update_job_status services params s).1 (tell params board) (λ key.
        ap (λ rows. find (has_key key) rows) (update_job_status-running params s)
        ∙ upsert-Shows params s.running board h key)
