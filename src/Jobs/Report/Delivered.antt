-- ===== src/Jobs/Report/Delivered.antt =====
-- A run on an agent (automate/src/scheduler/scheduler.rs, `exec_job`) and what the server's table
-- shows of it (crates/service/src/logic/job/schedule.rs, `update_job_status`).
use jiascheduler.Base.{
  ℕ, ◌≡◌, ◌∙◌, ap, refl, String, true, some, List, [], ◌∷◌, ◌++◌, Option, Result, ok, err, find,
}
use jiascheduler.Agent.RunStatus
use jiascheduler.Agent.RunStatus.{RunStatus}
use jiascheduler.Agent.ScheduleType
use jiascheduler.Agent.ScheduleType.{ScheduleType}
use jiascheduler.Agent.BaseJob.{BaseJob, BundleOutput, to_pure_job}
use jiascheduler.Agent.Executor.{run}
use jiascheduler.Agent.Messages.{DispatchJobParams, UpdateJobParams}
use jiascheduler.Agent.React.{React, Host}
use jiascheduler.Agent.Execution.{exec_job, running_msg, stop_msg, error_msg}
use jiascheduler.Agent.Execution.Reports.{exit_code_of, last_msg, exec_job-sends}
use jiascheduler.Jobs.Tables.{Records, JobRunningStatus}
use jiascheduler.Jobs.Services.{Services}
use jiascheduler.Jobs.Running.{Key, key_eq, has_key, text_of, new_status}
use jiascheduler.Jobs.Running.Assignments.{told, or_keep}
use jiascheduler.Jobs.Running.Board.{told_of, reported_key, upsert-shown, key_eq_refl}
use jiascheduler.Jobs.Report.{update_job_status}
use jiascheduler.Jobs.Report.Refines.{report_all, update_job_status-running}

-- The key of the runs of a job of one kind on an instance.
abbrev pub run_key : DispatchJobParams → Option ScheduleType → String → Key
run_key p kind i = record {
  eid = p.base_job.eid;
  schedule_type = text_of ScheduleType.to_string "once" kind;
  instance_id = i;
}

-- The table shows that the run has stopped, with this exit code.
abbrev pub ShowsStopped : List JobRunningStatus → Key → DispatchJobParams → ℕ → Type 0
ShowsStopped rows key p code =
    (row : JobRunningStatus) × (find (has_key key) rows ≡ some row)
    × (row.run_status ≡ "stop")
    × (row.exit_code ≡ code)
    × (row.schedule_id ≡ p.schedule_id)

-- A report about this key.
pub one-shown :
    (services : Services) (params : UpdateJobParams) (s : Records) (key : Key)
    → reported_key params ≡ key
    → find (has_key key) (update_job_status services params s).1.running
      ≡ some (told_of params (find (has_key key) s.running))
one-shown services params s key own =
    let own_key : key_eq (reported_key params) key ≡ true =
      ap (λ k. key_eq k key) own ∙ key_eq_refl key in
    ap (λ rows. find (has_key key) rows) (update_job_status-running services params s)
    ∙ upsert-shown params s.running key
    ∙ rw own_key refl

-- Two reports about it: the second finds the row that the first has written.
twice-shown :
    (services : Services) (first last : UpdateJobParams) (s : Records) (key : Key)
    → reported_key first ≡ key
    → reported_key last ≡ key
    → (row : JobRunningStatus) × (find
          (has_key key)
          (report_all services (first ∷ last ∷ []) s).running
        ≡ some (told last row))
unfolding told_of
twice-shown services first last s key of_first of_last =
    let row : JobRunningStatus = told_of first (find (has_key key) s.running) in
    let written = one-shown services first s key of_first in
    let t = (update_job_status services first s).1 in
    (row, one-shown services last t key of_last ∙ ap (λ found. some (told_of last found)) written)

stop_told :
    (host : Host) (kind : Option ScheduleType) (p : DispatchJobParams) (i : String)
    (r : Result String BundleOutput) (row : JobRunningStatus) (code : ℕ)
    → exit_code_of r ≡ some code
    → ((told (last_msg host kind p i r) row).run_status ≡ "stop")
      × ((told (last_msg host kind p i r) row).exit_code ≡ code)
      × ((told (last_msg host kind p i r) row).schedule_id ≡ p.schedule_id)
unfolding stop_msg error_msg RunStatus.to_string
stop_told host kind p i (ok result) row code h = (refl, ap (or_keep row.exit_code) h, refl)
stop_told host kind p i (err e) row code h = (refl, ap (or_keep row.exit_code) h, refl)

last_msg-key :
    (host : Host) (kind : Option ScheduleType) (p : DispatchJobParams) (i : String)
    (r : Result String BundleOutput)
    → reported_key (last_msg host kind p i r) ≡ run_key p kind i
unfolding reported_key new_status stop_msg error_msg to_pure_job
last_msg-key host kind p i (ok result) = refl
last_msg-key host kind p i (err e) = refl

running_msg-key :
    (host : Host) (kind : Option ScheduleType) (prev next : Option ℕ) (p : DispatchJobParams)
    (i : String)
    → reported_key (running_msg host kind prev next p i) ≡ run_key p kind i
unfolding reported_key new_status running_msg to_pure_job
running_msg-key host kind prev next p i = refl

-- If an agent that has reported nothing yet runs a job for a known instance, its messages are taken
-- by the transport, and the server handles them in their order, whatever its tables held before,
-- then the server shows of that job, kind of schedule and instance that the run has stopped, with
-- the run's exit code if it has one, else 99 if it could not be carried out.
pub exec_job-ShowsStopped :
    (services : Services) (host : Host) (job : BaseJob) (kind : Option ScheduleType)
    (prev next : Option ℕ) (p : DispatchJobParams) (i : String) (s : React) (server : Records)
    (code : ℕ)
    → ((m : UpdateJobParams) → host.send m ≡ ok tt)
    → p.instance_id ≡ some i
    → s.sent ≡ []
    → exit_code_of (run host.process job) ≡ some code
    → ShowsStopped
        (report_all services (exec_job host job kind prev next p s).1.sent server).running
        (run_key p kind i)
        p
        code
exec_job-ShowsStopped services host job kind prev next p i s server code taken known nothing h =
    let r = run host.process job in
    let first = running_msg host kind prev next p i in
    let last = last_msg host kind p i r in
    let sent = exec_job-sends host job kind prev next p i s taken known in
    let messages : (exec_job host job kind prev next p s).1.sent ≡ first ∷ last ∷ [] =
      ap (λ out. out.1.sent) sent ∙ ap (λ xs. (xs ++ (first ∷ [])) ++ (last ∷ [])) nothing in
    let (row, found) =
      twice-shown services first last server (run_key p kind i)
        (running_msg-key host kind prev next p i) (last_msg-key host kind p i r) in
    let (status, exit_code, schedule) = stop_told host kind p i r row code h in
    (
      told last row,
      ap (λ reports. find (has_key (run_key p kind i)) (report_all services reports server).running)
            messages
          ∙ found,
      status,
      exit_code,
      schedule,
    )
