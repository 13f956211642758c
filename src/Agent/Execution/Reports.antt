-- ===== src/Agent/Execution/Reports.antt =====
-- What the server hears of a run (automate/src/scheduler/scheduler.rs, `exec_job`).
use jiascheduler.Base.{ℕ, ◌≡◌, String, Option, none, some, Result, ok, err, arith, [], ◌∷◌, ◌++◌}
use mathlib.Core.List.{append_assoc}
use jiascheduler.Agent.ScheduleType.{ScheduleType}
use jiascheduler.Agent.RunStatus.{RunStatus}
use jiascheduler.Agent.BaseJob.{BaseJob, BundleOutput, get_exit_code, to_pure_job}
use jiascheduler.Agent.Executor.{run}
use jiascheduler.Agent.Messages.{DispatchJobParams, UpdateJobParams}
use jiascheduler.Agent.React.{React, Host, Fault, failed}
use jiascheduler.Agent.Execution.{
  exec_job, report, send_update_job_msg, running_msg, error_msg, stop_msg,
}

-- A message tells of the run that `p` asked for, on the instance `i`.
pub record IsAbout (p : DispatchJobParams) (i : String) (host : Host) (m : UpdateJobParams)
    : Type 0 where
  pub schedule : m.schedule_id ≡ p.schedule_id
  pub execution : m.run_id ≡ p.run_id
  pub instance_ : m.instance_id ≡ i
  pub place : m.bind_ip ≡ host.local_ip
  pub user : m.created_user ≡ p.created_user
  pub start : m.start_time ≡ some host.started
  pub no_file : m.base_job.upload_file ≡ none

-- The code that the last message carries: 99 if the run could not be carried out.
abbrev pub exit_code_of : Result String BundleOutput → Option ℕ
exit_code_of (ok result) = get_exit_code result
exit_code_of (err e) = some 99

abbrev pub reply_of : Result String BundleOutput → Result Fault BundleOutput
reply_of (ok result) = ok result
reply_of (err e) = err (failed e)

abbrev pub last_msg :
    Host
    → Option ScheduleType
    → DispatchJobParams
    → String
    → Result String BundleOutput
    → UpdateJobParams
last_msg host kind p i (ok result) = stop_msg host kind p i result
last_msg host kind p i (err e) = error_msg host kind p i e

last_msg-IsAbout :
    (host : Host) (kind : Option ScheduleType) (p : DispatchJobParams) (i : String)
    (r : Result String BundleOutput)
    → IsAbout p i host (last_msg host kind p i r)
      × ((last_msg host kind p i r).run_status ≡ some RunStatus.stop)
      × ((last_msg host kind p i r).exit_code ≡ exit_code_of r)
unfolding stop_msg error_msg to_pure_job
last_msg-IsAbout host kind p i (ok result) = ground arith
last_msg-IsAbout host kind p i (err e) = ground arith

running_msg-IsAbout :
    (host : Host) (kind : Option ScheduleType) (prev next : Option ℕ) (p : DispatchJobParams)
    (i : String)
    → IsAbout p i host (running_msg host kind prev next p i)
      × ((running_msg host kind prev next p i).run_status ≡ some RunStatus.running)
unfolding running_msg to_pure_job
running_msg-IsAbout host kind prev next p i = ground arith

sent_msg :
    (host : Host) (m : UpdateJobParams) (s : React)
    → host.send m ≡ ok tt
    → send_update_job_msg host m s ≡ (ok tt, record s { sent = s.sent ++ (m ∷ []) })
unfolding send_update_job_msg
sent_msg host m s h = rw (h, send_update_job_msg)

report-sends :
    (host : Host) (kind : Option ScheduleType) (p : DispatchJobParams) (i : String)
    (r : Result String BundleOutput) (s : React)
    → host.send (last_msg host kind p i r) ≡ ok tt
    → report host kind p i r s
      ≡ (reply_of r, record s { sent = s.sent ++ (last_msg host kind p i r ∷ []) })
unfolding report
report-sends host kind p i (ok result) s h = rw (sent_msg host (stop_msg host kind p i result) s h)
report-sends host kind p i (err e) s h = rw (sent_msg host (error_msg host kind p i e) s h)

pub exec_job-sends :
    (host : Host) (job : BaseJob) (kind : Option ScheduleType) (prev next : Option ℕ)
    (p : DispatchJobParams) (i : String) (s : React)
    → ((m : UpdateJobParams) → host.send m ≡ ok tt)
    → p.instance_id ≡ some i
    → exec_job host job kind prev next p s ≡ (
      reply_of (run host.process job),
      record s {
        sent =
            (s.sent ++ (running_msg host kind prev next p i ∷ []))
            ++ (last_msg host kind p i (run host.process job) ∷ []);
      },
    )
unfolding exec_job
exec_job-sends host job kind prev next p i s taken known =
    let first = running_msg host kind prev next p i in
    rw (known, exec_job)
      (rw (sent_msg host first s (taken first))
        (report-sends host kind p i (run host.process job) _ (taken _)))

-- The run has been reported by two messages, and its own result is returned.
abbrev pub IsReported :
    Host → BaseJob → DispatchJobParams → String → React → Result Fault BundleOutput × React → Type 0
IsReported host job p i s out =
    (first last : UpdateJobParams) × (out.1.sent ≡ s.sent ++ (first ∷ last ∷ []))
    × (out.0 ≡ reply_of (run host.process job))
    × IsAbout p i host first
    × (first.run_status ≡ some RunStatus.running)
    × IsAbout p i host last
    × (last.run_status ≡ some RunStatus.stop)
    × (last.exit_code ≡ exit_code_of (run host.process job))

-- If the server takes every message, a run for a known instance is reported by exactly two, in
-- this order: that it runs, and that it has stopped, with the exit code of the run or 99. Both
-- tell of the run that was asked for, and neither carries the uploaded file. The run's own result
-- is what `exec_job` returns.
pub exec_job_reports :
    (host : Host) (job : BaseJob) (kind : Option ScheduleType) (prev next : Option ℕ)
    (p : DispatchJobParams) (i : String) (s : React)
    → ((m : UpdateJobParams) → host.send m ≡ ok tt)
    → p.instance_id ≡ some i
    → IsReported host job p i s (exec_job host job kind prev next p s)
exec_job_reports host job kind prev next p i s taken known =
    let r = run host.process job in
    let first = running_msg host kind prev next p i in
    let last = last_msg host kind p i r in
    let sent = exec_job-sends host job kind prev next p i s taken known in
    let (about_first, is_first) = running_msg-IsAbout host kind prev next p i in
    let (about_last, is_last, code) = last_msg-IsAbout host kind p i r in
    (
      first,
      last,
      rw sent (append_assoc s.sent (first ∷ []) (last ∷ [])),
      rw sent,
      about_first,
      is_first,
      about_last,
      is_last,
      code,
    )
