-- ===== src/Jobs/Report/Unscheduled.antt =====
-- A timer that an agent has stopped (automate/src/scheduler/scheduler.rs, `stop_timer`) and what
-- the server's table shows of it (crates/service/src/logic/job/schedule.rs, `update_job_status`).
use jiascheduler.Base.{
  ◌≡◌, refl, String, none, some, List, [], ◌∷◌, ◌++◌, Option, ok, err, find, get, Result-cases, inl,
  inr,
}
use jiascheduler.Agent.ScheduleType
use jiascheduler.Agent.ScheduleType.{ScheduleType}
use jiascheduler.Agent.ScheduleStatus
use jiascheduler.Agent.ScheduleStatus.{ScheduleStatus}
use jiascheduler.Agent.BaseJob.{to_pure_job}
use jiascheduler.Agent.Messages.{DispatchJobParams, UpdateJobParams}
use jiascheduler.Agent.React.{Host, failed}
use jiascheduler.Agent.Schedules.{JobScheduler}
use jiascheduler.Agent.Schedules.Replace.{remove_job_schedule-cases}
use jiascheduler.Agent.Timers.{Timers, timer_msg, send_timer_msg, report_stopped, stop_timer}
use jiascheduler.Jobs.Tables.{Records, JobRunningStatus}
use jiascheduler.Jobs.Services.{Services}
use jiascheduler.Jobs.Running.{Key, has_key, new_status}
use jiascheduler.Jobs.Running.Board.{told_of, reported_key}
use jiascheduler.Jobs.Report.Refines.{report_all}
use jiascheduler.Jobs.Report.Delivered.{run_key, one-shown}

-- The row says that the timer is taken away and has no next run.
abbrev pub ShowsUnscheduled : List JobRunningStatus → Key → Type 0
ShowsUnscheduled rows key =
    (row : JobRunningStatus) × (find (has_key key) rows ≡ some row)
    × (row.schedule_status ≡ "unscheduled")
    × (row.next_time ≡ none)

abbrev stop_msg : Host → DispatchJobParams → String → UpdateJobParams
unfolding timer_msg
stop_msg host params i = timer_msg host none ScheduleStatus.unscheduled none params i

told_unscheduled :
    (host : Host) (params : DispatchJobParams) (i : String) (found : Option JobRunningStatus)
    → ((told_of (stop_msg host params i) found).schedule_status ≡ "unscheduled")
      × ((told_of (stop_msg host params i) found).next_time ≡ none)
unfolding told_of new_status timer_msg stop_msg ScheduleStatus.to_string
told_unscheduled host params i none = (refl, refl)
told_unscheduled host params i (some row) = (refl, refl)

stop_msg-key :
    (host : Host) (params : DispatchJobParams) (i : String)
    → reported_key (stop_msg host params i) ≡ run_key params (some ScheduleType.timer) i
unfolding reported_key new_status timer_msg stop_msg to_pure_job ScheduleType.to_string
stop_msg-key host params i = refl

send_timer_msg-sent :
    (host : Host) (msg : UpdateJobParams) (s : Timers)
    → (send_timer_msg host msg s).0 ≡ ok tt
    → send_timer_msg host msg s ≡ (ok tt, record s { sent = s.sent ++ msg ∷ [] })
unfolding send_timer_msg
send_timer_msg-sent host msg s h = elim (Result-cases (host.send msg)) [
  | inl (_, e) ↦ rw (e, send_timer_msg) refl
  | inr (e, q) ↦ let bad : err (failed e) ≡ ok tt = rw (q, send_timer_msg) at h in cc bad
]

-- If an agent that has reported nothing yet succeeds in stopping the timer of a job, and the server
-- handles its message, whatever its tables held before, then the agent has no timer for the job,
-- and the server shows of that job and instance that its timer is taken away and has no next run.
pub stop_timer-ShowsUnscheduled :
    (services : Services) (host : Host) (sched : JobScheduler) (params : DispatchJobParams)
    (i : String) (s : Timers) (server : Records)
    → params.instance_id ≡ some i
    → s.sent ≡ []
    → (stop_timer host sched params s).0 ≡ ok tt
    → (get params.base_job.eid (stop_timer host sched params s).1.schedules.mapping ≡ none)
      × ShowsUnscheduled
          (report_all services (stop_timer host sched params s).1.sent server).running
          (run_key params (some ScheduleType.timer) i)
unfolding stop_timer report_stopped stop_msg timer_msg
stop_timer-ShowsUnscheduled services host sched params i s server known nothing h =
    elim (remove_job_schedule-cases sched params.base_job.eid s.schedules) [
      | inr (e, r) ↦
          let bad : err (failed e) ≡ ok tt = rw (known, r, stop_timer, report_stopped) at h in
          cc bad
      | inl (t, r, (free, timers, others)) ↦
          let u : Timers = record s { schedules = t } in
          let h' : (send_timer_msg host (stop_msg host params i) u).0 ≡ ok tt =
            rw (known, r, stop_timer, report_stopped) at h in
          let sent = send_timer_msg-sent host (stop_msg host params i) u h' in
          let key = run_key params (some ScheduleType.timer) i in
          let found = find (has_key key) server.running in
          let (status, next) = told_unscheduled host params i found in
          let shown =
            one-shown services (stop_msg host params i) server key (stop_msg-key host params i) in
          rw (known, r, stop_timer, report_stopped, sent, nothing)
            (free, (told_of (stop_msg host params i) found, shown, status, next))
    ]
