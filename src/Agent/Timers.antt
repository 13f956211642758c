-- ===== src/Agent/Timers.antt =====
-- automate/src/scheduler/scheduler.rs: a job that runs by a timer, from `start_timer` over the ticks
-- of the cron scheduler to `stop_timer`. A tick that comes while the task runs has its own numbers:
-- the arguments `run_id` and `fresh` are what nanoid draws, `now` is the clock.
pub mod Places
use jiascheduler.Base.{ℕ, String, false, Option, none, some, List, [], ◌∷◌, ◌++◌, Result, ok, err}
use jiascheduler.Agent.JobAction.{JobAction}
use jiascheduler.Agent.ScheduleType.{ScheduleType}
use jiascheduler.Agent.ScheduleStatus.{ScheduleStatus}
use jiascheduler.Agent.RunStatus.{RunStatus}
use jiascheduler.Agent.BaseJob.{to_pure_job}
use jiascheduler.Agent.Messages.{DispatchJobParams, UpdateJobParams}
use jiascheduler.Agent.Contexts.{Contexts, Channel, Error, can_execute}
use jiascheduler.Agent.React.{React, Host, Fault, failed, panicked}
use jiascheduler.Agent.Execution.{exec_job, register, end_run}
use jiascheduler.Agent.Schedules.{Schedules, JobScheduler, add_job_schedule, remove_job_schedule}

-- The numbers of one tick.
pub record Tick : Type 0 where
  pub uuid : ℕ
  pub now : ℕ
  pub run_id : String
  pub fresh : String
  pub tx : Channel

abbrev pub with_run_id : Tick → DispatchJobParams → DispatchJobParams
with_run_id tick params = record params { run_id = tick.run_id }

-- An error of the run is logged; a panic ends the task.
unfoldable pub run_tick :
    Host → Tick → Option ℕ → DispatchJobParams → React → Result Fault (Unit {0}) × React
run_tick host tick next_time p s =
    let registered = (register p tick.fresh tick.tx s).1 in
    let ran =
      exec_job host p.base_job (some ScheduleType.timer) (some tick.now) next_time p registered in
    end_run p ran

-- The next tick is told by the cron scheduler; an error of it is a panic of `unwrap`.
unfoldable pub admitted_tick :
    Host
    → Tick
    → Result String (Option ℕ)
    → DispatchJobParams
    → React
    → Result Fault (Unit {0}) × React
admitted_tick host tick (err e) p s = (err panicked, s)
admitted_tick host tick (ok next_time) p s = run_tick host tick next_time p s

unfoldable pub tick_after :
    Host
    → JobScheduler
    → Tick
    → DispatchJobParams
    → Result Error Contexts
    → React
    → Result Fault (Unit {0}) × React
tick_after host sched tick p (err e) s = (ok tt, s)
tick_after host sched tick p (ok contexts) s =
    admitted_tick host tick (sched.next_tick_for_job tick.uuid) p (record s { contexts = contexts })

-- The handler of a tick.
unfoldable pub on_tick :
    Host → JobScheduler → Tick → DispatchJobParams → React → Result Fault (Unit {0}) × React
on_tick host sched tick params s =
    let p = with_run_id tick params in tick_after host sched tick p (can_execute p s.contexts) s

-- The timers of the agent and the messages handed to the bridge.
pub record Timers : Type 0 where
  pub schedules : Schedules
  pub sent : List UpdateJobParams

unfoldable pub timer_msg :
    Host
    → Option RunStatus
    → ScheduleStatus
    → Option ℕ
    → DispatchJobParams
    → String
    → UpdateJobParams
timer_msg host run_status schedule_status next_time params instance_id = record {
  schedule_id = params.schedule_id;
  schedule_type = some ScheduleType.timer;
  base_job = to_pure_job params.base_job;
  fields = none;
  instance_id = instance_id;
  bind_ip = host.local_ip;
  bind_namespace = host.namespace;
  run_status = run_status;
  schedule_status = some schedule_status;
  exit_code = none;
  exit_status = none;
  stdout = none;
  stderr = none;
  created_user = params.created_user;
  bundle_output = none;
  run_id = "";
  start_time = none;
  end_time = none;
  prev_time = none;
  next_time = next_time;
  is_timeout = false;
}

unfoldable pub send_timer_msg : Host → UpdateJobParams → Timers → Result Fault (Unit {0}) × Timers
send_timer_msg host msg s = elim (host.send msg) [
  | ok _ ↦ (ok tt, record s { sent = s.sent ++ msg ∷ [] })
  | err e ↦ (err (failed e), s)
]

-- After `add_job_schedule`: a timer that has no next run is a panic of `unwrap`.
unfoldable pub report_started :
    Host
    → DispatchJobParams
    → String
    → Result String (Option ℕ)
    → Timers
    → Result Fault (Unit {0}) × Timers
report_started host params instance_id (err e) s = (err (failed e), s)
report_started host params instance_id (ok none) s = (err panicked, s)
report_started host params instance_id (ok (some next)) s =
    send_timer_msg host
      (timer_msg host (some RunStatus.prepare) ScheduleStatus.scheduling (some next) params
        instance_id)
      s

-- `expr` is whether the cron expression can be read.
unfoldable pub start_timer :
    Host
    → JobScheduler
    → Result String (Unit {0})
    → DispatchJobParams
    → Timers
    → Result Fault (Unit {0}) × Timers
start_timer host sched expr params s = elim params.instance_id [
  | none ↦ (err panicked, s)
  | some instance_id ↦ elim expr [
    | err e ↦ (err (failed e), s)
    | ok _ ↦
        let added = add_job_schedule sched params.base_job.eid s.schedules in
        report_started host params instance_id added.0 (record s { schedules = added.1 })
  ]
]

unfoldable pub report_stopped :
    Host
    → DispatchJobParams
    → String
    → Result String (Unit {0})
    → Timers
    → Result Fault (Unit {0}) × Timers
report_stopped host params instance_id (err e) s = (err (failed e), s)
report_stopped host params instance_id (ok _) s =
    send_timer_msg host (timer_msg host none ScheduleStatus.unscheduled none params instance_id) s

unfoldable pub stop_timer :
    Host → JobScheduler → DispatchJobParams → Timers → Result Fault (Unit {0}) × Timers
stop_timer host sched params s = elim params.instance_id [
  | none ↦ (err panicked, s)
  | some instance_id ↦
      let removed = remove_job_schedule sched params.base_job.eid s.schedules in
      report_stopped host params instance_id removed.0 (record s { schedules = removed.1 })
]
