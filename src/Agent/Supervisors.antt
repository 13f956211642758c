-- ===== src/Agent/Supervisors.antt =====
-- automate/src/scheduler/scheduler.rs: the supervised jobs of the agent. A supervisor is a task of
-- its own that runs the job again and again until it gets `Exit` on its channel. A channel is a
-- number, and the one that `unbounded_channel` makes is an argument.
pub mod Single
pub mod Reachable
use jiascheduler.Base.{
  ℕ, String, Bool, true, false, Option, none, some, List, [], ◌∷◌, ◌++◌, Result, ok, err, HashMap,
  get, insert, remove, ltb, ok_or, ◌/◌, if◌then◌else◌,
}
use jiascheduler.Base.State.{and_then, ◌>>=◌, ◌>>◌, pure, fail, lift}
use jiascheduler.Agent.ScheduleType.{ScheduleType}
use jiascheduler.Agent.ScheduleStatus.{ScheduleStatus}
use jiascheduler.Agent.BaseJob.{to_pure_job}
use jiascheduler.Agent.Messages.{DispatchJobParams, UpdateJobParams}
use jiascheduler.Agent.Contexts.{Contexts, Channel, Error, kill_job}
use jiascheduler.Agent.React.{Host}

pub data SupervisorSignal : Type 0 where
  update_options : DispatchJobParams → SupervisorSignal
  exit : SupervisorSignal

-- `jobs` is `supervisor_jobs`; `tasks` holds every supervisor that was spawned, with its job;
-- `signals` and `sent` what went over the channels and to the bridge, oldest first; `killed` the
-- runs that got a kill signal.
pub record Supervisors : Type 0 where
  pub jobs : HashMap Channel
  pub tasks : List (String × Channel)
  pub signals : List (Channel × SupervisorSignal)
  pub sent : List UpdateJobParams
  pub contexts : Contexts
  pub killed : List Channel

abbrev pub M : Type 0 → Type 0
M A = Supervisors → Result String A × Supervisors

abbrev pub signal : Channel → SupervisorSignal → Supervisors → Supervisors
signal tx v s = record s { signals = s.signals ++ (tx, v) ∷ [] }

-- Whether the job is new to the table. A supervisor that is there gets the new options.
unfoldable pub update_supervising : String → DispatchJobParams → Channel → M Bool
update_supervising eid opts tx s = elim (get eid s.jobs) [
  | some v ↦ (ok false, signal v (update_options opts) s)
  | none ↦ (ok true, record s { jobs = insert eid tx s.jobs })
]

-- `React::stop_supervising`.
unfoldable pub exit_supervisor : String → M (Unit {0})
exit_supervisor eid s = elim (get eid s.jobs) [
  | some supervisor_job ↦
      (ok tt, signal supervisor_job exit (record s { jobs = remove eid s.jobs }))
  | none ↦ (ok tt, record s { jobs = remove eid s.jobs })
]

-- The message of a change of the supervision.
unfoldable pub schedule_msg : Host → ScheduleStatus → DispatchJobParams → String → UpdateJobParams
schedule_msg host schedule_status params instance_id = record {
  schedule_id = params.schedule_id;
  schedule_type = some ScheduleType.daemon;
  base_job = to_pure_job params.base_job;
  fields = none;
  instance_id = instance_id;
  bind_ip = host.local_ip;
  bind_namespace = host.namespace;
  run_status = none;
  schedule_status = some schedule_status;
  exit_code = none;
  exit_status = none;
  stdout = none;
  stderr = none;
  created_user = params.created_user;
  bundle_output = none;
  run_id = "";
  start_time = none;
  end_time = none;
  prev_time = none;
  next_time = none;
  is_timeout = false;
}

unfoldable pub send_msg : Host → UpdateJobParams → M (Unit {0})
send_msg host params s = elim (host.send params) [
  | ok _ ↦ (ok tt, record s { sent = s.sent ++ params ∷ [] })
  | err e ↦ (err e, s)
]

abbrev pub instance_of : DispatchJobParams → Result String String
instance_of params = ok_or params.instance_id "not found instance_id in params"

abbrev pub spawn_new : String → Channel → Bool → M (Unit {0})
spawn_new eid tx false s = (ok tt, s)
spawn_new eid tx true s = (ok tt, record s { tasks = s.tasks ++ (eid, tx) ∷ [] })

unfoldable pub start_supervising : Host → Channel → DispatchJobParams → M (Unit {0})
unfolding update_supervising send_msg schedule_msg
start_supervising host tx params = do
  instance_id ← lift (instance_of params)
  send_msg host (schedule_msg host ScheduleStatus.supervising params instance_id)
  is_new ← update_supervising params.base_job.eid params tx
  spawn_new params.base_job.eid tx is_new

-- `React::kill_job`; the panic of a kind that has no runs does not arise here.
unfoldable pub kill_daemon : String → M (Unit {0})
kill_daemon eid s = elim (kill_job eid ScheduleType.daemon s.contexts) [
  | ok channels ↦ (ok tt, record s { killed = s.killed ++ channels })
  | err e ↦ (err "unreachable", s)
]

-- `Scheduler::stop_supervising`.
unfoldable pub stop_supervising : Host → DispatchJobParams → M (Unit {0})
unfolding kill_daemon exit_supervisor send_msg schedule_msg
stop_supervising host params = do
  kill_daemon params.base_job.eid
  exit_supervisor params.base_job.eid
  instance_id ← lift (instance_of params)
  send_msg host (schedule_msg host ScheduleStatus.unsupervised params instance_id)

unfoldable pub restart_supervising : Host → Channel → DispatchJobParams → M (Unit {0})
unfolding stop_supervising start_supervising
restart_supervising host tx params =
    stop_supervising host params >> start_supervising host tx params

-- The pause before a supervised job runs again, in nanoseconds: at least a second.
unfoldable pub restart_pause : DispatchJobParams → ℕ
restart_pause params = elim params.restart_interval [
  | none ↦ 1000000000
  | some v ↦ if ltb 0 (v / 1000000000) then v else 1000000000
]
