-- ===== src/Jobs/Actions.antt =====
-- What a user asks of one dispatch of a schedule on one instance (crates/service/src/logic/job/
-- schedule.rs, `update_run_status` and `action`; crates/service/src/logic/job.rs,
-- `can_dispatch_job`). The database's instances and the rights of the user are parameters.
pub mod Takes
pub mod Stops
use jiascheduler.Base.{
  ℕ, String, ◌==◌, Bool, true, false, ◌&&◌, Option, none, some, List, [], ◌∷◌, Result, ok, err,
  ok_or, ◌>>=◌, find, update_where, format, if◌then◌else◌,
}
use jiascheduler.Agent.JobAction.{JobAction}
use jiascheduler.Agent.RunStatus
use jiascheduler.Agent.RunStatus.{RunStatus}
use jiascheduler.Agent.ScheduleType
use jiascheduler.Agent.ScheduleType.{ScheduleType}
use jiascheduler.Agent.ScheduleStatus
use jiascheduler.Agent.ScheduleStatus.{ScheduleStatus}
use jiascheduler.Jobs.Tables.{
  Records, JobRunningStatus, JobScheduleHistory, DispatchData, DispatchTarget,
}
use jiascheduler.Jobs.Running.{Key, has_key}
use jiascheduler.Jobs.Callback.{has_schedule}
use jiascheduler.Jobs.Push.{Network, Response, Reply, DispatchJobRequest, is_ok_code, url_of}

-- The user, and what the database and the enforcer answer.
pub record Caller : Type 0 where
  pub username : String
  pub can_write_job : String → Result String Bool
  pub can_manage_instance : Result String Bool
  pub find_instance : String → Option DispatchTarget

-- A job that was scheduled by someone is only for that user, or for one who manages instances.
unfoldable pub may_reschedule : Caller → String → Result String Bool → Result String Bool
may_reschedule caller schedule_user (err e) = err e
may_reschedule caller schedule_user (ok true) = ok true
may_reschedule caller schedule_user (ok false) = ok (schedule_user == caller.username)

abbrev for_schedule : Caller → Option String → Result String Bool
for_schedule caller none = ok true
for_schedule caller (some schedule_user) =
    may_reschedule caller schedule_user caller.can_manage_instance

unfoldable pub can_dispatch_job : Caller → Option String → String → Result String Bool
can_dispatch_job caller schedule_user eid = elim (caller.can_write_job eid) [
  | err e ↦ err e
  | ok false ↦ ok false
  | ok true ↦ for_schedule caller schedule_user
]

-- The row of a run that an action stops, with the status of its schedule if that changes.
abbrev pub set_stopped : String → Option ScheduleStatus → JobRunningStatus → JobRunningStatus
unfolding RunStatus.to_string ScheduleStatus.to_string
set_stopped username none row = record row {
  run_status = RunStatus.to_string RunStatus.stop;
  updated_user = username;
}
set_stopped username (some schedule_status) row = record row {
  run_status = RunStatus.to_string RunStatus.stop;
  schedule_status = ScheduleStatus.to_string schedule_status;
  updated_user = username;
}

abbrev pub mark_stopped : String → Key → Option ScheduleStatus → Records → Records
mark_stopped username key schedule_status s = record s {
  running = update_where (has_key key) (set_stopped username schedule_status) s.running;
}

unfoldable pub update_run_status : String → Key → JobAction → Records → Records
update_run_status username key JobAction.stop_supervising s =
    mark_stopped username key (some ScheduleStatus.unsupervised) s
update_run_status username key JobAction.stop_timer s =
    mark_stopped username key (some ScheduleStatus.unscheduled) s
update_run_status username key JobAction.kill s = mark_stopped username key none s
update_run_status username key _ s = s

-- What the action is about, once it is allowed.
pub record Prepared : Type 0 where
  pub ins : DispatchTarget
  pub key : Key
  pub data_ : DispatchData

abbrev pub allowed : Bool → Result String (Unit {0})
allowed true = ok tt
allowed false = err "Rescheduling is not allowed unless you are the task's original scheduler."

module _ (caller : Caller) where
  -- The lookups and the check of the rights.
  unfoldable pub prepare_action : String → String → List JobScheduleHistory → Result String Prepared
  unfolding ScheduleType.try_from ScheduleType.to_string
  prepare_action schedule_id instance_id histories =
      ok_or (caller.find_instance instance_id) "cannot found instance" >>= λ ins.
      ok_or (find (has_schedule schedule_id) histories)
        (format ("cannot get shedule by " ∷ schedule_id ∷ []))
      >>= λ (schedule_record : JobScheduleHistory).
          can_dispatch_job caller (some schedule_record.created_user) schedule_record.eid >>= λ can.
          allowed can >>= λ _.
          ok_or schedule_record.dispatch_data "cannot get dispatch data" >>= λ data_.
          ScheduleType.try_from schedule_record.schedule_type >>= λ schedule_type. ok (record {
            ins = ins;
            key = record {
              eid = schedule_record.eid;
              schedule_type = ScheduleType.to_string schedule_type;
              instance_id = instance_id;
            };
            data_ = data_;
          })

  abbrev pub action_request : Prepared → JobAction → String → DispatchJobRequest
  action_request prepared action run_id = record {
    agent_ip = prepared.ins.ip;
    mac_addr = prepared.ins.mac_addr;
    dispatch_params = record prepared.data_.params {
      instance_id = some prepared.ins.instance_id;
      created_user = caller.username;
      action = action;
      run_id = run_id;
    };
  }

abbrev pub failed_dispatch : String → Result String String
failed_dispatch e = err (format ("failed dispatch job, " ∷ e ∷ []))

abbrev pub read_reply : Result String Reply → Result String String
read_reply (err e) = failed_dispatch e
read_reply (ok ret) =
    if is_ok_code ret.code
    then ok ret.json
    else err (format ("failed to dispatch job, " ∷ ret.msg ∷ []))

abbrev pub read_response : Result String Response → Result String String
read_response (err e) = failed_dispatch e
read_response (ok response) = read_reply response.body

abbrev pub send_action : Network → DispatchJobRequest → DispatchTarget → Result String String
send_action network request ins = elim (network.get_link_pair ins.ip ins.mac_addr) [
  | err e ↦ err "Unable to find agent registration information."
  | ok comet_addr ↦ read_response (network.post (url_of none comet_addr) request)
]

-- An agent that cannot be reached or does not take the action: the rows are changed all the same.
unfoldable pub after_action :
    String → Key → JobAction → Result String String → Records → Result String String × Records
after_action username key action (ok ret) s = (ok ret, s)
after_action username key action (err e) s = (err e, update_run_status username key action s)

module _ (network : Network) (caller : Caller) where
  abbrev pub act :
      JobAction → String → Result String Prepared → Records → Result String String × Records
  act action run_id (err e) s = (err e, s)
  act action run_id (ok prepared) s =
      after_action caller.username prepared.key action
        (send_action network (action_request caller prepared action run_id) prepared.ins) s

  unfoldable pub action :
      String → String → JobAction → String → Records → Result String String × Records
  action schedule_id instance_id job_action run_id s =
      act job_action run_id (prepare_action caller schedule_id instance_id s.histories) s
