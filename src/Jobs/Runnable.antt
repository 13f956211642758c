-- ===== src/Jobs/Runnable.antt =====
-- What an agent is sent again when it comes online (crates/service/src/logic/job/schedule.rs,
-- `dispatch_runnable_job_to_endpoint`). An answer of the agent is only logged. The result is the
-- requests that are posted, in their order.
pub mod Sent
use jiascheduler.Base.{
  String, ◌==◌, Bool, true, false, ◌&&◌, ◌||◌, Option, none, some, List, [], ◌∷◌, ◌++◌, Result, ok,
  err, ok_or, ◌>>=◌, filter, if◌then◌else◌,
}
use jiascheduler.Agent.ScheduleStatus
use jiascheduler.Agent.ScheduleStatus.{ScheduleStatus}
use jiascheduler.Jobs.Tables.{
  Records, JobRunningStatus, JobScheduleHistory, DispatchData, DispatchTarget,
}
use jiascheduler.Jobs.Callback.{has_schedule}
use jiascheduler.Jobs.Push.{Network, DispatchJobRequest}

-- A timer that is set up or about to be, on this instance.
abbrev pub is_runnable : String → JobRunningStatus → Bool
unfolding ScheduleStatus.to_string
is_runnable instance_id row =
    ((row.schedule_status == ScheduleStatus.to_string ScheduleStatus.scheduling)
      || (row.schedule_status == ScheduleStatus.to_string ScheduleStatus.prepare))
    && (row.instance_id == instance_id)

-- The left join of one row: a schedule without a history, or a history without its dispatch, is a
-- NULL.
abbrev pub data_of : List JobScheduleHistory → List (Option DispatchData)
data_of [] = none ∷ []
data_of (h ∷ []) = h.dispatch_data ∷ []
data_of (h ∷ g ∷ histories) = h.dispatch_data ∷ data_of (g ∷ histories)

unfoldable pub joined : List JobScheduleHistory → List JobRunningStatus → List (Option DispatchData)
joined histories [] = []
joined histories (row ∷ rows) =
    data_of (filter (has_schedule row.schedule_id) histories) ++ joined histories rows

-- `into_tuple` of the whole answer: a NULL is an error.
unfoldable pub decoded : List (Option DispatchData) → Result String (List DispatchData)
decoded [] = ok []
decoded (v ∷ values) = ok_or v "unexpected null" >>= λ data_.
    decoded values >>= λ (rest : List DispatchData). ok (data_ ∷ rest)

abbrev pub runnable_request : String → DispatchTarget → DispatchData → DispatchJobRequest
runnable_request bind_ip ins data_ = record {
  agent_ip = bind_ip;
  mac_addr = ins.mac_addr;
  dispatch_params = record data_.params { instance_id = some ins.instance_id };
}

module _ (network : Network) where
  abbrev pub linked :
      Result String String → DispatchJobRequest → List DispatchJobRequest → List DispatchJobRequest
  linked (err e) request rest = rest
  linked (ok comet_addr) request rest = request ∷ rest

  unfoldable pub send_all : String → DispatchTarget → List DispatchData → List DispatchJobRequest
  send_all bind_ip ins [] = []
  send_all bind_ip ins (data_ ∷ runnable) =
      linked (network.get_link_pair bind_ip ins.mac_addr) (runnable_request bind_ip ins data_)
        (send_all bind_ip ins runnable)

  unfoldable pub dispatch_runnable_job_to_endpoint :
      Option DispatchTarget → String → Records → Result String (List DispatchJobRequest)
  dispatch_runnable_job_to_endpoint found bind_ip s = ok_or found "cannot found instance" >>= λ ins.
      decoded (joined s.histories (filter (is_runnable ins.instance_id) s.running)) >>= λ runnable.
      ok (send_all bind_ip ins runnable)
