-- ===== src/Jobs/Push.antt =====
-- The dispatch of a job to one agent over HTTP (crates/service/src/logic/job/schedule.rs,
-- `schedule_job` and `redispatch_job`).
use jiascheduler.Base.{
  ℕ, nat_eq, String, Bool, true, false, Option, none, some, List, [], ◌∷◌, Result, ok, err, format,
  if◌then◌else◌,
}
use jiascheduler.Agent.Messages.{DispatchJobParams}
use jiascheduler.Workflow.Tables.{DispatchResult}
use jiascheduler.Jobs.Tables.{DispatchTarget}

-- The JSON body of an answer: its text, and the fields `code` and `msg` of it.
pub record Reply : Type 0 where
  pub json : String
  pub code : Option ℕ
  pub msg : String

-- An answer of a server: the error of its status, if that is one, and its body.
pub record Response : Type 0 where
  pub status_error : Option String
  pub body : Result String Reply

-- `automate::DispatchJobRequest`.
pub record DispatchJobRequest : Type 0 where
  pub agent_ip : String
  pub mac_addr : String
  pub dispatch_params : DispatchJobParams

-- What lies between the server and the agents: the table of links in Redis, which tells the
-- address of the comet server that holds the agent's connection, and the HTTP client.
pub record Network : Type 0 where
  pub get_link_pair : String → String → Result String String
  pub post : String → DispatchJobRequest → Result String Response
  -- The order in which the workers of `async_batch_do` move.
  pub schedule : List ℕ

abbrev failed_push : DispatchTarget → String → DispatchResult
failed_push v e = record {
  namespace = v.namespace;
  bind_ip = v.ip;
  instance_id = v.instance_id;
  response = "null";
  has_err = true;
  err = some e;
}

abbrev pub is_ok_code : Option ℕ → Bool
is_ok_code none = false
is_ok_code (some code) = nat_eq code 20000

abbrev pushed : DispatchTarget → Reply → DispatchResult
pushed v ret = record {
  namespace = v.namespace;
  bind_ip = v.ip;
  instance_id = v.instance_id;
  response = ret.json;
  has_err = if is_ok_code ret.code then false else true;
  err = if is_ok_code ret.code then none else some ret.msg;
}

abbrev pub read_body : DispatchTarget → Result String Reply → DispatchResult
read_body v (err e) = failed_push v e
read_body v (ok ret) = pushed v ret

abbrev request_of : DispatchTarget → DispatchJobParams → DispatchJobRequest
request_of v params = record {
  agent_ip = v.ip;
  mac_addr = v.mac_addr;
  dispatch_params = record params { instance_id = some v.instance_id };
}

-- `error_for_status`, then the JSON of the body.
abbrev pub checked : DispatchTarget → Response → DispatchResult
checked v response = elim response.status_error [
  | some e ↦ failed_push v e
  | none ↦ read_body v response.body
]

abbrev pub after_post :
    (DispatchTarget → Response → DispatchResult)
    → DispatchTarget
    → Result String Response
    → DispatchResult
after_post check v (err e) = failed_push v e
after_post check v (ok response) = check v response

abbrev pub url_of : Option String → String → String
url_of none comet_addr = format ("http://" ∷ comet_addr ∷ "/dispatch" ∷ [])
url_of (some secret) comet_addr =
    format ("http://" ∷ comet_addr ∷ "/dispatch?secret=" ∷ secret ∷ [])

module _ (network : Network) where
  -- The closure of `schedule_job`, which sends a secret and looks at the status of the answer.
  unfoldable pub push : String → DispatchJobParams → DispatchTarget → DispatchResult
  push secret params v = elim (network.get_link_pair v.ip v.mac_addr) [
    | err e ↦ failed_push v e
    | ok comet_addr ↦
        after_post checked v (network.post (url_of (some secret) comet_addr) (request_of v params))
  ]

  -- The closure of `redispatch_job`, which does neither.
  unfoldable pub push_again : DispatchJobParams → DispatchTarget → DispatchResult
  push_again params v = elim (network.get_link_pair v.ip v.mac_addr) [
    | err e ↦ failed_push v e
    | ok comet_addr ↦
        after_post (λ v response. read_body v response.body) v
          (network.post (url_of none comet_addr) (request_of v params))
  ]
