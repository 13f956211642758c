-- ===== src/Jobs/Callback.antt =====
-- What the server does when a run of a job has stopped (crates/service/src/logic/job/schedule.rs,
-- `eval` and `completed_callback`).
pub mod Due
use jiascheduler.Base.{
  ℕ, nat_eq, String, ◌==◌, Bool, true, false, not, ◌&&◌, Option, none, some, List, [], ◌∷◌, ◌++◌,
  map, Result, ok, err, find, insert, HashMap, format, if◌then◌else◌,
}
use jiascheduler.Base.State.{◌>>=◌, ◌>>◌, pure, lift}
use jiascheduler.Agent.RunStatus.{RunStatus}
use jiascheduler.Agent.Messages.{UpdateJobParams, BundleOutputParams}
use jiascheduler.Jobs.Tables.{Records, JobScheduleHistory, Post, M}
use jiascheduler.Jobs.Services.{
  Services, Job, CompletedCallbackOpts, CompletedCallbackTriggerType, BundleScriptRecord,
  BundleScriptResult,
}

abbrev pub or_empty : Option String → String
or_empty none = ""
or_empty (some s) = s

-- The value and the error of a condition.
abbrev pub evaluated : Result String Bool → Bool × Option String
evaluated (ok v) = (v, none)
evaluated (err e) = (false, some e)

module _ (services : Services) where
  unfoldable pub result_of : BundleScriptRecord → Option BundleOutputParams → BundleScriptResult
  result_of v none = record {
    name = v.name;
    eid = v.eid;
    cond_expr = v.cond_expr;
    exit_code = none;
    exit_status = none;
    stdout = none;
    stderr = none;
    eval_err = none;
    result = false;
  }
  result_of v (some val) =
      let (result, eval_err) =
        evaluated (
          services.eval_boolean (format ("$v=" ∷ or_empty val.stdout ∷ "; " ∷ v.cond_expr ∷ []))) in
      record {
        name = v.name;
        eid = v.eid;
        cond_expr = v.cond_expr;
        exit_code = val.exit_code;
        exit_status = val.exit_status;
        stdout = val.stdout;
        stderr = val.stderr;
        eval_err = eval_err;
        result = result;
      }

  -- The result of each script, by the first output that is its own.
  unfoldable pub eval : List BundleScriptRecord → List BundleOutputParams → List BundleScriptResult
  eval script output = map (λ v. result_of v (find (λ val. v.eid == val.eid) output)) script

  -- The headers that can be sent; one that cannot be read is left out.
  abbrev add_header : HashMap String → Result String String → Result String String → HashMap String
  add_header header (ok k) (ok v) = insert k v header
  add_header header _ _ = header

  abbrev pub headers_of : HashMap String → HashMap String → HashMap String
  headers_of [] header = header
  headers_of ((k, v) ∷ kv) header =
      headers_of kv (add_header header (services.header_name k) (services.header_value v))

  abbrev pub header_map : Option (HashMap String) → HashMap String
  header_map none = []
  header_map (some kv) = headers_of kv []

  -- The callback that the job had when it was scheduled.
  abbrev pub callback_of :
      Option JobScheduleHistory → Result String (Option (CompletedCallbackOpts × Job))
  callback_of none = ok none
  callback_of (some history) = elim history.snapshot_data [
    | none ↦ ok none
    | some v ↦ elim (services.read_job v) [
      | err e ↦ err e
      | ok job ↦ elim job.completed_callback [
        | none ↦ ok none
        | some w ↦ elim (services.read_callback w) [
          | err e ↦ err e
          | ok opts ↦ ok (some (opts, job))
        ]
      ]
    ]
  ]

abbrev pub is_stop : Option RunStatus → Bool
is_stop (some RunStatus.stop) = true
is_stop _ = false

abbrev pub is_zero : Option ℕ → Bool
is_zero none = false
is_zero (some code) = nat_eq code 0

abbrev pub is_triggered : CompletedCallbackTriggerType → Option ℕ → Bool
is_triggered CompletedCallbackTriggerType.all exit_code = true
is_triggered CompletedCallbackTriggerType.error exit_code = not (is_zero exit_code)

-- The early returns of a callback that is not enabled or whose run goes on, and the trigger.
abbrev pub is_wanted : UpdateJobParams → CompletedCallbackOpts → Bool
is_wanted params opts =
    opts.enable && (is_stop params.run_status && is_triggered opts.trigger_on params.exit_code)

abbrev pub has_schedule : String → JobScheduleHistory → Bool
has_schedule schedule_id history = history.schedule_id == schedule_id

module _ (services : Services) where
  -- `send().await`: the request leaves the server, whatever comes back.
  unfoldable pub post : Post → M (Unit {0})
  post request s = (services.send request, record s { posts = s.posts ++ request ∷ [] })

  unfoldable pub call_back : UpdateJobParams → CompletedCallbackOpts → Job → M (Unit {0})
  call_back params opts job s = elim (services.callback_body params job) [
    | err e ↦ (err e, s)
    | ok body ↦
        post (record { url = opts.url; headers = header_map services opts.header; body = body }) s
  ]

  unfoldable pub with_callback :
      UpdateJobParams → Result String (Option (CompletedCallbackOpts × Job)) → M (Unit {0})
  with_callback params (err e) s = (err e, s)
  with_callback params (ok none) s = (ok tt, s)
  with_callback params (ok (some (opts, job))) s =
      if is_wanted params opts then call_back params opts job s else (ok tt, s)

  unfoldable pub completed_callback : UpdateJobParams → M (Unit {0})
  completed_callback params s =
      with_callback params
        (callback_of services (find (has_schedule params.schedule_id) s.histories)) s
