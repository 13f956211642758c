-- ===== src/Agent/Execution.antt =====
-- automate/src/scheduler/scheduler.rs: the run of a job, from the message that asks for it to the
-- messages that report it.
pub mod Reports
pub mod Places
use jiascheduler.Base.{
  ℕ, String, Bool, true, false, Option, none, some, List, [], ◌∷◌, ◌++◌, Result, ok, err,
  if◌then◌else◌,
}
use jiascheduler.Base.State.{and_then, ◌>>=◌, ◌>>◌, pure, fail}
use jiascheduler.Agent.JobAction.{JobAction}
use jiascheduler.Agent.ScheduleType.{ScheduleType}
use jiascheduler.Agent.RunStatus.{RunStatus}
use jiascheduler.Agent.BaseJob.{
  BaseJob, BundleScript, BundleOutput, to_pure_job, get_exit_status, get_exit_code, get_stdout,
  get_stderr,
}
use jiascheduler.Agent.Messages.{DispatchJobParams, UpdateJobParams, BundleOutputParams, parse}
use jiascheduler.Agent.Executor.{run}
use jiascheduler.Agent.Contexts.{
  Contexts, Channel, Error, can_execute, set_execute_context, end_execute,
}
use jiascheduler.Agent.React.{React, Host, Fault, failed, refused, panicked, M}

-- A method on the table of running jobs, in the monad. `unreachable!()` is a panic.
abbrev pub fault_of : Error → Fault
fault_of Error.unreachable = panicked
fault_of e = refused e

abbrev pub with_contexts : Result Error Contexts → M (Unit {0})
with_contexts (ok contexts) s = (ok tt, record s { contexts = contexts })
with_contexts (err e) s = (err (fault_of e), s)

abbrev pub with_registered : Result Error (Contexts × String) → M String
with_registered (ok (contexts, run_id)) s = (ok run_id, record s { contexts = contexts })
with_registered (err e) s = (err (fault_of e), s)

-- `React::send_update_job_msg`.
unfoldable pub send_update_job_msg : Host → UpdateJobParams → M (Unit {0})
send_update_job_msg host params s = elim (host.send params) [
  | ok _ ↦ (ok tt, record s { sent = s.sent ++ params ∷ [] })
  | err e ↦ (err (failed e), s)
]

-- The first message of `exec_job`. Fields that `..Default::default()` fills are none or empty.
unfoldable pub running_msg :
    Host → Option ScheduleType → Option ℕ → Option ℕ → DispatchJobParams → String → UpdateJobParams
running_msg host schedule_type prev_time next_time params instance_id = record {
  schedule_id = params.schedule_id;
  schedule_type = schedule_type;
  base_job = to_pure_job params.base_job;
  fields = params.fields;
  instance_id = instance_id;
  bind_ip = host.local_ip;
  bind_namespace = host.namespace;
  run_status = some RunStatus.running;
  schedule_status = none;
  exit_code = none;
  exit_status = none;
  stdout = none;
  stderr = none;
  created_user = params.created_user;
  bundle_output = none;
  run_id = params.run_id;
  start_time = some host.started;
  end_time = none;
  prev_time = prev_time;
  next_time = next_time;
  is_timeout = false;
}

abbrev pub empty_bundle : Option (List BundleScript) → Option (List BundleOutputParams)
empty_bundle none = none
empty_bundle (some _) = some []

-- The message for a run that could not be carried out.
unfoldable pub error_msg :
    Host → Option ScheduleType → DispatchJobParams → String → String → UpdateJobParams
error_msg host schedule_type params instance_id e = record {
  schedule_id = params.schedule_id;
  schedule_type = schedule_type;
  base_job = to_pure_job params.base_job;
  fields = params.fields;
  instance_id = instance_id;
  bind_ip = host.local_ip;
  bind_namespace = host.namespace;
  run_status = some RunStatus.stop;
  schedule_status = none;
  exit_code = some 99;
  exit_status = some e;
  stdout = some e;
  stderr = some e;
  created_user = params.created_user;
  bundle_output = empty_bundle params.base_job.bundle_script;
  run_id = params.run_id;
  start_time = some host.started;
  end_time = some host.ended;
  prev_time = none;
  next_time = none;
  is_timeout = false;
}

-- The message for a run that ended.
unfoldable pub stop_msg :
    Host → Option ScheduleType → DispatchJobParams → String → BundleOutput → UpdateJobParams
stop_msg host schedule_type params instance_id result = record {
  schedule_id = params.schedule_id;
  schedule_type = schedule_type;
  base_job = to_pure_job params.base_job;
  fields = params.fields;
  instance_id = instance_id;
  bind_ip = host.local_ip;
  bind_namespace = host.namespace;
  run_status = some RunStatus.stop;
  schedule_status = none;
  exit_code = get_exit_code result;
  exit_status = get_exit_status result;
  stdout = get_stdout result;
  stderr = get_stderr result;
  created_user = params.created_user;
  bundle_output = parse result;
  run_id = params.run_id;
  start_time = some host.started;
  end_time = some host.ended;
  prev_time = none;
  next_time = none;
  is_timeout = false;
}

-- `job` is the job that the `Executor` was built with. A missing `instance_id` is a panic of
-- `unwrap`.
unfoldable pub report :
    Host
    → Option ScheduleType
    → DispatchJobParams
    → String
    → Result String BundleOutput
    → M BundleOutput
unfolding send_update_job_msg error_msg stop_msg
report host schedule_type params instance_id (err e) = do
  send_update_job_msg host (error_msg host schedule_type params instance_id e)
  fail (failed e)
report host schedule_type params instance_id (ok result) = do
  send_update_job_msg host (stop_msg host schedule_type params instance_id result)
  pure result

abbrev pub unwrap : {A : Type 0} → Option A → M A
unwrap none = fail panicked
unwrap (some a) = pure a

unfoldable pub exec_job :
    Host → BaseJob → Option ScheduleType → Option ℕ → Option ℕ → DispatchJobParams → M BundleOutput
unfolding report running_msg send_update_job_msg
exec_job host job schedule_type prev_time next_time params = do
  instance_id ← unwrap params.instance_id
  send_update_job_msg host (running_msg host schedule_type prev_time next_time params instance_id)
  report host schedule_type params instance_id (run host.process job)

-- The schedule type of a run, and the job with its timeout: a supervised job has none.
abbrev pub schedule_run : JobAction → BaseJob → M (ScheduleType × BaseJob)
schedule_run JobAction.start_supervising job =
    pure (ScheduleType.daemon, record job { timeout = 0 })
schedule_run JobAction.exec job = pure (ScheduleType.once, job)
schedule_run _ job = fail panicked

-- `React::set_execute_context` and `React::end_execute`, in the monad.
unfoldable pub register : DispatchJobParams → String → Channel → M String
register params fresh tx s = with_registered (set_execute_context params fresh tx s.contexts) s

unfoldable pub finish : DispatchJobParams → M (Unit {0})
finish params s = with_contexts (end_execute params s.contexts) s

unfoldable pub wait_exec : Host → String → Channel → DispatchJobParams → M (Unit {0})
wait_exec host fresh tx params = do
  kind ← schedule_run params.action params.base_job
  _ ← register params fresh tx
  _ ← exec_job host kind.1 (some kind.0) none none params
  finish params

-- What a run sends back: nothing, or its standard output, exit code and standard error.
pub data Reply : Type 0 where
  null : Reply
  outcome : Option String → Option ℕ → Option String → Reply

-- `task::spawn` of the run: the reply does not wait for it.
abbrev spawn : DispatchJobParams → M Reply
spawn params s = (ok null, record s { spawned = s.spawned ++ params ∷ [] })

unfoldable pub run_sync : Host → ScheduleType × BaseJob → DispatchJobParams → M Reply
run_sync host kind params = do
  result ← exec_job host kind.1 (some kind.0) none none params
  finish params
  pure (outcome (get_stdout result) (get_exit_code result) (get_stderr result))

unfoldable pub exec_admitted : Host → String → Channel → DispatchJobParams → M Reply
exec_admitted host fresh tx params = do
  kind ← schedule_run params.action params.base_job
  _ ← register params fresh tx
  if params.is_sync then run_sync host kind params else spawn params

-- A job that may not run now is logged, and the reply is empty.
abbrev pub exec_after :
    Result Error Contexts → Host → String → Channel → DispatchJobParams → M Reply
exec_after (err e) host fresh tx params s = (ok null, s)
exec_after (ok contexts) host fresh tx params s =
    exec_admitted host fresh tx params (record s { contexts = contexts })

unfoldable pub exec : Host → String → Channel → DispatchJobParams → M Reply
exec host fresh tx params s = exec_after (can_execute params s.contexts) host fresh tx params s

-- `end_execute` behind a run whose error is logged. A panic ends the task before it.
unfoldable pub end_run :
    DispatchJobParams → Result Fault BundleOutput × React → Result Fault (Unit {0}) × React
end_run params (err panicked, s) = (err panicked, s)
end_run params (err (failed e), s) = finish params s
end_run params (err (refused e), s) = finish params s
end_run params (ok result, s) = finish params s

-- The task that an asynchronous `exec` spawns.
unfoldable pub exec_task : Host → DispatchJobParams → M (Unit {0})
exec_task host params s =
    end_run params (exec_job host params.base_job (some ScheduleType.once) none none params s)
