-- ===== src/Jobs/Tests.antt =====
-- The theorems about crates/service/src/logic/job at concrete inputs.
use jiascheduler.Base.{
  ◌≡◌, ◌≢◌, ◌⊎◌, ◌↔◌, refl, String, true, false, none, some, ok, err, [], ◌∷◌, get, remove,
}
use jiascheduler.Agent.JobAction.{JobAction}
use jiascheduler.Agent.RunStatus.{RunStatus}
use jiascheduler.Agent.ScheduleType.{ScheduleType}
use jiascheduler.Agent.BaseJob.{BaseJob, Output}
use jiascheduler.Agent.Messages.{DispatchJobParams, UpdateJobParams}
use jiascheduler.Agent.React.{React, Host}
use jiascheduler.Agent.Execution.{exec_job}
use jiascheduler.Agent.Schedules.{JobScheduler, remove_job_schedule}
use jiascheduler.Agent.Timers.{Timers, report_stopped, send_timer_msg, stop_timer}
use jiascheduler.Jobs.Tables.{Records, JobScheduleHistory}
use jiascheduler.Jobs.Services.{Services, Job, CompletedCallbackOpts, CompletedCallbackTriggerType}
use jiascheduler.Jobs.Callback.{completed_callback}
use jiascheduler.Jobs.Callback.Due.{IsDue, completed_callback_iff_IsDue}
use jiascheduler.Jobs.Running.Board.{Board, Shows}
use jiascheduler.Jobs.Report.{update_job_status}
use jiascheduler.Jobs.Report.Refines.{report_all, tell_all, report_all-Shows}
use jiascheduler.Jobs.Report.Ended.{Ends, update_job_status-Ends}
use jiascheduler.Jobs.Report.Delivered.{run_key, ShowsStopped, exec_job-ShowsStopped}
use jiascheduler.Jobs.Report.Unscheduled.{ShowsUnscheduled, stop_timer-ShowsUnscheduled}
use jiascheduler.Jobs.Push.{Network}
use jiascheduler.BatchDo.{run, step}
use jiascheduler.Jobs.Actions.{Caller, Prepared, prepare_action, action}
use jiascheduler.Jobs.Actions.Takes.{IsAllowed}
use jiascheduler.Jobs.Actions.Stops.{IsSettled, action-IsSettled}
use jiascheduler.Jobs.Prepare.{Sources, ScheduleRequest}
use jiascheduler.Jobs.Schedule.{schedule_job}
use jiascheduler.Jobs.Schedule.Outcome.{WorkersEnd, IsRefused, IsScheduled, schedule_job-Outcome}

abbrev base_job : BaseJob
base_job = record {
  eid = "backup";
  cmd_name = "bash";
  code = "tar cf all.tar .";
  bundle_script = none;
  args = "-c" ∷ [];
  upload_file = none;
  read_code_from_stdin = false;
  timeout = 60;
  work_dir = none;
  work_user = none;
  max_retry = some 1;
  max_parallel = some 2;
  is_workflow = false;
}

abbrev job_record : Job
job_record = record {
  eid = "backup";
  executor_id = 1;
  job_type = "default";
  code = "tar cf all.tar .";
  args = none;
  upload_file = "";
  bundle_script = none;
  completed_callback = some "callback";
  work_dir = "";
  work_user = "";
  timeout = 60;
  max_retry = 1;
  max_parallel = 2;
}

abbrev on_error : CompletedCallbackOpts
on_error = record {
  trigger_on = CompletedCallbackTriggerType.error;
  header = some (("x-team", "crew") ∷ []);
  url = "http://10.0.0.1/told";
  enable = true;
}

abbrev services : Services
services = record {
  read_job = λ v. ok job_record;
  read_callback = λ v. ok on_error;
  read_scripts = λ v. ok [];
  print_results = λ results. ok "[]";
  callback_body = λ params job. ok "{}";
  header_name = λ k. ok k;
  header_value = λ v. ok v;
  send = λ request. err "refused";
  eval_boolean = λ expr. ok true;
}

abbrev stop_report : UpdateJobParams
stop_report = record {
  schedule_id = "s1";
  schedule_type = some ScheduleType.once;
  base_job = base_job;
  fields = none;
  instance_id = "i1";
  bind_ip = "10.0.0.7";
  bind_namespace = "default";
  run_status = some RunStatus.stop;
  schedule_status = none;
  exit_code = some 2;
  exit_status = some "exit status: 2";
  stdout = some "";
  stderr = some "tar: not found";
  created_user = "root";
  bundle_output = none;
  run_id = "r1";
  start_time = some 100;
  end_time = some 105;
  prev_time = none;
  next_time = none;
  is_timeout = false;
}

abbrev history : JobScheduleHistory
history = record {
  schedule_pid = 1;
  schedule_id = "s1";
  name = "nightly";
  eid = "backup";
  job_type = "default";
  schedule_type = "once";
  dispatch_result = [];
  action = "exec";
  dispatch_data = none;
  snapshot_data = some "job";
  actual_args = none;
  created_user = "root";
  updated_user = "root";
}

abbrev records : Records
records = record {
  running = [];
  executions = [];
  schedules = [];
  histories = history ∷ [];
  next_schedule = 2;
  posts = [];
}

abbrev blank : Board
blank key = none

report_all-Shows_example :
    Shows
      (report_all services (stop_report ∷ stop_report ∷ []) records).running
      (tell_all services (stop_report ∷ stop_report ∷ []) blank)
report_all-Shows_example =
    report_all-Shows services (stop_report ∷ stop_report ∷ []) records blank (λ key. refl)

completed_callback_iff_IsDue_example :
    ((completed_callback services stop_report records).1.posts ≢ [])
    ↔ IsDue services stop_report records
completed_callback_iff_IsDue_example = completed_callback_iff_IsDue services stop_report records

update_job_status-Ends_example :
    Ends stop_report (some RunStatus.stop) [] (update_job_status services stop_report records)
update_job_status-Ends_example = update_job_status-Ends services stop_report records

abbrev bad_exit : Output
bad_exit = record {
  success = false;
  code = some 2;
  status = "exit status: 2";
  stdout = "";
  stderr = "tar: not found";
}

abbrev host : Host
host = record {
  process = λ c. ok bad_exit;
  send = λ m. ok tt;
  started = 100;
  ended = 105;
  namespace = "default";
  local_ip = "10.0.0.7";
}

abbrev params_of : JobAction → DispatchJobParams
params_of action = record {
  base_job = base_job;
  schedule_id = "s1";
  instance_id = some "i1";
  run_id = "r1";
  fields = none;
  timer_expr = none;
  restart_interval = none;
  is_sync = true;
  created_user = "root";
  action = action;
}

abbrev fresh_react : React
fresh_react = record { contexts = []; sent = []; spawned = [] }

exec_job-ShowsStopped_example :
    ShowsStopped
      (report_all services
        (exec_job host base_job
          (some ScheduleType.once)
          none
          none
          (params_of JobAction.exec)
          fresh_react).1.sent
        records).running
      (run_key (params_of JobAction.exec) (some ScheduleType.once) "i1")
      (params_of JobAction.exec)
      2
unfolding jiascheduler.Agent.Executor.run jiascheduler.Agent.BaseJob.get_exit_code
exec_job-ShowsStopped_example =
    exec_job-ShowsStopped services host base_job (some ScheduleType.once) none none
      (params_of JobAction.exec) "i1" fresh_react records 2 (λ m. refl) refl refl refl

abbrev ticking : JobScheduler
ticking = record { add = ok 5; remove_ = λ uuid. ok tt; next_tick_for_job = λ uuid. ok (some 900) }

abbrev one_timer : Timers
one_timer = record {
  schedules = record { mapping = ("backup", 3) ∷ []; timers = 3 ∷ [] };
  sent = [];
}

timer_stopped : (stop_timer host ticking (params_of JobAction.stop_timer) one_timer).0 ≡ ok tt
unfolding stop_timer report_stopped send_timer_msg remove_job_schedule get remove
timer_stopped = refl

stop_timer-ShowsUnscheduled_example :
    (get "backup"
        (stop_timer host ticking (params_of JobAction.stop_timer) one_timer).1.schedules.mapping
      ≡ none)
    × ShowsUnscheduled
        (report_all services
          (stop_timer host ticking (params_of JobAction.stop_timer) one_timer).1.sent
          records).running
        (run_key (params_of JobAction.stop_timer) (some ScheduleType.timer) "i1")
stop_timer-ShowsUnscheduled_example =
    stop_timer-ShowsUnscheduled services host ticking (params_of JobAction.stop_timer) "i1"
      one_timer records refl refl timer_stopped

abbrev network : Network
network = record {
  get_link_pair = λ ip mac_addr. ok "10.0.0.2:3000";
  post = λ url request. err "timed out";
  schedule = 0 ∷ 0 ∷ 0 ∷ [];
}

abbrev sources : Sources
sources = record {
  find_instances = λ ids.
      record { ip = "10.0.0.7"; mac_addr = "m1"; namespace = "default"; instance_id = "i1" } ∷ [];
  find_executor = λ id. some ("bash", "-c" ∷ []);
  read_file = λ path. err "no file";
  file_name = λ path. path;
  read_args = λ v. none;
  read_scripts = λ v. ok [];
  get_job_code = λ code args. ok code;
  print_job = λ job. "{}";
  print_args = λ args. "{}";
  print_timer = λ timer. "{}";
}

one_worker : WorkersEnd network (sources.find_instances ("i1" ∷ []))
unfolding run step
one_worker handler = refl

abbrev request : ScheduleRequest
request = record {
  secret = "secret";
  instance_ids = "i1" ∷ [];
  job_record = job_record;
  is_sync = false;
  schedule_name = "nightly";
  schedule_type = ScheduleType.once;
  action = JobAction.exec;
  timer_expr = none;
  restart_interval = none;
  actual_args = none;
  created_user = "root";
  schedule_pid = none;
  schedule_id = "s2";
  run_id = "r2";
}

schedule_job-Outcome_example :
    IsRefused sources request records (schedule_job network sources request records)
    ⊎ IsScheduled sources request records (schedule_job network sources request records)
schedule_job-Outcome_example = schedule_job-Outcome network sources request records one_worker

abbrev caller : Caller
caller = record {
  username = "root";
  can_write_job = λ eid. ok true;
  can_manage_instance = ok false;
  find_instance = λ instance_id.
      some (record { ip = "10.0.0.7"; mac_addr = "m1"; namespace = "default"; instance_id = "i1" });
}

abbrev dispatched : Records
dispatched = (schedule_job network sources request records).1

action-IsSettled_example :
    ((e : String) × (prepare_action caller "s2" "i1" dispatched.histories ≡ err e)
      × (action network caller "s2" "i1" JobAction.kill "r3" dispatched ≡ (err e, dispatched)))
    ⊎ ((prepared : Prepared) × IsAllowed caller "s2" "i1" dispatched.histories prepared
        × IsSettled network caller JobAction.kill "r3" prepared dispatched
            (action network caller "s2" "i1" JobAction.kill "r3" dispatched))
action-IsSettled_example = action-IsSettled network caller "s2" "i1" JobAction.kill "r3" dispatched
