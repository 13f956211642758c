-- ===== src/Agent/Tests.antt =====
-- The theorems about automate/src at concrete inputs.
use jiascheduler.Base.{
  ℕ, ◌+◌, ◌<◌, ◌≡◌, ◌↔◌, refl, Bool, true, false, none, some, ok, err, [], ◌∷◌, get, insert, remove,
  format, Member, arith,
}
use jiascheduler.Agent.JobAction
use jiascheduler.Agent.JobAction.{JobAction}
use jiascheduler.Agent.ScheduleType.{ScheduleType}
use jiascheduler.Agent.EnumTexts.{job_action_read}
use jiascheduler.Agent.BaseJob.{BaseJob, Output}
use jiascheduler.Agent.Messages.{DispatchJobParams}
use jiascheduler.Agent.Contexts.{
  Contexts, new_context, max_parallel, enter, count_up, can_execute, add_sender,
  set_execute_context, leave, end_entry, end_execute,
}
use jiascheduler.Agent.Contexts.Slots.{
  World, idle, Reach, next, begin, live_runs, Counted, Reach-Counted, admitted_iff_room,
}
use jiascheduler.Agent.Contexts.Senders.{registered_of, end_execute-keeps_sender}
use jiascheduler.Agent.React.{React, Host}
use jiascheduler.Agent.Execution.{exec_job, exec, exec_task}
use jiascheduler.Agent.Execution.Places.{
  one_off_runs, kept, exec_sync_places, exec_async_places, no_instance,
}
use jiascheduler.Agent.Execution.Reports.{IsReported, exec_job_reports}
use jiascheduler.Agent.Schedules.{
  Schedules, JobScheduler, add_job_schedule, add_new, remove_job_schedule,
}
use jiascheduler.Agent.Schedules.Replace.{
  Replaces, IsOrphan, add_job_schedule-Replaces, add_job_schedule-IsOrphan,
}
use jiascheduler.Agent.Timers.{Tick, on_tick}
use jiascheduler.Agent.Timers.Places.{timer_runs, lost, on_tick-places}
use jiascheduler.Agent.Supervisors.{update_supervising, send_msg, Supervisors, start_supervising}
use jiascheduler.Agent.Supervisors.Reachable
use jiascheduler.Agent.Supervisors.Reachable.{nobody, one_supervisor}
use jiascheduler.Agent.Supervisors.Single.{IsLive}

abbrev backup_job : BaseJob
backup_job = record {
  eid = "backup";
  cmd_name = "bash";
  code = "tar cf all.tar .";
  bundle_script = none;
  args = "-c" ∷ [];
  upload_file = some (record { filename = "key"; content = some "secret" });
  read_code_from_stdin = false;
  timeout = 60;
  work_dir = none;
  work_user = none;
  max_retry = some 1;
  max_parallel = some 2;
  is_workflow = false;
}

abbrev params_of : JobAction → Bool → DispatchJobParams
params_of action is_sync = record {
  base_job = backup_job;
  schedule_id = "s1";
  instance_id = some "i1";
  run_id = "r1";
  fields = none;
  timer_expr = none;
  restart_interval = none;
  is_sync = is_sync;
  created_user = "root";
  action = action;
}

abbrev exec_params : DispatchJobParams
exec_params = params_of JobAction.exec true

abbrev one_run : World
one_run = record {
  contexts = ("backup", record new_context { once_running_counter = 1 }) ∷ [];
  live = exec_params ∷ [];
}

first_run : can_execute exec_params [] ≡ ok one_run.contexts
unfolding can_execute enter count_up get insert
first_run = refl

one_run_reached : Reach idle one_run
one_run_reached = next Reach.here (begin exec_params one_run.contexts (omega arith) first_run refl)

admitted_iff_room_example :
    ((after : Contexts) × (can_execute exec_params one_run.contexts ≡ ok after))
    ↔ (live_runs JobAction.exec "backup" one_run < max_parallel exec_params)
admitted_iff_room_example = admitted_iff_room exec_params one_run_reached refl

Reach-Counted_example : Counted one_run JobAction.exec "backup"
Reach-Counted_example = Reach-Counted JobAction.exec "backup" one_run_reached

abbrev registered_table : Contexts
registered_table = ("backup", record new_context { once_kill_senders = ("x9", 7) ∷ [] }) ∷ []

registered : set_execute_context exec_params "x9" 7 [] ≡ ok (registered_table, "x9")
unfolding set_execute_context add_sender get insert
registered = refl

abbrev ended_table : Contexts
ended_table =
    (
      "backup",
      record new_context { once_running_counter = 4294967295; once_kill_senders = ("x9", 7) ∷ [] },
    )
    ∷ []

run_ended : end_execute exec_params registered_table ≡ ok ended_table
unfolding end_execute end_entry leave get insert
run_ended = refl

end_execute-keeps_sender_example :
    Member ("x9", 7) (registered_of JobAction.exec (get "backup" ended_table))
end_execute-keeps_sender_example =
    end_execute-keeps_sender exec_params "x9" 7 [] (registered_table, "x9") ended_table refl
      registered run_ended

abbrev bad_exit : Output
bad_exit = record {
  success = false;
  code = some 2;
  status = "exit status: 2";
  stdout = "";
  stderr = "tar: not found";
}

abbrev host : Host
host = record {
  process = λ c. ok bad_exit;
  send = λ m. ok tt;
  started = 100;
  ended = 105;
  namespace = "default";
  local_ip = "10.0.0.7";
}

abbrev fresh_react : React
fresh_react = record { contexts = []; sent = []; spawned = [] }

exec_job_reports_example :
    IsReported host backup_job exec_params "i1" fresh_react
      (exec_job host backup_job (some ScheduleType.once) none none exec_params fresh_react)
exec_job_reports_example =
    exec_job_reports host backup_job (some ScheduleType.once) none none exec_params "i1" fresh_react
      (λ m. refl) refl

exec_sync_places_example :
    one_off_runs exec_params (exec host "x9" 7 exec_params fresh_react).1
    ≡ one_off_runs exec_params fresh_react + kept (exec host "x9" 7 exec_params fresh_react).0
exec_sync_places_example =
    exec_sync_places host "x9" 7 exec_params fresh_react refl refl (omega arith)

abbrev async_params : DispatchJobParams
async_params = params_of JobAction.exec false

async_run : can_execute async_params [] ≡ ok one_run.contexts
unfolding can_execute enter count_up get insert
async_run = refl

exec_async_places_example :
    (one_off_runs async_params (exec host "x9" 7 async_params fresh_react).1
      ≡ one_off_runs async_params fresh_react + 1)
    × (one_off_runs async_params
          (exec_task host async_params (exec host "x9" 7 async_params fresh_react).1).1
        ≡ one_off_runs async_params fresh_react + no_instance async_params.instance_id)
exec_async_places_example =
    exec_async_places host "x9" 7 async_params fresh_react one_run.contexts refl refl (omega arith)
      async_run

job_action_read_example :
    (JobAction.try_from "kill" ≡ ok JobAction.kill) ↔ ("kill" ≡ JobAction.to_string JobAction.kill)
job_action_read_example = job_action_read "kill" JobAction.kill

abbrev ticking : JobScheduler
ticking = record { add = ok 5; remove_ = λ uuid. ok tt; next_tick_for_job = λ uuid. ok (some 900) }

abbrev one_timer : Schedules
one_timer = record { mapping = ("backup", 3) ∷ []; timers = 3 ∷ [] }

timer_added : (add_job_schedule ticking "backup" one_timer).0 ≡ ok (some 900)
unfolding add_job_schedule add_new remove_job_schedule get insert remove format
timer_added = refl

add_job_schedule-Replaces_example :
    Replaces ticking "backup" one_timer (add_job_schedule ticking "backup" one_timer).1
add_job_schedule-Replaces_example =
    add_job_schedule-Replaces ticking "backup" one_timer (some 900) timer_added

abbrev stuck : JobScheduler
stuck = record ticking { next_tick_for_job = λ uuid. err "no tick" }

abbrev no_timer : Schedules
no_timer = record { mapping = []; timers = [] }

no_mapping : get {V = ℕ} "backup" [] ≡ none
unfolding get
no_mapping = refl

add_job_schedule-IsOrphan_example :
    ((add_job_schedule stuck "backup" no_timer).0 ≡ err "no tick")
    × IsOrphan stuck "backup" 5 no_timer (add_job_schedule stuck "backup" no_timer).1
add_job_schedule-IsOrphan_example =
    add_job_schedule-IsOrphan stuck "backup" no_timer 5 "no tick" no_mapping refl refl

abbrev watch_params : DispatchJobParams
watch_params = params_of JobAction.start_supervising false

abbrev watched : Supervisors
watched = (start_supervising host 4 watch_params (nobody [])).1

watched_reached : Reachable.Reach watched
watched_reached =
    Reachable.next (Reachable.begin []) (Reachable.start host 4 watch_params (nobody []))

watched-IsLive : IsLive "backup" 4 watched
unfolding start_supervising update_supervising send_msg get insert
watched-IsLive = (Member.here, λ m. elim m [ ])

abbrev watcher : ℕ
watcher = 4

one_supervisor_example : watcher ≡ 4
one_supervisor_example =
    one_supervisor watched "backup" 4 4 watched_reached watched-IsLive watched-IsLive

abbrev timer_params : DispatchJobParams
timer_params = params_of JobAction.start_timer false

abbrev tick : Tick
tick = record { uuid = 5; now = 800; run_id = "r9"; fresh = "x9"; tx = 7 }

on_tick-places_example :
    timer_runs timer_params (on_tick host stuck tick timer_params fresh_react).1
    ≡ timer_runs timer_params fresh_react
      + lost (on_tick host stuck tick timer_params fresh_react).0
on_tick-places_example = on_tick-places host stuck tick timer_params fresh_react refl (omega arith)
