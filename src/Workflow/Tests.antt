-- ===== src/Workflow/Tests.antt =====
-- The theorems about crates/service/src/logic/workflow at concrete inputs.
use jiascheduler.Base.{
  ℕ, ◌≡◌, ◌≢◌, ◌↔◌, ◌⊎◌, refl, String, Bool, true, false, Option, none, some, Result, ok, err, List,
  [], ◌∷◌, ◌++◌, any, filter, HashMap, Member, All, arith,
}
use jiascheduler.Agent.RunStatus.{RunStatus}
use jiascheduler.Agent.BaseJob.{BaseJob}
use jiascheduler.Agent.Messages.{UpdateJobParams}
use jiascheduler.Workflow.Enums.{start_event, service_task, end_event, TaskType}
use jiascheduler.Workflow.Tables.{NodeTask, Json}
use jiascheduler.Workflow.Condition.{ConditionValType, Rule, rule_text}
use jiascheduler.Workflow.Condition.Support.{IsSupported, rule_text_iff_IsSupported}
use jiascheduler.Workflow.Graph.{
  NodeConfig, EdgeConfig, Task, WorkflowNode, WorkflowProcessArgs, WorkflowNodeArgs, get_next_edges,
  get_next_node_by_edge, points, get_next_nodes,
}
use jiascheduler.Workflow.Check.{check_nodes}
use jiascheduler.Workflow.Check.Valid.{IsGoodNode, HasType, check_nodes_iff_valid}
use jiascheduler.Workflow.Store.{Store, own_row}
use jiascheduler.Workflow.Dispatch.{Platform}
use jiascheduler.Workflow.Flow.{is_continue, record_edge, deeper, process_node}
use jiascheduler.Workflow.Flow.Entry.{IsJoined, is_continue_iff}
use jiascheduler.Workflow.Flow.Once.{OneRow, process_node-OneRow}
use jiascheduler.Workflow.Flow.Again.{StartsNothing, process_node-StartsNothing}
use jiascheduler.Workflow.Flow.Messages.{Forwards, process_node-Forwards}
use jiascheduler.Workflow.Status.{update_node_status, is_stopped}
use jiascheduler.Workflow.Status.Ends.{
  Moves, messages_to, update_node_status-Moves, update_node_status-no_tasks,
}
use jiascheduler.Workflow.Status.Late.{update_node_status-keeps_stopped}
use jiascheduler.Workflow.Removal.{Filter, delete_process}
use jiascheduler.Workflow.Removal.Orphans.{IsCleared, delete_process-IsCleared}
use jiascheduler.Workflow.Rights
use jiascheduler.Workflow.Rights.{UserInfo, can_write_workflow}
use jiascheduler.Workflow.Rights.Teams.{MayWrite, can_write_workflow_iff}
use jiascheduler.Workflow.Start.{StartParams, check_targets, start_process}
use jiascheduler.Workflow.Start.Targets.{Answers, start_process-Answers, check_targets-any_entry}

abbrev begin_node : NodeConfig
begin_node = record {
  id = "n1";
  name = "begin";
  node_type = start_event;
  task_type = TaskType.none_;
  is_join_all = false;
  task = Task.none_;
  data_ = "{}";
}

abbrev work_node : NodeConfig
work_node = record {
  id = "n2";
  name = "work";
  node_type = service_task;
  task_type = TaskType.standard;
  is_join_all = true;
  task = Task.standard (record { eid = "backup"; formal_args = []; target = some ("i1" ∷ []) });
  data_ = "{}";
}

abbrev end_node : NodeConfig
end_node = record {
  id = "n3";
  name = "end";
  node_type = end_event;
  task_type = TaskType.none_;
  is_join_all = false;
  task = Task.none_;
  data_ = "{}";
}

abbrev first_edge : EdgeConfig
first_edge = record {
  id = "e1";
  name = "";
  condition = none;
  source_node_id = "n1";
  target_node_id = "n2";
  data_ = "{}";
}

abbrev second_edge : EdgeConfig
second_edge = record {
  id = "e2";
  name = "";
  condition = none;
  source_node_id = "n2";
  target_node_id = "n3";
  data_ = "{}";
}

abbrev all_nodes : List NodeConfig
all_nodes = begin_node ∷ work_node ∷ end_node ∷ []

abbrev all_edges : List EdgeConfig
all_edges = first_edge ∷ second_edge ∷ []

check_nodes_iff_valid_example :
    (check_nodes (some all_nodes) (some all_edges) ≡ ok (some all_nodes, some all_edges)) ↔ (
      All (IsGoodNode (some all_edges)) all_nodes
      × HasType start_event all_nodes
      × HasType end_event all_nodes)
check_nodes_iff_valid_example = check_nodes_iff_valid all_nodes (some all_edges)

abbrev at_work : WorkflowNode
at_work = record {
  created_user = "root";
  process_id = "p1";
  run_id = "r1";
  origin_nodes = all_nodes;
  origin_edges = all_edges;
  process_args = none;
  flow_depth = 1;
  actual_args = none;
  reached_edge = some first_edge;
  current_node = work_node;
}

abbrev next_of_work : List (EdgeConfig × NodeConfig)
next_of_work = (second_edge, end_node) ∷ []

work_leads_on : get_next_nodes at_work ≡ ok next_of_work
unfolding get_next_nodes get_next_edges points get_next_node_by_edge
work_leads_on = refl

abbrev size_rule : Rule
size_rule = record {
  name = "big";
  left_val = record { val_type = ConditionValType.user_variables; val = "size" };
  op = ">";
  right_val = record { val_type = ConditionValType.custom; val = "10" };
}

abbrev no_tasks : String → List NodeTask
no_tasks id = []

rule_text_iff_IsSupported_example :
    ((d : String × HashMap Json) × (rule_text no_tasks size_rule [] ≡ ok d)) ↔ IsSupported size_rule
rule_text_iff_IsSupported_example = rule_text_iff_IsSupported no_tasks size_rule []

abbrev always : String → HashMap Json → Result String (Option Bool)
always expr ctx = ok (some true)

abbrev empty : Store
empty = record { nodes = []; edges = []; processes = []; tasks = []; queue = [] }

is_continue_iff_example : ((is_continue at_work empty).0 ≡ ok true) ↔ (
    IsJoined at_work (record_edge at_work empty).edges
    × ((any (own_row at_work) [] ≡ false) ⊎ (service_task ≡ end_event)))
is_continue_iff_example = is_continue_iff at_work empty

abbrev platform : Platform
platform = record {
  find_job = λ eid. none;
  find_executor = λ id. none;
  find_instances = λ ids. [];
  read_file = λ path. err "no file";
  file_name = λ path. path;
  get_job_code = λ code args. ok code;
  fields_of = λ node. "{}";
  push = λ params instance_. record {
    namespace = instance_.namespace;
    bind_ip = instance_.ip;
    instance_id = instance_.instance_id;
    response = "null";
    has_err = false;
    err = none;
  };
  schedule = [];
}

empty-OneRow : OneRow empty
empty-OneRow p r n = omega arith

process_node-OneRow_example : OneRow (process_node always platform at_work empty).1
process_node-OneRow_example = process_node-OneRow always platform at_work empty empty-OneRow

abbrev entered : Store
entered = record empty {
  nodes =
      record {
        process_id = "p1";
        run_id = "r1";
        node_id = "n2";
        node_status = "running";
        depth = 2;
        node_args = none;
        created_user = "root";
      }
      ∷ [];
}

not_an_end : service_task ≢ end_event
not_an_end e = cc

process_node-StartsNothing_example :
    StartsNothing entered (process_node always platform at_work entered)
process_node-StartsNothing_example =
    process_node-StartsNothing always platform at_work entered refl not_an_end

process_node-Forwards_example :
    Forwards (deeper always platform at_work) empty (process_node always platform at_work empty).1
process_node-Forwards_example = process_node-Forwards always platform at_work empty

abbrev task_row : NodeTask
task_row = record {
  process_id = "p1";
  node_id = "n2";
  run_id = "r1";
  task_status = "running";
  bind_ip = "10.0.0.7";
  exit_code = 0;
  exit_status = "";
  output = "";
  dispatch_result = none;
  created_user = "root";
}

abbrev work_job : BaseJob
work_job = record {
  eid = "n2";
  cmd_name = "bash";
  code = "true";
  bundle_script = none;
  args = [];
  upload_file = none;
  read_code_from_stdin = false;
  timeout = 60;
  work_dir = none;
  work_user = none;
  max_retry = some 1;
  max_parallel = some 1;
  is_workflow = true;
}

abbrev report_of : RunStatus → UpdateJobParams
report_of run_status = record {
  schedule_id = "p1";
  schedule_type = none;
  base_job = work_job;
  fields = some "fields";
  instance_id = "i1";
  bind_ip = "10.0.0.7";
  bind_namespace = "default";
  run_status = some run_status;
  schedule_status = none;
  exit_code = some 0;
  exit_status = none;
  stdout = some "done";
  stderr = none;
  created_user = "root";
  bundle_output = none;
  run_id = "r1";
  start_time = none;
  end_time = none;
  prev_time = none;
  next_time = none;
  is_timeout = false;
}

abbrev node_of : String → Result String WorkflowNode
node_of fields = ok at_work

abbrev one_task : Store
one_task = record entered { tasks = task_row ∷ [] }

update_node_status-Moves_example :
    Moves
      (report_of RunStatus.stop)
      RunStatus.stop
      at_work
      next_of_work
      one_task
      (update_node_status node_of (report_of RunStatus.stop) one_task)
update_node_status-Moves_example =
    update_node_status-Moves node_of (report_of RunStatus.stop) one_task RunStatus.stop "fields"
      at_work next_of_work refl refl refl work_leads_on

update_node_status-no_tasks_example :
    (update_node_status node_of (report_of RunStatus.running) entered).1.queue
    ≡ [] ++ messages_to at_work next_of_work
update_node_status-no_tasks_example =
    update_node_status-no_tasks node_of (report_of RunStatus.running) entered RunStatus.running
      "fields" at_work next_of_work refl refl refl work_leads_on refl

update_node_status-keeps_stopped_example :
    filter is_stopped (update_node_status node_of (report_of RunStatus.running) one_task).1.tasks
    ≡ filter is_stopped (task_row ∷ [])
update_node_status-keeps_stopped_example =
    update_node_status-keeps_stopped node_of (report_of RunStatus.running) one_task refl

abbrev start_params : StartParams
start_params = record {
  username = "root";
  workflow_id = 1;
  version_id = 2;
  timer_id = none;
  process_name = "nightly";
  process_args = none;
  fresh_process_id = "p1";
  fresh_run_id = "r1";
}

abbrev find_version : ℕ → ℕ → Result String (List NodeConfig × List EdgeConfig)
find_version workflow_id version_id = ok (all_nodes, all_edges)

start_process-Answers_example :
    Answers start_params all_nodes all_edges empty (start_process find_version start_params empty)
start_process-Answers_example =
    start_process-Answers find_version start_params all_nodes all_edges empty refl

abbrev other_entry : WorkflowNodeArgs
other_entry = record { node_id = "elsewhere"; target = some ("i1" ∷ []); args = none }

abbrev other_args : WorkflowProcessArgs
other_args = record {
  default_target = none;
  nodes = some (other_entry ∷ []);
  user_variables = none;
}

check_targets-any_entry_example : check_targets (some other_args) all_nodes ≡ ok tt
check_targets-any_entry_example =
    check_targets-any_entry other_args (other_entry ∷ []) other_entry all_nodes refl Member.here
      refl

abbrev all_of_workflow : Filter
all_of_workflow = record {
  username = none;
  workflow_id = some 1;
  process_id = none;
  team_id = none;
}

not_soft : some false ≢ some true
not_soft e = cc

delete_process-IsCleared_example :
    IsCleared (record { id = 1; team_id = 2 } ∷ []) all_of_workflow one_task (
      delete_process
        (record { id = 1; team_id = 2 } ∷ [])
        "root"
        all_of_workflow
        (some false)
        one_task)
delete_process-IsCleared_example =
    delete_process-IsCleared (record { id = 1; team_id = 2 } ∷ []) "root" all_of_workflow
      (some false) one_task not_soft

abbrev shared_workflow : Rights.Workflow
shared_workflow = record { id = 1; team_id = 2; created_user = "root" }

abbrev rights : Rights.Tables
rights = record {
  members =
      record { id = 1; user_id = "u1"; team_id = 2; is_admin = false; created_user = "root" } ∷ [];
  workflows = shared_workflow ∷ [];
  timers = [];
}

abbrev ann : UserInfo
ann = record { user_id = "u1"; username = "ann" }

abbrev nobody_manages : String → Result String Bool
nobody_manages user_id = ok false

can_write_workflow_iff_example :
    (can_write_workflow nobody_manages rights ann (some 7) (some 1) ≡ ok true)
    ↔ MayWrite rights ann (some 7) shared_workflow
can_write_workflow_iff_example =
    can_write_workflow_iff nobody_manages rights ann (some 7) 1 shared_workflow refl refl
