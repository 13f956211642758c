-- ===== src/Workflow/Dispatch.antt =====
-- crates/service/src/logic/workflow/workflow.rs: how a service task is handed to the agents. What
-- the code looks up in other tables, reads from a file, renders or sends over HTTP is the record
-- `Platform`.
use jiascheduler.Base.{
  ℕ, String, ◌==◌, Bool, true, false, if◌then◌else◌, Option, none, some, List, [], ◌∷◌, ◌++◌, map,
  Result, ok, err, ok_or, find, insert, HashMap, update_where, length, ltb,
}
use jiascheduler.Base.State.{and_then, ◌>>=◌, ◌>>◌, pure, fail, lift}
use jiascheduler.BatchDo.{async_batch_do, always}
use jiascheduler.Agent.JobAction.{JobAction}
use jiascheduler.Agent.BaseJob.{BaseJob, UploadFile}
use jiascheduler.Agent.Messages.{DispatchJobParams}
use jiascheduler.Workflow.Tables.{NodeTask, DispatchResult, Json, text, rows}
use jiascheduler.Workflow.Graph.{
  WorkflowNode, WorkflowJobArgs, WorkflowNodeArgs, WorkflowProcessArgs, Task, StandardJob,
  CustomJob,
}
use jiascheduler.Workflow.Store.{Store, failed, panicked, M, or_failed, own_row, tasks_of}

-- The columns of a job that a dispatch reads.
pub record JobRecord : Type 0 where
  pub executor_id : ℕ
  pub code : String
  pub upload_file : String
  pub work_dir : String
  pub work_user : String
  pub timeout : ℕ
  pub max_retry : ℕ
  pub max_parallel : ℕ

pub record Instance : Type 0 where
  pub instance_id : String
  pub ip : String
  pub mac_addr : String
  pub namespace : String

pub record Platform : Type 0 where
  -- The job with this eid that is not deleted.
  pub find_job : String → Option JobRecord
  -- The command and the arguments of an executor.
  pub find_executor : ℕ → Option (String × List String)
  pub find_instances : List String → List Instance
  -- The file's content, and its name without the folders.
  pub read_file : String → Result String String
  pub file_name : String → String
  -- `JobLogic::get_job_code`.
  pub get_job_code : String → HashMap Json → Result String String
  -- The JSON text of `{"workflow_node": node}`.
  pub fields_of : WorkflowNode → String
  -- The dispatch of a job to one agent, its failures included.
  pub push : DispatchJobParams → Instance → DispatchResult
  -- The order in which the workers of `async_batch_do` move.
  pub schedule : List ℕ

abbrev formal_args_of : Task → List WorkflowJobArgs
formal_args_of (Task.standard job) = job.formal_args
formal_args_of (Task.custom job) = job.formal_args
formal_args_of Task.none_ = []

abbrev pub target_of : Task → Option (List String)
target_of (Task.standard job) = job.target
target_of (Task.custom job) = job.target
target_of Task.none_ = none

abbrev pub non_empty : Option (List String) → Bool
non_empty none = false
non_empty (some v) = ltb 0 (length v)

abbrev find_node_args : String → Option (List WorkflowNodeArgs) → Option WorkflowNodeArgs
find_node_args id none = none
find_node_args id (some nodes) = find (λ v. v.node_id == id) nodes

abbrev process_node_args : String → Option WorkflowProcessArgs → Option WorkflowNodeArgs
process_node_args id none = none
process_node_args id (some args) = find_node_args id args.nodes

-- The inner `for_each`: each entry of that name overwrites the value.
abbrev override : List WorkflowJobArgs → WorkflowJobArgs → WorkflowJobArgs
override [] v = v
override (item ∷ items) v =
    override items
      (if item.name == v.name then record v { val = item.val; val_type = item.val_type } else v)

abbrev override_all : Option WorkflowNodeArgs → List WorkflowJobArgs → List WorkflowJobArgs
override_all none formal = formal
override_all (some args) formal = elim args.args [
  | none ↦ formal
  | some actual ↦ map (override actual) formal
]

-- The JSON object of the arguments. A dynamic one is the tasks of the node that it names.
abbrev args_object : (String → List NodeTask) → List WorkflowJobArgs → HashMap Json → HashMap Json
args_object tasks [] object = object
args_object tasks (arg ∷ args) object = args_object tasks args (
    insert arg.name (if arg.val_type == "dynamic" then rows (tasks arg.val) else text arg.val)
      object)

abbrev default_target_of : Option WorkflowProcessArgs → Option (List String)
default_target_of none = none
default_target_of (some args) = args.default_target

abbrev own_target : Option WorkflowNodeArgs → Option (List String)
own_target none = none
own_target (some args) = args.target

-- The target: that of the node's arguments, else that of the task, else the default.
unfoldable pub choose_target : WorkflowNode → Option (List String)
choose_target node =
    let given = own_target (process_node_args node.current_node.id node.process_args) in
    let target = if non_empty given then given else target_of node.current_node.task in
    if non_empty target then target else default_target_of node.process_args

unfoldable pub parse_actual_args : Platform → WorkflowNode → String → M WorkflowNode
unfolding choose_target
parse_actual_args platform node code s =
    let node_args = process_node_args node.current_node.id node.process_args in
    let formal = override_all node_args (formal_args_of node.current_node.task) in
    let args = args_object (λ id. tasks_of node.process_id id s.tasks) formal [] in
    (λ (s : Store). and_then (lift (or_failed (platform.get_job_code code args)) s) λ rendered.
        lift (or_failed (ok_or (choose_target node) "execution target is empty")) >>= λ target.
        pure (record node {
          actual_args =
              some (record { formal = formal; args = some args; code = rendered; target = target });
        }))
      s

-- The arguments that `parse_actual_args` has set.
abbrev pub actual_code : WorkflowNode → String
actual_code node = elim node.actual_args [ none ↦ "" | some args ↦ args.code ]

abbrev pub actual_target : WorkflowNode → List String
actual_target node = elim node.actual_args [ none ↦ [] | some args ↦ args.target ]

unfoldable pub set_node_args : WorkflowNode → M (Unit {0})
set_node_args node s = (
  ok tt,
  record s {
    nodes =
        update_where (own_row node) (λ row. record row { node_args = node.actual_args }) s.nodes;
  },
)

abbrev task_row : WorkflowNode → DispatchResult → NodeTask
task_row node v = record {
  process_id = node.process_id;
  node_id = node.current_node.id;
  run_id = node.run_id;
  task_status = "prepare";
  bind_ip = v.bind_ip;
  exit_code = 0;
  exit_status = "";
  output = "";
  dispatch_result = some v;
  created_user = node.created_user;
}

-- `filter_map`: a push that fails leaves no row.
abbrev task_rows : WorkflowNode → List (Result String DispatchResult) → List NodeTask
task_rows node [] = []
task_rows node (err e ∷ results) = task_rows node results
task_rows node (ok v ∷ results) = task_row node v ∷ task_rows node results

abbrev push_one : Platform → DispatchJobParams → Instance → DispatchResult
push_one platform params v = platform.push (record params { instance_id = some v.instance_id }) v

unfoldable pub push_all : Platform → WorkflowNode → DispatchJobParams → List Instance → M (Unit {0})
push_all platform node params endpoints s = (
  ok tt,
  record s {
    tasks =
        s.tasks
        ++ task_rows node
            (async_batch_do platform.schedule endpoints (always (push_one platform params)));
  },
)

abbrev pub dispatch_params : Platform → WorkflowNode → BaseJob → DispatchJobParams
dispatch_params platform node job = record {
  base_job = job;
  schedule_id = node.process_id;
  instance_id = none;
  run_id = node.run_id;
  fields = some (platform.fields_of node);
  timer_expr = none;
  restart_interval = none;
  is_sync = false;
  created_user = node.created_user;
  action = JobAction.exec;
}

abbrev pub require_endpoints : List Instance → M (Unit {0})
require_endpoints [] = fail (failed "cannot found valid instance")
require_endpoints (v ∷ rest) = pure tt

-- The part that `dispatch_custom_job` and `dispatch_job` have in common, from the arguments on;
-- `job_of` builds the job from the rendered code.
unfoldable pub dispatch_with : Platform → WorkflowNode → String → (String → BaseJob) → M (Unit {0})
unfolding parse_actual_args set_node_args push_all
dispatch_with platform node code job_of = parse_actual_args platform node code >>= λ node.
    let endpoints = platform.find_instances (actual_target node) in
    require_endpoints endpoints
    >> set_node_args node
    >> push_all platform node (dispatch_params platform node (job_of (actual_code node))) endpoints

abbrev pub upload_of : Platform → String → M (Option UploadFile)
upload_of platform path =
    if path == ""
    then pure none
    else (lift (or_failed (platform.read_file path)) >>= λ content.
        pure (some (record { filename = platform.file_name path; content = some content })))

abbrev pub path_of : Option String → String
path_of none = ""
path_of (some path) = path

-- The job of a custom task, from the rendered code.
abbrev pub custom_base_job :
    WorkflowNode → String × List String → Option UploadFile → String → BaseJob
custom_base_job node cmd upload_file code = record {
  eid = node.current_node.id;
  cmd_name = cmd.0;
  code = code;
  bundle_script = none;
  args = cmd.1;
  upload_file = upload_file;
  read_code_from_stdin = false;
  timeout = 60;
  work_dir = none;
  work_user = none;
  max_retry = some 1;
  max_parallel = some 1;
  is_workflow = true;
}

unfoldable pub dispatch_custom_job : Platform → WorkflowNode → CustomJob → M (Unit {0})
unfolding dispatch_with
dispatch_custom_job platform node custom_job = do
  cmd ←
      lift
        (or_failed (ok_or (platform.find_executor custom_job.executor_id) "cannot found executor"))
  upload_file ← upload_of platform (path_of custom_job.upload_file)
  dispatch_with platform node custom_job.code (custom_base_job node cmd upload_file)

abbrev unless_empty : String → Option String
unless_empty v = if v == "" then none else some v

-- The job of a standard task, from the rendered code.
abbrev pub standard_base_job :
    WorkflowNode → JobRecord → String × List String → Option UploadFile → String → BaseJob
standard_base_job node job cmd upload_file code = record {
  eid = node.current_node.id;
  cmd_name = cmd.0;
  code = code;
  bundle_script = none;
  args = cmd.1;
  upload_file = upload_file;
  read_code_from_stdin = false;
  timeout = job.timeout;
  work_dir = unless_empty job.work_dir;
  work_user = unless_empty job.work_user;
  max_retry = some job.max_retry;
  max_parallel = some job.max_parallel;
  is_workflow = true;
}

unfoldable pub dispatch_job : Platform → WorkflowNode → StandardJob → M (Unit {0})
unfolding dispatch_with
dispatch_job platform node std_job = do
  job ← lift (or_failed (ok_or (platform.find_job std_job.eid) "cannot found job"))
  cmd ← lift (or_failed (ok_or (platform.find_executor job.executor_id) "cannot found executor"))
  upload_file ← upload_of platform job.upload_file
  dispatch_with platform node job.code (standard_base_job node job cmd upload_file)

-- A service task with no task meets `todo!()`.
abbrev pub handle_task : Platform → WorkflowNode → Task → M (Unit {0})
handle_task platform node (Task.standard standard_job) = dispatch_job platform node standard_job
handle_task platform node (Task.custom custom_job) = dispatch_custom_job platform node custom_job
handle_task platform node Task.none_ = fail panicked

unfoldable pub handle_service_task : Platform → WorkflowNode → M (Unit {0})
handle_service_task platform node = handle_task platform node node.current_node.task
