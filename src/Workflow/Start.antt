-- ===== src/Workflow/Start.antt =====
-- crates/service/src/logic/workflow/workflow.rs: `start_process`. The version's nodes and edges are
-- what the database holds, read as JSON: parameters, with their errors.
pub mod Targets
use jiascheduler.Base.{
  ℕ, String, ◌==◌, Bool, true, false, not, ◌&&◌, ◌||◌, if◌then◌else◌, Option, none, some, List, [],
  ◌∷◌, ◌++◌, Result, ok, err, any, find, ok_or, length, ltb,
}
use jiascheduler.Base.State.{and_then, ◌>>=◌, ◌>>◌, pure, fail, lift}
use jiascheduler.Workflow.Enums.{
  NodeType, start_event, is_type, NodeStatus, ProcessStatus, node_status_to_string,
  process_status_to_string,
}
use jiascheduler.Workflow.Graph.{
  WorkflowNode, WorkflowNodeArgs, WorkflowProcessArgs, NodeConfig, EdgeConfig, Task,
}
use jiascheduler.Workflow.Store.{Store, Process, Fault, failed, M, or_failed, flow_next}
use jiascheduler.Workflow.Dispatch.{non_empty, target_of}

-- The inner closure: it compares the entry's node with itself.
abbrev pub names_target : WorkflowNodeArgs → Bool
names_target v = if v.node_id == v.node_id then non_empty v.target else false

abbrev any_names : Option (List WorkflowNodeArgs) → Bool
any_names none = false
any_names (some v) = any names_target v

unfoldable pub no_input_target : Option WorkflowProcessArgs → Bool
no_input_target none = true
no_input_target (some v) = not (any_names v.nodes || non_empty v.default_target)

-- One round of the loop over the nodes.
unfoldable pub has_no_target : Option WorkflowProcessArgs → Task → Bool
unfolding no_input_target
has_no_target process_args Task.none_ = false
has_no_target process_args (Task.standard job) =
    not (non_empty job.target) && no_input_target process_args
has_no_target process_args (Task.custom job) =
    not (non_empty job.target) && no_input_target process_args

unfoldable pub check_targets :
    Option WorkflowProcessArgs → List NodeConfig → Result String (Unit {0})
unfolding has_no_target
check_targets process_args [] = ok tt
check_targets process_args (v ∷ nodes) =
    if has_no_target process_args v.task
    then err "No server node is set for executing tasks"
    else check_targets process_args nodes

-- What the caller and the user's session give, and the two identifiers that are drawn.
pub record StartParams : Type 0 where
  pub username : String
  pub workflow_id : ℕ
  pub version_id : ℕ
  pub timer_id : Option ℕ
  pub process_name : String
  pub process_args : Option WorkflowProcessArgs
  pub fresh_process_id : String
  pub fresh_run_id : String

abbrev or_zero : Option ℕ → ℕ
or_zero none = 0
or_zero (some v) = v

abbrev pub first_message :
    StartParams → List NodeConfig → List EdgeConfig → NodeConfig → WorkflowNode
first_message params nodes edges start_node = record {
  created_user = params.username;
  process_id = params.fresh_process_id;
  run_id = params.fresh_run_id;
  origin_nodes = nodes;
  origin_edges = edges;
  process_args = params.process_args;
  flow_depth = 0;
  actual_args = none;
  reached_edge = none;
  current_node = start_node;
}

-- A column that is not set gets the table's default: 0 for the timer, and no run.
abbrev pub first_row : StartParams → NodeConfig → Process
first_row params start_node = record {
  process_id = params.fresh_process_id;
  process_name = params.process_name;
  workflow_id = params.workflow_id;
  version_id = params.version_id;
  timer_id = or_zero params.timer_id;
  process_args = params.process_args;
  process_status = process_status_to_string ProcessStatus.running;
  current_run_id = "";
  current_node_id = start_node.id;
  current_node_status = node_status_to_string NodeStatus.prepare;
  created_user = params.username;
  is_deleted = false;
  deleted_by = "";
}

abbrev insert_process : Process → M (Unit {0})
insert_process row s = (ok tt, record s { processes = s.processes ++ row ∷ [] })

abbrev pub find_start : List NodeConfig → Result String NodeConfig
find_start nodes = ok_or (find (λ v. is_type v.node_type start_event) nodes) "not found start node"

unfoldable pub start_process :
    (ℕ → ℕ → Result String (List NodeConfig × List EdgeConfig)) → StartParams → M String
unfolding check_targets flow_next
start_process find_version params = do
  version ← lift (or_failed (find_version params.workflow_id params.version_id))
  lift (or_failed (check_targets params.process_args version.0))
  start_node ← lift (or_failed (find_start version.0))
  flow_next (first_message params version.0 version.1 start_node)
  insert_process (first_row params start_node)
  pure params.fresh_process_id
