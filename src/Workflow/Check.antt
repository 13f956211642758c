-- ===== src/Workflow/Check.antt =====
-- crates/service/src/logic/workflow/workflow.rs, `check_nodes`: what a workflow has to satisfy
-- before it is saved or released.
pub mod Valid
use jiascheduler.Base.{
  ℕ, String, ◌==◌, Bool, true, false, not, ◌&&◌, ◌||◌, if◌then◌else◌, Option, none, some, List, [],
  ◌∷◌, Result, ok, err, ◌>>=◌, ◌>>◌, any, format, nat_eq,
}
use jiascheduler.Workflow.Enums.{NodeType, TaskType, is_type, start_event, end_event}
use jiascheduler.Workflow.Graph.{NodeConfig, EdgeConfig, Task, StandardJob, CustomJob}

-- The two tests of the task, `node.task_type == … && matches!(node.task, …)`.
abbrev pub standard_missing : TaskType → Task → Bool
standard_missing TaskType.standard (Task.standard job) = job.eid == ""
standard_missing _ _ = false

abbrev pub custom_missing : TaskType → Task → Bool
custom_missing TaskType.custom (Task.custom job) = nat_eq job.executor_id 0 || (job.code == "")
custom_missing _ _ = false

abbrev pub touches : String → EdgeConfig → Bool
touches node_id edge = (edge.source_node_id == node_id) || (edge.target_node_id == node_id)

abbrev pub is_connected : Option (List EdgeConfig) → String → Bool
is_connected none node_id = false
is_connected (some edges) node_id = any (touches node_id) edges

abbrev pub guard : Bool → String → Result String (Unit {0})
guard true e = ok tt
guard false e = err e

-- One round of the loop: its guards, in order.
unfoldable pub check_node : Option (List EdgeConfig) → NodeConfig → Result String (Unit {0})
check_node edges node = do
  guard (not (standard_missing node.task_type node.task))
      (format ("no job is assigned to the workflow node " ∷ node.name ∷ []))
  guard (not (custom_missing node.task_type node.task))
      (format ("no custom task is assigned to the workflow node " ∷ node.name ∷ []))
  guard (not (node.name == "")) "node name cannot be empty"
  guard (not (node.id == "")) "node id cannot be empty"
  guard (is_connected edges node.id) (
      format (
        node.name ∷ " is an isolated node. Please ensure the workflow is a valid directed "
        ∷ "acyclic graph (DAG)" ∷ []))

-- The loop, with `has_start_node` and `has_end_node`, and the two tests behind it.
unfoldable pub check_from :
    Bool → Bool → Option (List EdgeConfig) → List NodeConfig → Result String (Unit {0})
unfolding check_node
check_from has_start_node has_end_node edges [] = do
  guard has_start_node "workflow should has a start node"
  guard has_end_node "workflow should has a end node"
check_from has_start_node has_end_node edges (node ∷ nodes) = check_node edges node >>= λ _.
    check_from (has_start_node || is_type node.node_type start_event)
      (has_end_node || is_type node.node_type end_event) edges nodes

unfoldable pub check_nodes :
    Option (List NodeConfig)
    → Option (List EdgeConfig)
    → Result String (Option (List NodeConfig) × Option (List EdgeConfig))
unfolding check_from
check_nodes none edges = ok (none, edges)
check_nodes (some nodes) edges = check_from false false edges nodes >>= λ _. ok (some nodes, edges)
