-- ===== src/Workflow/Graph.antt =====
-- crates/service/src/logic/workflow/types.rs: nodes, edges, and the message that travels along
-- them. A JSON value that the engine only carries along (`data`) is its text.
pub mod Next
use jiascheduler.Base.{
  ℕ, String, ◌==◌, Bool, Option, none, some, List, [], ◌∷◌, map, Result, ok, err, ◌>>=◌, ok_or,
  find, filter, HashMap,
}
use jiascheduler.Workflow.Enums.{NodeType, TaskType}
use jiascheduler.Workflow.Tables.{Json}
use jiascheduler.Workflow.Condition.{Condition, UserVariables}

pub record WorkflowJobArgs : Type 0 where
  pub name : String
  pub val : String
  pub val_type : String
  pub info : Option String

pub record CustomJob : Type 0 where
  pub executor_id : ℕ
  pub timeout : Option ℕ
  pub code : String
  pub formal_args : List WorkflowJobArgs
  pub upload_file : Option String
  pub target : Option (List String)

pub record StandardJob : Type 0 where
  pub eid : String
  pub formal_args : List WorkflowJobArgs
  pub target : Option (List String)

pub data Task : Type 0 where
  standard : StandardJob → Task
  custom : CustomJob → Task
  none_ : Task

pub record NodeConfig : Type 0 where
  pub id : String
  pub name : String
  pub node_type : NodeType
  pub task_type : TaskType
  pub is_join_all : Bool
  pub task : Task
  pub data_ : String

pub record EdgeConfig : Type 0 where
  pub id : String
  pub name : String
  pub condition : Option Condition
  pub source_node_id : String
  pub target_node_id : String
  pub data_ : String

pub record WorkflowNodeActualArgs : Type 0 where
  pub formal : List WorkflowJobArgs
  pub args : Option (HashMap Json)
  pub code : String
  pub target : List String

pub record WorkflowNodeArgs : Type 0 where
  pub node_id : String
  pub target : Option (List String)
  pub args : Option (List WorkflowJobArgs)

pub record WorkflowProcessArgs : Type 0 where
  pub default_target : Option (List String)
  pub nodes : Option (List WorkflowNodeArgs)
  pub user_variables : Option (List UserVariables)

pub record WorkflowNode : Type 0 where
  pub created_user : String
  pub process_id : String
  pub run_id : String
  pub origin_nodes : List NodeConfig
  pub origin_edges : List EdgeConfig
  pub process_args : Option WorkflowProcessArgs
  pub flow_depth : ℕ
  pub actual_args : Option WorkflowNodeActualArgs
  pub reached_edge : Option EdgeConfig
  pub current_node : NodeConfig

unfoldable pub get_next_edge : WorkflowNode → Option EdgeConfig
get_next_edge self = find (λ v. v.source_node_id == self.current_node.id) self.origin_edges

unfoldable pub get_next_edges : WorkflowNode → List EdgeConfig
get_next_edges self = filter (λ v. v.source_node_id == self.current_node.id) self.origin_edges

unfoldable pub get_prev_edges : WorkflowNode → List EdgeConfig
get_prev_edges self = filter (λ v. v.target_node_id == self.current_node.id) self.origin_edges

unfoldable pub get_next_node_by_edge : WorkflowNode → EdgeConfig → Option NodeConfig
get_next_node_by_edge self edge = find (λ v. v.id == edge.target_node_id) self.origin_nodes

abbrev node_of_edge : WorkflowNode → Option EdgeConfig → Option NodeConfig
node_of_edge self none = none
node_of_edge self (some edge) = find (λ v. v.id == edge.target_node_id) self.origin_nodes

unfoldable pub get_next_node : WorkflowNode → Option NodeConfig
unfolding get_next_edge
get_next_node self = node_of_edge self (get_next_edge self)

-- `collect` into a `Result`: the first edge with no node is an error.
unfoldable pub points :
    WorkflowNode → List EdgeConfig → Result String (List (EdgeConfig × NodeConfig))
unfolding get_next_node_by_edge
points self [] = ok []
points self (edge ∷ edges) =
    ok_or (get_next_node_by_edge self edge) "cannot found next edge" >>= λ node.
    points self edges >>= λ rest. ok ((edge, node) ∷ rest)

unfoldable pub get_next_nodes : WorkflowNode → Result String (List (EdgeConfig × NodeConfig))
unfolding points get_next_edges
get_next_nodes self = points self (get_next_edges self)
