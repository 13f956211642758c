-- ===== src/Workflow/Store.antt =====
-- The state that crates/service/src/logic/workflow/workflow.rs works on: the four tables of a
-- process and the stream of messages. `update_many` changes the rows that a filter selects and
-- tells their number; `insert` adds a row at the end. The database and the stream are taken to
-- answer; each method runs by itself.
use jiascheduler.Base.{
  ℕ, String, ◌==◌, Bool, ◌&&◌, Option, List, [], ◌∷◌, ◌++◌, Result, ok, err, filter,
}
use jiascheduler.Workflow.Tables.{NodeTask}
use jiascheduler.Workflow.Graph.{
  WorkflowNode, EdgeConfig, WorkflowNodeActualArgs, WorkflowProcessArgs,
}

-- workflow_process_node
pub record ProcessNode : Type 0 where
  pub process_id : String
  pub run_id : String
  pub node_id : String
  pub node_status : String
  pub depth : ℕ
  pub node_args : Option WorkflowNodeActualArgs
  pub created_user : String

-- workflow_process_edge
pub record ProcessEdge : Type 0 where
  pub process_id : String
  pub run_id : String
  pub edge_id : String
  pub props : Option EdgeConfig
  pub source_node_id : String
  pub target_node_id : String
  pub created_user : String

-- workflow_process
pub record Process : Type 0 where
  pub process_id : String
  pub process_name : String
  pub workflow_id : ℕ
  pub version_id : ℕ
  pub timer_id : ℕ
  pub process_args : Option WorkflowProcessArgs
  pub process_status : String
  pub current_run_id : String
  pub current_node_id : String
  pub current_node_status : String
  pub created_user : String
  pub is_deleted : Bool
  pub deleted_by : String

-- `queue` holds the messages of the stream, oldest first.
pub record Store : Type 0 where
  pub nodes : List ProcessNode
  pub edges : List ProcessEdge
  pub processes : List Process
  pub tasks : List NodeTask
  pub queue : List WorkflowNode

-- `failed` is an `anyhow` error; `panicked` a panic of the task that handles the message.
pub data Fault : Type 0 where
  failed : String → Fault
  panicked : Fault

abbrev pub M : Type 0 → Type 0
M A = Store → Result Fault A × Store

abbrev pub or_failed {ℓ} : {A : Type ℓ} → Result String A → Result Fault A
or_failed (ok a) = ok a
or_failed (err e) = err (failed e)

-- The row of a node in one run of a process.
abbrev pub is_row : String → String → String → ProcessNode → Bool
is_row process_id run_id node_id row =
    (row.process_id == process_id) && ((row.run_id == run_id) && (row.node_id == node_id))

abbrev pub own_row : WorkflowNode → ProcessNode → Bool
own_row node = is_row node.process_id node.run_id node.current_node.id

abbrev pub own_process : String → Process → Bool
own_process process_id row = row.process_id == process_id

-- The tasks of a node of a process, in any run.
abbrev pub tasks_of : String → String → List NodeTask → List NodeTask
tasks_of process_id node_id =
    filter λ task. (task.process_id == process_id) && (task.node_id == node_id)

-- `send_msg` with one message.
unfoldable pub flow_next : WorkflowNode → M (Unit {0})
flow_next node s = (ok tt, record s { queue = s.queue ++ node ∷ [] })
