-- ===== src/Workflow/Tables.antt =====
-- The rows of the tables of a workflow process (crates/entity/src/entity), without their row
-- number, their times and the columns that the engine leaves at the default, and the record of a
-- dispatch (crates/service/src/logic/job/types.rs). Statuses are text in the tables.
use jiascheduler.Base.{ℕ, Bool, String, Option, List}

pub record DispatchResult : Type 0 where
  pub namespace : String
  pub bind_ip : String
  pub instance_id : String
  pub response : String
  pub has_err : Bool
  pub err : Option String

-- workflow_process_node_task
pub record NodeTask : Type 0 where
  pub process_id : String
  pub node_id : String
  pub run_id : String
  pub task_status : String
  pub bind_ip : String
  pub exit_code : ℕ
  pub exit_status : String
  pub output : String
  pub dispatch_result : Option DispatchResult
  pub created_user : String

-- A JSON value of an argument or of an expression's variable: a text, the rows of a node's tasks,
-- or a truth value.
pub data Json : Type 0 where
  text : String → Json
  rows : List NodeTask → Json
  truth : Bool → Json
