-- ===== src/Workflow/Enums.antt =====
-- crates/service/src/logic/workflow/types.rs: the enums that the tables and messages hold as text.
use jiascheduler.Base.{
  ◌≡◌, ◌↔◌, refl, Bool, true, false, String, ◌==◌, eq_iff, if◌then◌else◌, Result, ok, err, arith,
}

pub data NodeType : Type 0 where
  start_event service_task end_event exclusive_gateway : NodeType

pub data TaskType : Type 0 where
  standard custom none_ : TaskType

pub data NodeStatus : Type 0 where
  prepare running end : NodeStatus

pub data ProcessStatus : Type 0 where
  running end : ProcessStatus

unfoldable pub node_type_to_string : NodeType → String
node_type_to_string start_event = "bpmn:startEvent"
node_type_to_string service_task = "bpmn:serviceTask"
node_type_to_string end_event = "bpmn:endEvent"
node_type_to_string exclusive_gateway = "bpmn:exclusiveGateway"

unfoldable pub node_type_try_from : String → Result String NodeType
node_type_try_from value =
    if value == "bpmn:startEvent"
    then ok start_event
    else (if value == "bpmn:serviceTask"
        then ok service_task
        else (if value == "bpmn:endEvent"
            then ok end_event
            else (if value == "bpmn:exclusiveGateway"
                then ok exclusive_gateway
                else err "Invalid node type")))

unfoldable pub task_type_to_string : TaskType → String
task_type_to_string standard = "standard"
task_type_to_string custom = "custom"
task_type_to_string none_ = "none"

unfoldable pub task_type_try_from : String → Result String TaskType
task_type_try_from value =
    if value == "standard"
    then ok standard
    else (if value == "custom"
        then ok custom
        else (if value == "none" then ok none_ else err "Invalid task type"))

abbrev pub node_status_to_string : NodeStatus → String
node_status_to_string NodeStatus.prepare = "prepare"
node_status_to_string NodeStatus.running = "running"
node_status_to_string NodeStatus.end = "end"

abbrev pub process_status_to_string : ProcessStatus → String
process_status_to_string ProcessStatus.running = "running"
process_status_to_string ProcessStatus.end = "end"

abbrev pub is_type : NodeType → NodeType → Bool
is_type start_event start_event = true
is_type service_task service_task = true
is_type end_event end_event = true
is_type exclusive_gateway exclusive_gateway = true
is_type _ _ = false

node_type_text :
    (s : String) (t : NodeType) → node_type_try_from s ≡ ok t → s ≡ node_type_to_string t
unfolding node_type_try_from node_type_to_string
node_type_text s t h = ground (
  arith,
  eq_iff s "bpmn:startEvent",
  eq_iff s "bpmn:serviceTask",
  eq_iff s "bpmn:endEvent",
  eq_iff s "bpmn:exclusiveGateway",
)

node_type_round_trip : (t : NodeType) → node_type_try_from (node_type_to_string t) ≡ ok t
unfolding node_type_try_from node_type_to_string
node_type_round_trip start_event = refl
node_type_round_trip _ = refl

-- A text is read as a node type exactly when it is the text that the type prints.
pub node_type_read :
    (s : String) (t : NodeType) → (node_type_try_from s ≡ ok t) ↔ (s ≡ node_type_to_string t)
node_type_read s t = (node_type_text s t, λ e. rw e (node_type_round_trip t))

task_type_text :
    (s : String) (t : TaskType) → task_type_try_from s ≡ ok t → s ≡ task_type_to_string t
unfolding task_type_try_from task_type_to_string
task_type_text s t h = ground (arith, eq_iff s "standard", eq_iff s "custom", eq_iff s "none")

task_type_round_trip : (t : TaskType) → task_type_try_from (task_type_to_string t) ≡ ok t
unfolding task_type_try_from task_type_to_string
task_type_round_trip standard = refl
task_type_round_trip _ = refl

-- A text is read as a task type exactly when it is the text that the type prints.
pub task_type_read :
    (s : String) (t : TaskType) → (task_type_try_from s ≡ ok t) ↔ (s ≡ task_type_to_string t)
task_type_read s t = (task_type_text s t, λ e. rw e (task_type_round_trip t))
