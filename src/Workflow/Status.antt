-- ===== src/Workflow/Status.antt =====
-- crates/service/src/logic/workflow/workflow.rs: `update_node_status`, how the report of an agent
-- moves a process on. `node_of` reads the node out of the report's fields, a parameter.
pub mod Ends
pub mod Late
use jiascheduler.Base.{
  ℕ, String, ◌==◌, Bool, true, false, not, ◌&&◌, if◌then◌else◌, Option, none, some, List, [], ◌∷◌,
  ◌++◌, Result, ok, err, any, update_where, map, format,
}
use jiascheduler.Base.State.{and_then, ◌>>=◌, ◌>>◌, pure, fail, lift}
use jiascheduler.Agent.RunStatus.{RunStatus, to_string}
use jiascheduler.Agent.Messages.{UpdateJobParams}
use jiascheduler.Workflow.Enums.{NodeStatus, node_status_to_string}
use jiascheduler.Workflow.Tables.{NodeTask}
use jiascheduler.Workflow.Graph.{WorkflowNode, get_next_nodes}
use jiascheduler.Workflow.Store.{Store, ProcessNode, Fault, failed, M, or_failed, is_row, tasks_of}
use jiascheduler.Workflow.Flow.{flow_points}

abbrev text_or_empty : Option String → String
text_or_empty none = ""
text_or_empty (some v) = v

-- The errors' text, a line break, and the output.
abbrev pub joined_output : Option String → Option String → String
joined_output stdout none = text_or_empty stdout
joined_output stdout (some e) =
    if not (e == "") then format (e ∷ "\n" ∷ text_or_empty stdout ∷ []) else text_or_empty stdout

abbrev is_prepare : NodeTask → Bool
is_prepare task = task.task_status == to_string RunStatus.prepare

-- The rows that a report is about: `Running` is written only over `Prepare`.
unfoldable pub is_reported : UpdateJobParams → RunStatus → NodeTask → Bool
unfolding to_string
is_reported params run_status task =
    let own =
      (task.process_id == params.schedule_id)
      && ((task.node_id == params.base_job.eid) && (task.bind_ip == params.bind_ip)) in
    elim run_status [
      | RunStatus.running ↦ own && is_prepare task
      | RunStatus.prepare ↦ own
      | RunStatus.stop ↦ own
    ]

abbrev or_unset {ℓ} : {A : Type ℓ} → Option A → A → A
or_unset none old = old
or_unset (some new) old = new

unfoldable pub reported : UpdateJobParams → RunStatus → NodeTask → NodeTask
unfolding to_string
reported params run_status task = record task {
  task_status = to_string run_status;
  exit_code = or_unset params.exit_code task.exit_code;
  exit_status = or_unset params.exit_status task.exit_status;
  output = joined_output params.stdout params.stderr;
}

unfoldable pub update_tasks : UpdateJobParams → RunStatus → List NodeTask → List NodeTask
unfolding is_reported reported
update_tasks params run_status =
    update_where (is_reported params run_status) (reported params run_status)

abbrev pub is_stopped : NodeTask → Bool
unfolding to_string
is_stopped task = task.task_status == to_string RunStatus.stop

-- Whether a task of the node is not stopped, in any run.
abbrev pub not_ok : UpdateJobParams → List NodeTask → Bool
not_ok params tasks =
    any (λ task. not (is_stopped task)) (tasks_of params.schedule_id params.base_job.eid tasks)

abbrev pub end_reported : UpdateJobParams → List ProcessNode → List ProcessNode
end_reported params =
    update_where (is_row params.schedule_id params.run_id params.base_job.eid)
      (λ row. record row { node_status = node_status_to_string NodeStatus.end })

module _ (node_of : String → Result String WorkflowNode) where
  unfoldable pub read_fields : Option String → M WorkflowNode
  read_fields none = fail (failed "fields is none")
  read_fields (some fields) = lift (or_failed (node_of fields))

  -- The node is finished: its row ends and the messages go out.
  unfoldable pub finish_node : UpdateJobParams → M (Unit {0})
  unfolding flow_points read_fields
  finish_node params s =
      (read_fields params.fields >>= λ current_node.
      lift (or_failed (get_next_nodes current_node)) >>= λ next_point.
      flow_points current_node next_point)
        (record s { nodes = end_reported params s.nodes })

  unfoldable pub with_status : UpdateJobParams → Option RunStatus → M (Unit {0})
  unfolding update_tasks finish_node
  with_status params none = fail (failed "none run status")
  with_status params (some run_status) = λ s.
      let s' : Store = record s { tasks = update_tasks params run_status s.tasks } in
      if not_ok params s'.tasks then (ok tt, s') else finish_node params s'

  unfoldable pub update_node_status : UpdateJobParams → M (Unit {0})
  unfolding with_status
  update_node_status params = with_status params params.run_status
