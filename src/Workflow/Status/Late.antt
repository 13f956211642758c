-- ===== src/Workflow/Status/Late.antt =====
-- A report of a running task that comes late (crates/service/src/logic/workflow/workflow.rs,
-- `update_node_status`).
use jiascheduler.Base.{
  ◌≡◌, refl, String, ◌==◌, eq_iff, true, false, some, List, [], ◌∷◌, ◌++◌, Result, filter,
  filter-update_where, Bool-cases, Option-cases, Result-cases, inl, inr, arith,
}
use jiascheduler.Agent.RunStatus.{RunStatus, to_string}
use jiascheduler.Agent.Messages.{UpdateJobParams}
use jiascheduler.Workflow.Tables.{NodeTask}
use jiascheduler.Workflow.Graph.{WorkflowNode, EdgeConfig, NodeConfig, get_next_nodes}
use jiascheduler.Workflow.Store.{Store, flow_next}
use jiascheduler.Workflow.Flow.{along, flow_points}
use jiascheduler.Workflow.Status.{
  update_tasks, is_stopped, is_reported, reported, not_ok, end_reported, finish_node, read_fields,
  with_status, update_node_status,
}

only_prepared :
    (params : UpdateJobParams) (task : NodeTask)
    → is_reported params RunStatus.running task ≡ true
    → is_stopped task ≡ false
unfolding is_reported to_string
only_prepared params task h = elim (Bool-cases (is_stopped task)) [
  | inl stopped ↦
      let e : task.task_status ≡ "stop" = (eq_iff task.task_status "stop").0 stopped in
      let prepared : (task.task_status == "prepare") ≡ true = ground arith in
      let bad : ("stop" == "prepare") ≡ true = rw e at prepared in cc bad
  | inr other ↦ other
]

stopped_untouched :
    (params : UpdateJobParams) (tasks : List NodeTask)
    → filter is_stopped (update_tasks params RunStatus.running tasks) ≡ filter is_stopped tasks
unfolding update_tasks reported to_string
stopped_untouched params tasks =
    filter-update_where is_stopped (is_reported params RunStatus.running)
      (reported params RunStatus.running) tasks (only_prepared params) (λ task h. refl)

flow_points-tasks :
    (node : WorkflowNode) (points : List (EdgeConfig × NodeConfig)) (s : Store)
    → (flow_points node points s).1.tasks ≡ s.tasks
unfolding flow_points flow_next
flow_points-tasks node [] s = refl
flow_points-tasks node ((edge, next) ∷ points) s =
    flow_points-tasks node points (record s { queue = s.queue ++ along node edge next ∷ [] })

finish_node-tasks :
    (node_of : String → Result String WorkflowNode) (params : UpdateJobParams) (s : Store)
    → (finish_node node_of params s).1.tasks ≡ s.tasks
unfolding finish_node read_fields
finish_node-tasks node_of params s = elim (Option-cases params.fields) [
  | inl none_ ↦ rw (none_, finish_node, read_fields)
  | inr (fields, f) ↦ elim (Result-cases (node_of fields)) [
    | inr (e, g) ↦ rw (f, finish_node, read_fields, g)
    | inl (node, g) ↦ elim (Result-cases (get_next_nodes node)) [
      | inr (e, h) ↦ rw (f, finish_node, read_fields, g, h)
      | inl (points, h) ↦
          rw (f, finish_node, read_fields, g, h)
            (flow_points-tasks node points (record s { nodes = end_reported params s.nodes }))
    ]
  ]
]

-- A report of a running task changes no task row that is stopped, whatever the answer.
pub update_node_status-keeps_stopped :
    (node_of : String → Result String WorkflowNode) (params : UpdateJobParams) (s : Store)
    → params.run_status ≡ some RunStatus.running
    → filter is_stopped (update_node_status node_of params s).1.tasks ≡ filter is_stopped s.tasks
unfolding update_node_status with_status
update_node_status-keeps_stopped node_of params s r =
    elim (Bool-cases (not_ok params (update_tasks params RunStatus.running s.tasks))) [
      | inl open_ ↦
          rw (update_node_status, r, with_status, open_) (stopped_untouched params s.tasks)
      | inr done ↦
          rw
            (
              update_node_status,
              r,
              with_status,
              done,
              finish_node-tasks node_of params
                  (record s { tasks = update_tasks params RunStatus.running s.tasks }),
            )
            (stopped_untouched params s.tasks)
    ]
