-- ===== src/Workflow/Status/Ends.antt =====
-- When a report ends a node (crates/service/src/logic/workflow/workflow.rs, `update_node_status`).
use jiascheduler.Base.{
  ◌≡◌, ◌≢◌, ◌⊎◌, inl, inr, ◌∙◌, ap, sym, refl, String, ◌==◌, eq_iff, true, false, not, ◌&&◌, some,
  List, [], ◌∷◌, ◌++◌, Result, ok, map, Member, any_iff, filter_iff, Bool-cases, arith,
}
use mathlib.Core.List.{append_assoc, append-nil}
use jiascheduler.Agent.RunStatus.{RunStatus, to_string}
use jiascheduler.Agent.Messages.{UpdateJobParams}
use jiascheduler.Workflow.Tables.{NodeTask}
use jiascheduler.Workflow.Graph.{WorkflowNode, EdgeConfig, NodeConfig, get_next_nodes}
use jiascheduler.Workflow.Store.{Store, Fault, tasks_of, flow_next}
use jiascheduler.Workflow.Flow.{along, flow_points}
use jiascheduler.Workflow.Status.{
  update_tasks, is_stopped, is_reported, reported, not_ok, end_reported, finish_node, read_fields,
  with_status, update_node_status,
}

-- One message for each point, in their order.
abbrev pub messages_to : WorkflowNode → List (EdgeConfig × NodeConfig) → List WorkflowNode
messages_to node = map (λ point. along node point.0 point.1)

flow_points-queue :
    (node : WorkflowNode) (points : List (EdgeConfig × NodeConfig)) (s : Store)
    → flow_points node points s ≡ (ok tt, record s { queue = s.queue ++ messages_to node points })
unfolding flow_points flow_next
flow_points-queue node [] s = ap (λ q. (ok tt, record s { queue = q })) (sym (append-nil s.queue))
flow_points-queue node ((edge, next) ∷ points) s =
    flow_points-queue node points (record s { queue = s.queue ++ along node edge next ∷ [] })
    ∙ ap (λ q. (ok tt, record s { queue = q }))
        (append_assoc s.queue (along node edge next ∷ []) (messages_to node points))

-- A task of the node, in any run of the process, is not stopped.
abbrev pub IsUnfinished : UpdateJobParams → List NodeTask → Type 0
unfolding to_string
IsUnfinished params tasks =
    (task : NodeTask) × Member task tasks
    × (task.process_id ≡ params.schedule_id)
    × (task.node_id ≡ params.base_job.eid)
    × (task.task_status ≢ to_string RunStatus.stop)

IsUnfinished-of :
    (params : UpdateJobParams) (tasks : List NodeTask)
    → not_ok params tasks ≡ true
    → IsUnfinished params tasks
unfolding to_string
IsUnfinished-of params tasks h =
    let (task, m, e) = (any_iff (λ task. not (is_stopped task)) _).0 h in
    let (m', own) = (filter_iff _ tasks task).0 m in
    (
      task,
      m',
      ground (arith, eq_iff task.process_id params.schedule_id),
      ground (arith, eq_iff task.node_id params.base_job.eid),
      λ k. ground (arith, eq_iff task.task_status "stop"),
    )

finished_of :
    (params : UpdateJobParams) (tasks : List NodeTask)
    → not_ok params tasks ≡ false
    → ¬ IsUnfinished params tasks
unfolding to_string
finished_of params tasks h (task, m, p, n, e) =
    let open_ : not (is_stopped task) ≡ true = ground (arith, eq_iff task.task_status "stop") in
    let own : ((task.process_id == params.schedule_id) && (task.node_id == params.base_job.eid))
        ≡ true =
      ground (
        arith,
        eq_iff task.process_id params.schedule_id,
        eq_iff task.node_id params.base_job.eid,
      ) in
    let some_open : not_ok params tasks ≡ true =
      (any_iff (λ task. not (is_stopped task)) _).1
        (task, (filter_iff _ tasks task).1 (m, own), open_) in
    cc

finish_node-queue :
    (node_of : String → Result String WorkflowNode) (params : UpdateJobParams) (s : Store)
    (fields : String) (node : WorkflowNode) (points : List (EdgeConfig × NodeConfig))
    → params.fields ≡ some fields
    → node_of fields ≡ ok node
    → get_next_nodes node ≡ ok points
    → finish_node node_of params s ≡ (
      ok tt,
      record s { nodes = end_reported params s.nodes; queue = s.queue ++ messages_to node points },
    )
unfolding finish_node read_fields
finish_node-queue node_of params s fields node points f g h =
    rw (finish_node, f, read_fields, g, h)
      (flow_points-queue node points (record s { nodes = end_reported params s.nodes }))

-- The report leaves the node open, or ends it and sends the messages on.
abbrev pub Waits : UpdateJobParams → Store → Store → Type 0
Waits params s t = IsUnfinished params t.tasks × (t.queue ≡ s.queue) × (t.nodes ≡ s.nodes)

abbrev pub Finishes :
    UpdateJobParams → WorkflowNode → List (EdgeConfig × NodeConfig) → Store → Store → Type 0
Finishes params node points s t =
    ¬ IsUnfinished params t.tasks
    × (t.queue ≡ s.queue ++ messages_to node points)
    × (t.nodes ≡ end_reported params s.nodes)

-- The report succeeds, and the node waits or is finished.
abbrev pub Moves :
    UpdateJobParams
    → RunStatus
    → WorkflowNode
    → List (EdgeConfig × NodeConfig)
    → Store
    → Result Fault (Unit {0}) × Store
    → Type 0
Moves params run_status node points s out =
    (out.0 ≡ ok tt)
    × (out.1.tasks ≡ update_tasks params run_status s.tasks)
    × (Waits params s out.1 ⊎ Finishes params node points s out.1)

-- A report whose fields hold a node with known next nodes succeeds and rewrites the tasks. If then
-- a task of the node, in any run of the process, is not stopped, no message is sent and no row of a
-- node changes. If none is, the node's row in the report's run ends and one message goes to each
-- next node, in the order of the edges.
pub update_node_status-Moves :
    (node_of : String → Result String WorkflowNode) (params : UpdateJobParams) (s : Store)
    (run_status : RunStatus) (fields : String) (node : WorkflowNode)
    (points : List (EdgeConfig × NodeConfig))
    → params.run_status ≡ some run_status
    → params.fields ≡ some fields
    → node_of fields ≡ ok node
    → get_next_nodes node ≡ ok points
    → Moves params run_status node points s (update_node_status node_of params s)
unfolding update_node_status with_status update_tasks
update_node_status-Moves node_of params s run_status fields node points r f g h =
    elim (Bool-cases (not_ok params (update_tasks params run_status s.tasks))) [
      | inl open_ ↦
          rw (update_node_status, r, open_)
            (
              refl,
              refl,
              inl (
                IsUnfinished-of params (update_tasks params run_status s.tasks) open_,
                refl,
                refl,
              ),
            )
      | inr done ↦
          rw
            (
              update_node_status,
              r,
              done,
              finish_node-queue node_of params
                  (record s { tasks = update_tasks params run_status s.tasks }) fields node points f
                  g h,
            )
            (
              refl,
              refl,
              inr (finished_of params (update_tasks params run_status s.tasks) done, refl, refl),
            )
    ]

tasks_of-update :
    (params : UpdateJobParams) (run_status : RunStatus) (tasks : List NodeTask)
    → tasks_of params.schedule_id params.base_job.eid tasks ≡ []
    → tasks_of params.schedule_id params.base_job.eid (update_tasks params run_status tasks) ≡ []
unfolding update_tasks is_reported reported
tasks_of-update params run_status [] h = refl
tasks_of-update params run_status (task ∷ tasks) h =
    ground (arith, tasks_of-update params run_status tasks)

-- A report that comes while the node has no task row at all, whatever state it tells, sends one
-- message to each next node.
pub update_node_status-no_tasks :
    (node_of : String → Result String WorkflowNode) (params : UpdateJobParams) (s : Store)
    (run_status : RunStatus) (fields : String) (node : WorkflowNode)
    (points : List (EdgeConfig × NodeConfig))
    → params.run_status ≡ some run_status
    → params.fields ≡ some fields
    → node_of fields ≡ ok node
    → get_next_nodes node ≡ ok points
    → tasks_of params.schedule_id params.base_job.eid s.tasks ≡ []
    → (update_node_status node_of params s).1.queue ≡ s.queue ++ messages_to node points
unfolding update_node_status with_status
update_node_status-no_tasks node_of params s run_status fields node points r f g h none_ =
    let still : not_ok params (update_tasks params run_status s.tasks) ≡ false =
      rw (tasks_of-update params run_status s.tasks none_) in
    rw (
      update_node_status,
      r,
      with_status,
      still,
      finish_node-queue node_of params (record s { tasks = update_tasks params run_status s.tasks })
          fields node points f g h,
    )
