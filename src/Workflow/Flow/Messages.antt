-- ===== src/Workflow/Flow/Messages.antt =====
-- Where the messages go that handling a message sends
-- (crates/service/src/logic/workflow/workflow.rs, `process_node`).
use mathlib.Core.List.{append_assoc, append-nil}
use jiascheduler.Base.{
  ◌≡◌, ◌∙◌, ap, sym, refl, String, ◌==◌, Bool, true, false, Option, List, [], ◌∷◌, ◌++◌, Result, ok,
  err, HashMap, All, All-append, Member, here, there, filter_iff, find-some, eq_of_==, Option-cases,
  Result-cases, inl, inr, arith,
}
use jiascheduler.Base.State.{Keeps, bind-Keeps, ◌>>=◌}
use jiascheduler.Workflow.Enums.{NodeType, start_event, service_task, end_event, exclusive_gateway}
use jiascheduler.Workflow.Tables.{Json}
use jiascheduler.Workflow.Graph.{
  WorkflowNode, EdgeConfig, NodeConfig, get_next_nodes, get_next_edges, get_next_node_by_edge,
}
use jiascheduler.Workflow.Store.{Store, Fault, failed, panicked, flow_next}
use jiascheduler.Workflow.Dispatch.{Platform, handle_service_task}
use jiascheduler.Workflow.Flow.{
  record_edge, enter, is_continue, flow_points, handle_start_event, handle_end_event, try_edge,
  try_edges, end_gateway, handle_exclusive_gateway, handle, logged, go_on, deeper, process_node,
  passes, along, end_node,
}
use jiascheduler.Workflow.Graph.Next.{IsPoint, get_next_nodes-points}
use jiascheduler.Workflow.Flow.Dispatching.{handle_service_task-Idle}

-- The message is the node's own, moved along an edge that leaves the node to the node that the
-- edge leads to, both of the workflow.
abbrev pub IsForward : WorkflowNode → WorkflowNode → Type 0
IsForward node m =
    (edge : EdgeConfig) × (next : NodeConfig) × (m ≡ along node edge next)
    × IsPoint node (edge, next)

-- The stream has got new messages at its end, all of that kind.
abbrev pub Forwards : WorkflowNode → Store → Store → Type 0
Forwards node s t =
    (new : List WorkflowNode) × (t.queue ≡ s.queue ++ new) × All (IsForward node) new

quiet : (node : WorkflowNode) (s t : Store) → t.queue ≡ s.queue → Forwards node s t
quiet node s t e = ([], e ∙ sym (append-nil s.queue), tt)

Forwards-trans :
    (node : WorkflowNode) (s t u : Store)
    → Forwards node s t
    → Forwards node t u
    → Forwards node s u
Forwards-trans node s t u (a, ea, ha) (b, eb, hb) = (
  a ++ b,
  eb ∙ ap (λ q. q ++ b) ea ∙ append_assoc s.queue a b,
  All-append (IsForward node) a b ha hb,
)

abbrev AllForward : WorkflowNode → {A : Type 0} → (Store → Result Fault A × Store) → Type 0
AllForward node = Keeps (Forwards node)

forward_bind :
    (node : WorkflowNode) {A B : Type 0} (m : Store → Result Fault A × Store)
    (f : A → Store → Result Fault B × Store)
    → AllForward node m
    → ((a : A) → AllForward node (f a))
    → AllForward node (m >>= f)
forward_bind node = bind-Keeps (Forwards node) (λ s. quiet node s s refl) (Forwards-trans node)

flow_next-AllForward :
    (node : WorkflowNode) (edge : EdgeConfig) (next : NodeConfig)
    → IsPoint node (edge, next)
    → AllForward node (flow_next (along node edge next))
unfolding flow_next
flow_next-AllForward node edge next h s =
    (along node edge next ∷ [], refl, ((edge, next, refl, h), tt))

flow_points-AllForward :
    (node : WorkflowNode) (points : List (EdgeConfig × NodeConfig))
    → All (IsPoint node) points
    → AllForward node (flow_points node points)
unfolding flow_points
flow_points-AllForward node [] h = λ s. quiet node s s refl
flow_points-AllForward node ((edge, next) ∷ points) h =
    forward_bind node {B = Unit {0}} (flow_next (along node edge next))
      (λ _. flow_points node points) (flow_next-AllForward node edge next h.0)
      (λ _. flow_points-AllForward node points h.1)

handle_start_event-AllForward : (node : WorkflowNode) → AllForward node (handle_start_event node)
unfolding handle_start_event
handle_start_event-AllForward node s = elim (Result-cases (get_next_nodes node)) [
  | inl (points, e) ↦
      rw (handle_start_event, e)
        (forward_bind node {B = Unit {0}} (end_node node) (λ _. flow_points node points)
          (λ s. quiet node s (end_node node s).1 refl)
          (λ _. flow_points-AllForward node points (get_next_nodes-points node points e).1) s)
  | inr (_, e) ↦ rw (handle_start_event, e) (quiet node s s refl)
]

handle_end_event-AllForward : (node : WorkflowNode) → AllForward node (handle_end_event node)
unfolding handle_end_event
handle_end_event-AllForward node s = quiet node s (handle_end_event node s).1 refl

module _ (evaluate : String → HashMap Json → Result String (Option Bool)) where
  try_edge-AllForward :
      (node : WorkflowNode) (edge : EdgeConfig)
      → Member edge (get_next_edges node)
      → AllForward node (try_edge evaluate node edge)
  unfolding try_edge get_next_edges get_next_node_by_edge
  try_edge-AllForward node edge m s = elim (Result-cases (passes evaluate node s edge.condition)) [
    | inl (true, e) ↦ elim (Option-cases (get_next_node_by_edge node edge)) [
      | inl none_ ↦ rw (try_edge, e, none_) (quiet node s s refl)
      | inr (next, found) ↦
          let (known, leaves) =
            (filter_iff (λ v. v.source_node_id == node.current_node.id) node.origin_edges edge).0
              m in
          let (node_known, arrives) =
            find-some (λ v. v.id == edge.target_node_id) node.origin_nodes next found in
          rw (try_edge, e, found)
            (flow_next-AllForward node edge next
              (record {
                edge_known = known;
                leaves = eq_of_== edge.source_node_id node.current_node.id leaves;
                node_known = node_known;
                arrives = eq_of_== next.id edge.target_node_id arrives;
              })
              s)
    ]
    | inl (false, e) ↦ rw (try_edge, e) (quiet node s s refl)
    | inr (_, e) ↦ rw (try_edge, e) (quiet node s s refl)
  ]

  try_edges-AllForward :
      (node : WorkflowNode) (edges : List EdgeConfig)
      → ((e : EdgeConfig) → Member e edges → Member e (get_next_edges node))
      → AllForward node (try_edges evaluate node edges)
  unfolding try_edges
  try_edges-AllForward node [] h = λ s. quiet node s s refl
  try_edges-AllForward node (edge ∷ edges) h =
      forward_bind node (try_edge evaluate node edge) (λ _. try_edges evaluate node edges)
        (try_edge-AllForward node edge (h edge here))
        (λ _. try_edges-AllForward node edges (λ e m. h e (there m)))

  handle_exclusive_gateway-AllForward :
      (node : WorkflowNode) → AllForward node (handle_exclusive_gateway evaluate node)
  unfolding handle_exclusive_gateway end_gateway
  handle_exclusive_gateway-AllForward node =
      forward_bind node (end_gateway evaluate node)
        (λ _. try_edges evaluate node (get_next_edges node))
        (λ s. quiet node s (end_gateway evaluate node s).1 refl)
        (λ _. try_edges-AllForward node (get_next_edges node) (λ e m. m))

  module _ (platform : Platform) where
    handle-AllForward :
        (node : WorkflowNode) (t : NodeType) → AllForward node (handle evaluate platform node t)
    handle-AllForward node start_event = handle_start_event-AllForward node
    handle-AllForward node service_task = λ s.
        quiet node s (handle_service_task platform node s).1
          (handle_service_task-Idle platform node s).1
    handle-AllForward node end_event = handle_end_event-AllForward node
    handle-AllForward node exclusive_gateway = handle_exclusive_gateway-AllForward node

    logged-Forwards :
        (node : WorkflowNode) (s : Store) (x : Result Fault (Unit {0}) × Store)
        → Forwards node s x.1
        → Forwards node s (logged evaluate platform x).1
    logged-Forwards node s (ok _, t) h = h
    logged-Forwards node s (err (failed e), t) h = h
    logged-Forwards node s (err panicked, t) h = h

    go_on-AllForward :
        (node : WorkflowNode) (b : Bool) → AllForward node (go_on evaluate platform node b)
    go_on-AllForward node false s = quiet node s s refl
    go_on-AllForward node true s =
        logged-Forwards node s (handle evaluate platform node node.current_node.node_type s)
          (handle-AllForward node node.current_node.node_type s)

is_continue-queue : (node : WorkflowNode) (s : Store) → (is_continue node s).1.queue ≡ s.queue
unfolding is_continue enter record_edge
is_continue-queue node s = ground arith

-- Handling a message only adds messages at the end of the stream, each of them the message itself
-- one step deeper, moved along an edge of the workflow that leaves its node to the node that the
-- edge leads to.
pub process_node-Forwards :
    (evaluate : String → HashMap Json → Result String (Option Bool)) (platform : Platform)
    (node : WorkflowNode) (s : Store)
    → Forwards (deeper evaluate platform node) s (process_node evaluate platform node s).1
unfolding process_node
process_node-Forwards evaluate platform node =
    let node' : WorkflowNode = deeper evaluate platform node in
    forward_bind node' (is_continue node') (go_on evaluate platform node')
      (λ s. quiet node' s (is_continue node' s).1 (is_continue-queue node' s))
      (go_on-AllForward evaluate platform node')
