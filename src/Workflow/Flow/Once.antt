-- ===== src/Workflow/Flow/Once.antt =====
-- The rows of a node in a run of a process (crates/service/src/logic/workflow/workflow.rs,
-- `process_node`).
use jiascheduler.Base.{
  ◌≤◌, ◌≡◌, ◌∙◌, ap, refl, String, eq_iff, Bool, true, false, Option, List, [], ◌∷◌, ◌++◌, Result,
  ok, err, HashMap, any, count_if, count_if-update_where, count_if-append, any-false-count_if,
  Bool-cases, inl, inr, arith,
}
use jiascheduler.Base.State.{Keeps, bind-Keeps, ◌>>=◌, ◌>>◌, lift}
use jiascheduler.Workflow.Enums.{NodeType, start_event, service_task, end_event, exclusive_gateway}
use jiascheduler.Workflow.Tables.{Json}
use jiascheduler.Workflow.Graph.{
  WorkflowNode, EdgeConfig, NodeConfig, get_next_nodes, get_next_edges,
}
use jiascheduler.Workflow.Store.{
  Store, ProcessNode, Fault, failed, panicked, is_row, own_row, flow_next, or_failed,
}
use jiascheduler.Workflow.Dispatch.{Platform}
use jiascheduler.Workflow.Flow.{
  record_edge, is_ready, enter, touch_row, is_continue, new_row, end_row, flow_points,
  handle_start_event, end_row_any_run, handle_end_event, try_edge, try_edges, end_gateway,
  handle_exclusive_gateway, handle, logged, go_on, deeper, process_node, along, end_node,
}
use jiascheduler.Workflow.Flow.Dispatching.{row_count, SameRows, handle_service_task-Idle}

abbrev Same : {A : Type 0} → (Store → Result Fault A × Store) → Type 0
Same = Keeps SameRows

Same-bind :
    {A B : Type 0} (m : Store → Result Fault A × Store) (f : A → Store → Result Fault B × Store)
    → Same m
    → ((a : A) → Same (f a))
    → Same (m >>= f)
Same-bind = bind-Keeps SameRows (λ s p r n. refl) (λ s t u h k p r n. k p r n ∙ h p r n)

lift-Same : {A : Type 0} (r : Result Fault A) → Same (lift r)
lift-Same r s p r' n = refl

flow_next-Same : (node : WorkflowNode) → Same (flow_next node)
unfolding flow_next
flow_next-Same node s p r n = refl

flow_points-Same :
    (node : WorkflowNode) (points : List (EdgeConfig × NodeConfig)) → Same (flow_points node points)
unfolding flow_points
flow_points-Same node [] = λ s p r n. refl
flow_points-Same node ((edge, next) ∷ points) =
    Same-bind {B = Unit {0}} (flow_next (along node edge next)) (λ _. flow_points node points)
      (flow_next-Same (along node edge next)) (λ _. flow_points-Same node points)

end_row-same :
    (node : WorkflowNode) (rows : List ProcessNode) (p r n : String)
    → count_if (is_row p r n) (end_row node rows) ≡ count_if (is_row p r n) rows
unfolding end_row
end_row-same node rows p r n = count_if-update_where (is_row p r n) _ _ rows (λ row. refl)

handle_start_event-Same : (node : WorkflowNode) → Same (handle_start_event node)
unfolding handle_start_event
handle_start_event-Same node =
    Same-bind (lift (or_failed (get_next_nodes node)))
      (λ points. end_node node >> flow_points node points)
      (lift-Same {A = List (EdgeConfig × NodeConfig)} (or_failed (get_next_nodes node)))
      λ points.
        Same-bind {B = Unit {0}} (end_node node) (λ _. flow_points node points)
          (λ s p r n. end_row-same node s.nodes p r n) (λ _. flow_points-Same node points)

handle_end_event-Same : (node : WorkflowNode) → Same (handle_end_event node)
unfolding handle_end_event end_row_any_run
handle_end_event-Same node s p r n = count_if-update_where (is_row p r n) _ _ s.nodes (λ row. refl)

module _ (evaluate : String → HashMap Json → Result String (Option Bool)) where
  try_edge-Same : (node : WorkflowNode) (edge : EdgeConfig) → Same (try_edge evaluate node edge)
  unfolding try_edge flow_next
  try_edge-Same node edge s p r n = ground arith

  try_edges-Same :
      (node : WorkflowNode) (edges : List EdgeConfig) → Same (try_edges evaluate node edges)
  unfolding try_edges
  try_edges-Same node [] = λ s p r n. refl
  try_edges-Same node (edge ∷ edges) =
      Same-bind (try_edge evaluate node edge) (λ _. try_edges evaluate node edges)
        (try_edge-Same node edge) (λ _. try_edges-Same node edges)

  handle_exclusive_gateway-Same :
      (node : WorkflowNode) → Same (handle_exclusive_gateway evaluate node)
  unfolding handle_exclusive_gateway end_gateway
  handle_exclusive_gateway-Same node =
      Same-bind (end_gateway evaluate node) (λ _. try_edges evaluate node (get_next_edges node))
        (λ s p r n. end_row-same node s.nodes p r n)
        (λ _. try_edges-Same node (get_next_edges node))

  module _ (platform : Platform) where
    handle-Same : (node : WorkflowNode) (t : NodeType) → Same (handle evaluate platform node t)
    handle-Same node start_event = handle_start_event-Same node
    handle-Same node service_task = λ s. (handle_service_task-Idle platform node s).0
    handle-Same node end_event = handle_end_event-Same node
    handle-Same node exclusive_gateway = handle_exclusive_gateway-Same node

    logged-store : (x : Result Fault (Unit {0}) × Store) → (logged evaluate platform x).1 ≡ x.1
    logged-store (ok _, s) = refl
    logged-store (err (failed e), s) = refl
    logged-store (err panicked, s) = refl

    go_on-Same : (node : WorkflowNode) (b : Bool) → Same (go_on evaluate platform node b)
    go_on-Same node false s p r n = refl
    go_on-Same node true s p r n =
        ap (λ t. row_count p r n t)
          (logged-store (handle evaluate platform node node.current_node.node_type s))
        ∙ handle-Same node node.current_node.node_type s p r n

-- A node has at most one row in a run of a process.
abbrev pub OneRow : Store → Type 0
OneRow s = (p r n : String) → row_count p r n s ≤ 1

new_row-count :
    (node : WorkflowNode) (p r n : String) (rows : List ProcessNode)
    → any (own_row node) rows ≡ false
    → count_if (is_row p r n) rows ≤ 1
    → count_if (is_row p r n) (rows ++ new_row node ∷ []) ≤ 1
new_row-count node p r n rows fresh one = elim (Bool-cases (is_row p r n (new_row node))) [
  | inl same ↦
      let e1 : p ≡ node.process_id = ground (arith, eq_iff node.process_id p) in
      let e2 : r ≡ node.run_id = ground (arith, eq_iff node.run_id r) in
      let e3 : n ≡ node.current_node.id = ground (arith, eq_iff node.current_node.id n) in
      let free : any (is_row p r n) rows ≡ false = rw (e1, e2, e3) fresh in
      ground (
        arith,
        count_if-append (is_row p r n) rows (new_row node ∷ []),
        any-false-count_if (is_row p r n) rows free,
      )
  | inr other ↦ ground (arith, count_if-append (is_row p r n) rows (new_row node ∷ []), other)
]

enter-OneRow : (node : WorkflowNode) (s : Store) → OneRow s → OneRow (enter node s).1
unfolding enter touch_row
enter-OneRow node s one = elim (Bool-cases (any (own_row node) s.nodes)) [
  | inl known ↦ rw known (λ p r n. omega (
    arith,
    one p r n,
    count_if-update_where (is_row p r n) (own_row node)
        (λ row. record row { depth = node.flow_depth }) s.nodes (λ row. refl),
  ))
  | inr fresh ↦ rw fresh (λ p r n. new_row-count node p r n s.nodes fresh (one p r n))
]

is_continue-OneRow : (node : WorkflowNode) (s : Store) → OneRow s → OneRow (is_continue node s).1
unfolding is_continue record_edge
is_continue-OneRow node s one = elim (Bool-cases (is_ready node (record_edge node s).edges)) [
  | inl ready ↦ rw (ready, is_continue) (enter-OneRow node (record_edge node s) one)
  | inr waits ↦ rw (waits, is_continue) one
]

abbrev KeepsOneRow : Store → Store → Type 0
KeepsOneRow s t = OneRow s → OneRow t

-- Handling a message of the stream keeps it that a node has at most one row in a run of a
-- process, whatever the handler returns.
pub process_node-OneRow :
    (evaluate : String → HashMap Json → Result String (Option Bool)) (platform : Platform)
    (node : WorkflowNode) (s : Store)
    → OneRow s
    → OneRow (process_node evaluate platform node s).1
unfolding process_node
process_node-OneRow evaluate platform node s =
    bind-Keeps KeepsOneRow (λ s h. h) (λ s t u f g h. g (f h))
      (is_continue (deeper evaluate platform node))
      (go_on evaluate platform (deeper evaluate platform node))
      (is_continue-OneRow (deeper evaluate platform node))
      (λ b t one p r n.
        rw (go_on-Same evaluate platform (deeper evaluate platform node) b t p r n) (one p r n))
      s
