-- ===== src/Workflow/Flow/Entry.antt =====
-- When a node is entered (crates/service/src/logic/workflow/workflow.rs, `is_continue`).
use jiascheduler.Base.{
  ◌≡◌, ◌↔◌, ◌⊎◌, inl, inr, ◌==◌, eq_iff, true, false, List, ok, any, Member, any_iff, all_iff,
  filter_iff, Bool-cases, arith,
}
use jiascheduler.Workflow.Enums.{end_event}
use jiascheduler.Workflow.Graph.{WorkflowNode, EdgeConfig, get_prev_edges}
use jiascheduler.Workflow.Store.{Store, ProcessEdge, own_row}
use jiascheduler.Workflow.Flow.{ready_edges, is_ready, record_edge, enter, is_continue}

-- The row says that the edge was taken, in this run of the process, to the current node.
pub record IsTaken (node : WorkflowNode) (edge : EdgeConfig) (row : ProcessEdge) : Type 0 where
  pub process : row.process_id ≡ node.process_id
  pub target : row.target_node_id ≡ node.current_node.id
  pub run : row.run_id ≡ node.run_id
  pub edge_ : row.edge_id ≡ edge.id

-- If the node joins, every edge into it has been taken.
abbrev pub IsJoined : WorkflowNode → List ProcessEdge → Type 0
IsJoined node rows =
    node.current_node.is_join_all ≡ true
    → (e : EdgeConfig) → Member e (get_prev_edges node)
    → (row : ProcessEdge) × Member row rows × IsTaken node e row

IsTaken-edge :
    (node : WorkflowNode) (rows : List ProcessEdge) (e : EdgeConfig)
    → (any (λ v2. v2.edge_id == e.id) (ready_edges node rows) ≡ true)
      ↔ ((row : ProcessEdge) × Member row rows × IsTaken node e row)
IsTaken-edge node rows e = (
  λ h.
      let (row, m, t) = (any_iff (λ v2. v2.edge_id == e.id) (ready_edges node rows)).0 h in
      let (m', r) = (filter_iff _ rows row).0 m in
      (
        row,
        m',
        ground (
          arith,
          eq_iff row.process_id node.process_id,
          eq_iff row.target_node_id node.current_node.id,
          eq_iff row.run_id node.run_id,
          eq_iff row.edge_id e.id,
        ),
      ),
  λ h.
      let (row, m, t) = h in
      (any_iff (λ v2. v2.edge_id == e.id) (ready_edges node rows)).1 (
        row,
        (filter_iff _ rows row).1 (
          m,
          ground (
            arith,
            eq_iff row.process_id node.process_id,
            eq_iff row.target_node_id node.current_node.id,
            eq_iff row.run_id node.run_id,
          ),
        ),
        ground (arith, eq_iff row.edge_id e.id),
      ),
)

is_ready_iff :
    (node : WorkflowNode) (rows : List ProcessEdge)
    → (is_ready node rows ≡ true) ↔ IsJoined node rows
unfolding is_ready get_prev_edges
is_ready_iff node rows = elim (Bool-cases node.current_node.is_join_all) [
  | inl joins ↦ (
    λ h _ e m.
        (IsTaken-edge node rows e).0 ((all_iff _ (get_prev_edges node)).0 (rw joins at h) e m),
    λ h.
        rw joins
          ((all_iff _ (get_prev_edges node)).1 (λ e m. (IsTaken-edge node rows e).1 (h joins e m))),
  )
  | inr free ↦ (λ h joins. cc, λ h. rw free)
]

entered_iff :
    (node : WorkflowNode) (s : Store)
    → ((enter node s).0 ≡ ok true)
      ↔ ((any (own_row node) s.nodes ≡ false) ⊎ (node.current_node.node_type ≡ end_event))
unfolding enter
entered_iff node s = (λ h. ground arith, λ h. ground arith)

-- A message's node is entered exactly when two things hold: if the node joins, every edge into it
-- has been taken in this run, the edge of the message included; and the node has no row in this
-- run of the process yet, or is an end event.
pub is_continue_iff :
    (node : WorkflowNode) (s : Store)
    → ((is_continue node s).0 ≡ ok true) ↔ (
        IsJoined node (record_edge node s).edges
        × ((any (own_row node) s.nodes ≡ false) ⊎ (node.current_node.node_type ≡ end_event)))
unfolding is_continue
is_continue_iff node s = elim (Bool-cases (is_ready node (record_edge node s).edges)) [
  | inl ready ↦
      rw (ready, is_continue)
        (
          λ h. (
            (is_ready_iff node (record_edge node s).edges).0 ready,
            (entered_iff node (record_edge node s)).0 h,
          ),
          λ h. (entered_iff node (record_edge node s)).1 h.1,
        )
  | inr waits ↦
      rw (waits, is_continue)
        (λ h. cc, λ h. cc ((is_ready_iff node (record_edge node s).edges).1 h.0))
]
