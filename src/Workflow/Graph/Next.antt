-- ===== src/Workflow/Graph/Next.antt =====
-- Where a message goes next (crates/service/src/logic/workflow/types.rs, `get_next_nodes`).
use jiascheduler.Base.{
  ◌≡◌, String, ◌==◌, eq_of_==, Option, none, some, List, [], ◌∷◌, map, ok, >>=-eq-ok, ok_or, Member,
  here, there, find-some, filter_iff, All, arith, ap, subst,
}
use jiascheduler.Workflow.Graph.{
  WorkflowNode, NodeConfig, EdgeConfig, get_next_edges, get_next_node_by_edge, points,
  get_next_nodes,
}

-- The edge leaves the current node, and the node is one of the workflow's that it leads to.
pub record IsPoint (self : WorkflowNode) (point : EdgeConfig × NodeConfig) : Type 0 where
  pub edge_known : Member point.0 self.origin_edges
  pub leaves : point.0.source_node_id ≡ self.current_node.id
  pub node_known : Member point.1 self.origin_nodes
  pub arrives : point.1.id ≡ point.0.target_node_id

ok_or-some : (o : Option NodeConfig) (e : String) (n : NodeConfig) → ok_or o e ≡ ok n → o ≡ some n
ok_or-some none e n h = cc
ok_or-some (some m) e n h = ground arith

points-ok :
    (self : WorkflowNode) (edges : List EdgeConfig) (out : List (EdgeConfig × NodeConfig))
    → points self edges ≡ ok out
    → ((e : EdgeConfig)
        → Member e edges
        → Member e self.origin_edges × (e.source_node_id ≡ self.current_node.id))
    → (map (λ point. point.0) out ≡ edges) × All (IsPoint self) out
unfolding points
points-ok self [] out h known = ground arith
points-ok self (edge ∷ edges) out h known =
    let (node, found, h') =
      >>=-eq-ok (ok_or (get_next_node_by_edge self edge) "cannot found next edge") _ h in
    let (rest, pointed, e) = >>=-eq-ok (points self edges) _ h' in
    let (edges_of, all_points) = points-ok self edges rest pointed (λ a m. known a (there m)) in
    let (node_known, arrives) =
      find-some (λ v. v.id == edge.target_node_id) self.origin_nodes node
        (ok_or-some (get_next_node_by_edge self edge) "cannot found next edge" node found) in
    let point : IsPoint self (edge, node) = record {
      edge_known = (known edge here).0;
      leaves = (known edge here).1;
      node_known = node_known;
      arrives = eq_of_== node.id edge.target_node_id arrives;
    } in
    let whole : (edge, node) ∷ rest ≡ out = cc e in
    subst (λ o. (map (λ point. point.0) o ≡ edge ∷ edges) × All (IsPoint self) o) whole
      (ap (◌∷◌ edge) edges_of, (point, all_points))

-- When `get_next_nodes` answers, it gives one point for each edge that leaves the current node, in
-- the order of the edges, and each is an edge of the workflow with the node of it that the edge
-- leads to.
pub get_next_nodes-points :
    (self : WorkflowNode) (out : List (EdgeConfig × NodeConfig))
    → get_next_nodes self ≡ ok out
    → (map (λ point. point.0) out ≡ get_next_edges self) × All (IsPoint self) out
unfolding get_next_nodes
get_next_nodes-points self out h = points-ok self (get_next_edges self) out h λ e m.
    let (known, leaves) =
      (filter_iff (λ v. v.source_node_id == self.current_node.id) self.origin_edges e).0 m in
    (known, eq_of_== e.source_node_id self.current_node.id leaves)
