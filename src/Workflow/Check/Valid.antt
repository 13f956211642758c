-- ===== src/Workflow/Check/Valid.antt =====
-- What `check_nodes` of crates/service/src/logic/workflow/workflow.rs accepts.
use jiascheduler.Base.{
  String, ◌≡◌, ◌≢◌, ◌↔◌, ◌⊎◌, refl, ◌==◌, eq_iff, Bool, true, false, ◌||◌, Option, none, some, List,
  [], ◌∷◌, ok, >>=-eq-ok, any, All, Member, arith, any_iff,
}
use jiascheduler.Workflow.Enums.{NodeType, TaskType, is_type, start_event, end_event}
use jiascheduler.Workflow.Graph.{NodeConfig, EdgeConfig, Task, StandardJob, CustomJob}
use jiascheduler.Workflow.Check.{
  check_node, check_from, check_nodes, touches, is_connected, standard_missing, custom_missing,
}

-- A standard job of a standard node names its job, and a custom job of a custom node its executor
-- and its code. A node whose task is not of its type is asked for neither.
abbrev pub IsFilled : TaskType → Task → Type 0
IsFilled task_type task =
    ((job : StandardJob) → task_type ≡ TaskType.standard → task ≡ Task.standard job → job.eid ≢ "")
    × ((job : CustomJob)
        → task_type ≡ TaskType.custom
        → task ≡ Task.custom job
        → (job.executor_id ≢ 0) × (job.code ≢ ""))

-- Some edge begins or ends at the node.
abbrev pub IsTouched : Option (List EdgeConfig) → String → Type 0
IsTouched none node_id = ⊥
IsTouched (some edges) node_id =
    (e : EdgeConfig) × Member e edges
    × ((e.source_node_id ≡ node_id) ⊎ (e.target_node_id ≡ node_id))

pub record IsGoodNode (edges : Option (List EdgeConfig)) (node : NodeConfig) : Type 0 where
  pub filled : IsFilled node.task_type node.task
  pub named : node.name ≢ ""
  pub identified : node.id ≢ ""
  pub touched : IsTouched edges node.id

abbrev pub HasType : NodeType → List NodeConfig → Type 0
HasType t nodes = (node : NodeConfig) × Member node nodes × (node.node_type ≡ t)

missing-IsFilled :
    (t : TaskType) (task : Task)
    → standard_missing t task ≡ false
    → custom_missing t task ≡ false
    → IsFilled t task
missing-IsFilled t task s c = (
  λ job e f.
      let named : standard_missing TaskType.standard (Task.standard job) ≡ false = cc (s, e, f) in
      ground (arith, eq_iff job.eid ""),
  λ job e f.
      let filled : custom_missing TaskType.custom (Task.custom job) ≡ false = cc (c, e, f) in
      ground (arith, eq_iff job.code ""),
)

IsFilled-missing :
    (t : TaskType) (task : Task)
    → IsFilled t task
    → (standard_missing t task ≡ false) × (custom_missing t task ≡ false)
IsFilled-missing TaskType.standard (Task.standard job) (named, _) =
    let filled : job.eid ≢ "" = named job refl refl in ground (arith, eq_iff job.eid "")
IsFilled-missing TaskType.custom (Task.custom job) (_, has_code) =
    let filled : (job.executor_id ≢ 0) × (job.code ≢ "") = has_code job refl refl in
    ground (arith, eq_iff job.code "")
IsFilled-missing _ _ _ = (refl, refl)

touches_iff :
    (id : String) (e : EdgeConfig)
    → (touches id e ≡ true) ↔ ((e.source_node_id ≡ id) ⊎ (e.target_node_id ≡ id))
touches_iff id e = (
  λ h. ground (arith, eq_iff e.source_node_id id, eq_iff e.target_node_id id),
  λ h. ground (arith, eq_iff e.source_node_id id, eq_iff e.target_node_id id),
)

connected_iff :
    (edges : Option (List EdgeConfig)) (id : String)
    → (is_connected edges id ≡ true) ↔ IsTouched edges id
connected_iff none id = (λ h. cc, λ h. absurd h)
connected_iff (some edges) id = (
  λ h. let (e, m, t) = (any_iff (touches id) edges).0 h in (e, m, (touches_iff id e).0 t),
  λ h. (any_iff (touches id) edges).1 (h.0, h.1, (touches_iff id h.0).1 h.2),
)

-- The guards of one round, read off.
guards_iff :
    (edges : Option (List EdgeConfig)) (node : NodeConfig)
    → (check_node edges node ≡ ok tt) ↔ (
        (standard_missing node.task_type node.task ≡ false)
        × (custom_missing node.task_type node.task ≡ false)
        × ((node.name == "") ≡ false)
        × ((node.id == "") ≡ false)
        × (is_connected edges node.id ≡ true))
unfolding check_node
guards_iff edges node = (λ h. ground arith, λ h. ground arith)

IsGoodNode-iff :
    (edges : Option (List EdgeConfig)) (node : NodeConfig)
    → (check_node edges node ≡ ok tt) ↔ IsGoodNode edges node
IsGoodNode-iff edges node = (
  λ h.
      let (s, c, n, i, t) = (guards_iff edges node).0 h in
      record {
        filled = missing-IsFilled node.task_type node.task s c;
        named = ground (arith, eq_iff node.name "");
        identified = ground (arith, eq_iff node.id "");
        touched = (connected_iff edges node.id).0 t;
      },
  λ g.
      let (s, c) = IsFilled-missing node.task_type node.task g.filled in
      let t = (connected_iff edges node.id).1 g.touched in
      (guards_iff edges node).1
        (s, c, ground (arith, eq_iff node.name ""), ground (arith, eq_iff node.id ""), t),
)

abbrev has_kind : NodeType → List NodeConfig → Bool
has_kind t = any (λ node. is_type node.node_type t)

check_from-ok :
    (s e : Bool) (edges : Option (List EdgeConfig)) (nodes : List NodeConfig)
    → check_from s e edges nodes ≡ ok tt
    → All (IsGoodNode edges) nodes
      × ((s || has_kind start_event nodes) ≡ true)
      × ((e || has_kind end_event nodes) ≡ true)
unfolding check_from
check_from-ok s e edges [] h = (tt, ground arith, ground arith)
check_from-ok s e edges (node ∷ nodes) h =
    let (_, checked, rest) = >>=-eq-ok (check_node edges node) _ h in
    let (good, start, end) =
      check_from-ok (s || is_type node.node_type start_event)
        (e || is_type node.node_type end_event) edges nodes rest in
    (((IsGoodNode-iff edges node).0 checked, good), ground (arith, start), ground (arith, end))

ok-check_from :
    (s e : Bool) (edges : Option (List EdgeConfig)) (nodes : List NodeConfig)
    → All (IsGoodNode edges) nodes
    → (s || has_kind start_event nodes) ≡ true
    → (e || has_kind end_event nodes) ≡ true
    → check_from s e edges nodes ≡ ok tt
unfolding check_from
ok-check_from s e edges [] good start end = ground arith
ok-check_from s e edges (node ∷ nodes) good start end =
    rw ((IsGoodNode-iff edges node).1 good.0)
      (ok-check_from _ _ edges nodes good.1 (ground (arith, start)) (ground (arith, end)))

is_type_iff : (t u : NodeType) → (is_type t u ≡ true) ↔ (t ≡ u)
is_type_iff t u = (λ h. ground arith, λ h. ground arith)

has_kind_iff :
    (t : NodeType) (nodes : List NodeConfig) → (has_kind t nodes ≡ true) ↔ HasType t nodes
has_kind_iff t nodes = (
  λ h.
      let (n, m, k) = (any_iff (λ node. is_type node.node_type t) nodes).0 h in
      (n, m, (is_type_iff n.node_type t).0 k),
  λ h.
      (any_iff (λ node. is_type node.node_type t) nodes).1
        (h.0, h.1, (is_type_iff h.0.node_type t).1 h.2),
)

-- `check_nodes` gives a list of nodes back, with the edges as they were, exactly when every node
-- has a name, an identifier and an edge, a standard job of a standard node names its job, a custom
-- job of a custom node its executor and its code, and there are a start and an end node. A node
-- whose task is none, or not of its type, is not refused for it.
pub check_nodes_iff_valid :
    (nodes : List NodeConfig) (edges : Option (List EdgeConfig))
    → (check_nodes (some nodes) edges ≡ ok (some nodes, edges))
      ↔ (All (IsGoodNode edges) nodes × HasType start_event nodes × HasType end_event nodes)
unfolding check_nodes
check_nodes_iff_valid nodes edges = (
  λ h.
      let (_, checked, _) = >>=-eq-ok (check_from false false edges nodes) _ h in
      let (good, start, end) = check_from-ok false false edges nodes checked in
      (good, (has_kind_iff start_event nodes).0 start, (has_kind_iff end_event nodes).0 end),
  λ v. rw (
      ok-check_from false false edges nodes v.0 ((has_kind_iff start_event nodes).1 v.1)
        ((has_kind_iff end_event nodes).1 v.2)),
)
