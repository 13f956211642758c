-- ===== src/Workflow/Flow.antt =====
-- crates/service/src/logic/workflow/workflow.rs: how a message of the stream is handled,
-- `process_node`, and the handlers of the node types.
pub mod Entry
pub mod Dispatching
pub mod Once
pub mod Again
pub mod Messages
use jiascheduler.Base.{
  ℕ, ◌+◌, ◌%◌, ◌^◌, String, ◌==◌, Bool, true, false, ◌&&◌, if◌then◌else◌, Option, none, some, List,
  [], ◌∷◌, ◌++◌, Result, ok, err, HashMap, any, all, filter, update_where,
}
use jiascheduler.Base.State.{and_then, ◌>>=◌, ◌>>◌, pure, fail, lift}
use jiascheduler.Workflow.Enums.{
  NodeType, start_event, service_task, end_event, exclusive_gateway, is_type, NodeStatus,
  ProcessStatus, node_status_to_string, process_status_to_string,
}
use jiascheduler.Workflow.Tables.{Json}
use jiascheduler.Workflow.Condition.{Condition, UserVariables, eval}
use jiascheduler.Workflow.Graph.{
  WorkflowNode, WorkflowProcessArgs, EdgeConfig, NodeConfig, get_next_nodes, get_next_edges,
  get_prev_edges, get_next_node_by_edge,
}
use jiascheduler.Workflow.Store.{
  Store, ProcessNode, ProcessEdge, Process, Fault, failed, panicked, M, or_failed, own_row,
  own_process, tasks_of, flow_next,
}
use jiascheduler.Workflow.Dispatch.{Platform, handle_service_task}

abbrev ended_status : String
ended_status = node_status_to_string NodeStatus.end

abbrev running_status : String
running_status = node_status_to_string NodeStatus.running

-- `is_continue`, its first part: the edge that the message came along.
abbrev reached_row : WorkflowNode → EdgeConfig → ProcessEdge
reached_row node edge = record {
  process_id = node.process_id;
  run_id = node.run_id;
  edge_id = edge.id;
  props = some edge;
  source_node_id = edge.source_node_id;
  target_node_id = edge.target_node_id;
  created_user = node.created_user;
}

abbrev pub reached_rows : WorkflowNode → Option EdgeConfig → List ProcessEdge
reached_rows node none = []
reached_rows node (some edge) = reached_row node edge ∷ []

unfoldable pub record_edge : WorkflowNode → Store → Store
record_edge node s = record s { edges = s.edges ++ reached_rows node node.reached_edge }

-- The edges into the current node that have been recorded in this run.
abbrev pub ready_edges : WorkflowNode → List ProcessEdge → List ProcessEdge
ready_edges node = filter λ row.
    (row.process_id == node.process_id)
    && ((row.target_node_id == node.current_node.id) && (row.run_id == node.run_id))

-- A joining node waits for all of its edges.
unfoldable pub is_ready : WorkflowNode → List ProcessEdge → Bool
is_ready node rows =
    if node.current_node.is_join_all
    then all (λ v1. any (λ v2. v2.edge_id == v1.id) (ready_edges node rows)) (get_prev_edges node)
    else true

unfoldable pub touch_row : WorkflowNode → List ProcessNode → List ProcessNode
touch_row node = update_where (own_row node) (λ row. record row { depth = node.flow_depth })

abbrev pub new_row : WorkflowNode → ProcessNode
new_row node = record {
  process_id = node.process_id;
  run_id = node.run_id;
  node_id = node.current_node.id;
  node_status = running_status;
  depth = node.flow_depth;
  node_args = none;
  created_user = node.created_user;
}

unfoldable pub enter_process : WorkflowNode → List Process → List Process
enter_process node = update_where (own_process node.process_id) (λ row. record row {
  current_node_id = node.current_node.id;
  current_node_status = running_status;
  current_run_id = node.run_id;
})

-- The second part of `is_continue`, once the node is ready: a node that has a row is not entered
-- again, except for an end event.
unfoldable pub enter : WorkflowNode → M Bool
unfolding touch_row enter_process
enter node s =
    if any (own_row node) s.nodes
    then (
      ok (is_type node.current_node.node_type end_event),
      record s { nodes = touch_row node s.nodes },
    )
    else (
      ok true,
      record s { processes = enter_process node s.processes; nodes = s.nodes ++ new_row node ∷ [] },
    )

unfoldable pub is_continue : WorkflowNode → M Bool
unfolding record_edge is_ready enter
is_continue node s =
    let s' = record_edge node s in
    let entered = enter node s' in if is_ready node s'.edges then entered else (ok false, s')

unfoldable pub end_row : WorkflowNode → List ProcessNode → List ProcessNode
end_row node = update_where (own_row node) (λ row. record row { node_status = ended_status })

-- The message for the next node along an edge.
abbrev pub along : WorkflowNode → EdgeConfig → NodeConfig → WorkflowNode
along node edge next = record node { reached_edge = some edge; current_node = next }

unfoldable pub flow_points : WorkflowNode → List (EdgeConfig × NodeConfig) → M (Unit {0})
unfolding flow_next
flow_points node [] = pure tt
flow_points node ((edge, next) ∷ points) =
    flow_next (along node edge next) >>= λ _. flow_points node points

abbrev pub end_node : WorkflowNode → M (Unit {0})
end_node node s = (ok tt, record s { nodes = end_row node s.nodes })

unfoldable pub handle_start_event : WorkflowNode → M (Unit {0})
unfolding flow_points end_row
handle_start_event node = do
  next_point ← lift (or_failed (get_next_nodes node))
  end_node node
  flow_points node next_point

abbrev variables_of : Option WorkflowProcessArgs → Option (List UserVariables)
variables_of none = none
variables_of (some args) = args.user_variables

unfoldable pub end_row_any_run : WorkflowNode → List ProcessNode → List ProcessNode
end_row_any_run node =
    update_where
      (λ row. (row.process_id == node.process_id) && (row.node_id == node.current_node.id))
      (λ row. record row { node_status = ended_status })

unfoldable pub handle_end_event : WorkflowNode → M (Unit {0})
unfolding end_row_any_run
handle_end_event node s = (
  ok tt,
  record s {
    nodes = end_row_any_run node s.nodes;
    processes =
        update_where (own_process node.process_id)
          (λ row. record row {
            process_status = process_status_to_string ProcessStatus.end;
            current_node_status = ended_status;
          })
          s.processes;
  },
)

-- `evaluate` is the engine of conditions, a parameter.
module _ (evaluate : String → HashMap Json → Result String (Option Bool)) where
  abbrev pub passes : WorkflowNode → Store → Option Condition → Result String Bool
  passes node s none = ok true
  passes node s (some c) =
      eval evaluate (λ id. tasks_of node.process_id id s.tasks) (variables_of node.process_args) c

  -- One round of the loop of `handle_exclusive_gateway`.
  unfoldable pub try_edge : WorkflowNode → EdgeConfig → M (Unit {0})
  unfolding flow_next
  try_edge node edge s = and_then (lift (or_failed (passes node s edge.condition)) s) λ pass.
      if pass
      then (elim (get_next_node_by_edge node edge) [
        | none ↦ fail (failed "failed get next node")
        | some next ↦ flow_next (along node edge next)
      ])
      else pure tt

  unfoldable pub try_edges : WorkflowNode → List EdgeConfig → M (Unit {0})
  unfolding try_edge
  try_edges node [] = pure tt
  try_edges node (edge ∷ edges) = try_edge node edge >>= λ _. try_edges node edges

  unfoldable pub end_gateway : WorkflowNode → M (Unit {0})
  unfolding end_row
  end_gateway node s = (
    ok tt,
    record s {
      nodes = end_row node s.nodes;
      processes =
          update_where (own_process node.process_id)
            (λ row. record row { current_node_status = ended_status }) s.processes;
    },
  )

  unfoldable pub handle_exclusive_gateway : WorkflowNode → M (Unit {0})
  unfolding try_edges end_gateway
  handle_exclusive_gateway node = end_gateway node >> try_edges node (get_next_edges node)

  module _ (platform : Platform) where
    abbrev pub handle : WorkflowNode → NodeType → M (Unit {0})
    handle node start_event = handle_start_event node
    handle node service_task = handle_service_task platform node
    handle node end_event = handle_end_event node
    handle node exclusive_gateway = handle_exclusive_gateway node

    -- An error of a handler is logged; a panic is not caught.
    abbrev pub logged : Result Fault (Unit {0}) × Store → Result Fault (Unit {0}) × Store
    logged (ok _, s) = (ok tt, s)
    logged (err (failed e), s) = (ok tt, s)
    logged (err panicked, s) = (err panicked, s)

    abbrev pub go_on : WorkflowNode → Bool → M (Unit {0})
    go_on node false s = (ok tt, s)
    go_on node true s = logged (handle node node.current_node.node_type s)

    -- `flow_depth` is a `u32`.
    abbrev pub deeper : WorkflowNode → WorkflowNode
    deeper node = record node { flow_depth = (node.flow_depth + 1) % 2 ^ 32 }

    unfoldable pub process_node : WorkflowNode → M (Unit {0})
    unfolding is_continue
    process_node node = is_continue (deeper node) >>= go_on (deeper node)
