-- ===== src/Workflow/Flow/Again.antt =====
-- A message for a node that has been entered already
-- (crates/service/src/logic/workflow/workflow.rs, `process_node`).
use jiascheduler.Base.{
  ◌≡◌, ◌≢◌, refl, String, Bool, true, false, Option, Result, ok, HashMap, any, Bool-cases, inl, inr,
  arith,
}
use jiascheduler.Workflow.Enums.{end_event, is_type}
use jiascheduler.Workflow.Tables.{Json}
use jiascheduler.Workflow.Graph.{WorkflowNode}
use jiascheduler.Workflow.Store.{Store, Fault, own_row}
use jiascheduler.Workflow.Dispatch.{Platform}
use jiascheduler.Workflow.Flow.{record_edge, is_ready, enter, is_continue, deeper, process_node}

-- Only the rows of nodes and of edges may differ.
abbrev pub StartsNothing : Store → Result Fault (Unit {0}) × Store → Type 0
StartsNothing s out =
    (out.0 ≡ ok tt)
    × (out.1.queue ≡ s.queue)
    × (out.1.tasks ≡ s.tasks)
    × (out.1.processes ≡ s.processes)

-- A message for a node that has a row in this run of the process, and that is no end event, starts
-- nothing: `process_node` succeeds, sends no message, and leaves the tasks and the processes as
-- they were.
pub process_node-StartsNothing :
    (evaluate : String → HashMap Json → Result String (Option Bool)) (platform : Platform)
    (node : WorkflowNode) (s : Store)
    → any (own_row node) s.nodes ≡ true
    → node.current_node.node_type ≢ end_event
    → StartsNothing s (process_node evaluate platform node s)
unfolding process_node is_continue enter record_edge
process_node-StartsNothing evaluate platform node s known other =
    let no_end : is_type node.current_node.node_type end_event ≡ false = ground arith in
    elim (Bool-cases (
      is_ready (deeper evaluate platform node)
        (record_edge (deeper evaluate platform node) s).edges)) [
          | inl ready ↦
              rw (process_node, is_continue, ready, enter, known, no_end) (refl, refl, refl, refl)
          | inr waits ↦ rw (process_node, is_continue, waits) (refl, refl, refl, refl)
        ]
