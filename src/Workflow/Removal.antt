-- ===== src/Workflow/Removal.antt =====
-- crates/service/src/logic/workflow/workflow.rs: `delete_process`. A subquery reads the tables as
-- they are when its statement runs; the time of a removal is left out.
pub mod Orphans
use jiascheduler.Base.{
  ℕ, nat_eq, String, ◌==◌, Bool, true, false, not, ◌&&◌, Option, none, some, List, [], ◌∷◌, Result,
  ok, any, filter, update_where, count_if,
}
use jiascheduler.Workflow.Store.{Store, Fault, Process, ProcessNode, ProcessEdge, M}
use jiascheduler.Workflow.Tables.{NodeTask}

-- workflow: its number and team.
pub record Workflow : Type 0 where
  pub id : ℕ
  pub team_id : ℕ

-- Which processes to delete: every column that is given must agree.
pub record Filter : Type 0 where
  pub username : Option String
  pub workflow_id : Option ℕ
  pub process_id : Option String
  pub team_id : Option ℕ

-- `apply_if`: a condition that is not given holds.
abbrev apply_if {ℓ} : {A : Type ℓ} → Option A → (A → Bool) → Bool
apply_if none condition = true
apply_if (some v) condition = condition v

abbrev pub is_of_team : List Workflow → ℕ → ℕ → Bool
is_of_team workflows team_id workflow_id =
    any (λ (w : Workflow). nat_eq w.team_id team_id && nat_eq w.id workflow_id) workflows

abbrev pub selects : List Workflow → Filter → Process → Bool
selects workflows f process =
    apply_if f.username (λ v. process.created_user == v)
    && (apply_if f.workflow_id (λ v. nat_eq process.workflow_id v)
        && (apply_if f.process_id (λ v. process.process_id == v)
            && apply_if f.team_id (λ v. is_of_team workflows v process.workflow_id)))

abbrev mark : String → Process → Process
mark username process = record process { is_deleted = true; deleted_by = username }

-- There is a process with this identifier.
abbrev pub has_process : List Process → String → Bool
has_process processes process_id = any (λ (p : Process). p.process_id == process_id) processes

unfoldable pub delete_soft : List Workflow → String → Filter → M ℕ
delete_soft workflows username f s = (
  ok (count_if (selects workflows f) s.processes),
  record s { processes = update_where (selects workflows f) (mark username) s.processes },
)

unfoldable pub delete_hard : List Workflow → Filter → M ℕ
delete_hard workflows f s =
    let processes = filter (λ p. not (selects workflows f p)) s.processes in
    (
      ok (count_if (selects workflows f) s.processes),
      record s {
        processes = processes;
        nodes = filter (λ (n : ProcessNode). has_process processes n.process_id) s.nodes;
        edges = filter (λ (e : ProcessEdge). has_process processes e.process_id) s.edges;
        tasks = filter (λ (t : NodeTask). has_process processes t.process_id) s.tasks;
      },
    )

unfoldable pub delete_process : List Workflow → String → Filter → Option Bool → M ℕ
delete_process workflows username f (some true) s = delete_soft workflows username f s
delete_process workflows username f _ s = delete_hard workflows f s
