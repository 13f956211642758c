-- ===== src/Workflow/Removal/Orphans.antt =====
-- What the deletion of processes leaves (crates/service/src/logic/workflow/workflow.rs,
-- `delete_process`).
use jiascheduler.Base.{
  ℕ, ◌≡◌, ◌≢◌, ◌↔◌, refl, String, ◌==◌, eq_iff, Bool, true, false, not, Option, none, some, List,
  any_iff, filter, filter_iff, Member, count_if, ok, Result,
}
use jiascheduler.Workflow.Store.{Store, Fault, Process}
use jiascheduler.Workflow.Removal.{
  Workflow, Filter, selects, has_process, delete_process, delete_hard,
}

-- There is a row of this process.
abbrev pub HasProcess : List Process → String → Type 0
HasProcess processes process_id = (p : Process) × Member p processes × (p.process_id ≡ process_id)

has_process_iff :
    (processes : List Process) (process_id : String)
    → (has_process processes process_id ≡ true) ↔ HasProcess processes process_id
has_process_iff processes process_id =
    let (to, from) = any_iff (λ (p : Process). p.process_id == process_id) processes in
    (
      λ h. let (p, m, e) = to h in (p, m, (eq_iff p.process_id process_id).0 e),
      λ h. from (h.0, h.1, (eq_iff h.0.process_id process_id).1 h.2),
    )

-- Of the rows of a table, those of the processes that are left stay, and no others.
abbrev pub Follows {ℓ} : {A : Type ℓ} → (A → String) → List Process → List A → List A → Type ℓ
Follows {A = A} process_of processes before after =
    (a : A) → Member a after ↔ (Member a before × HasProcess processes (process_of a))

filter-Follows {ℓ} :
    {A : Type ℓ} (process_of : A → String) (processes : List Process) (rows : List A)
    → Follows process_of processes rows (filter (λ a. has_process processes (process_of a)) rows)
filter-Follows process_of processes rows a =
    let (to, from) = filter_iff (λ a. has_process processes (process_of a)) rows a in
    let (has, of) = has_process_iff processes (process_of a) in
    (λ m. let (row, e) = to m in (row, has e), λ h. from (h.0, of h.1))

-- The processes that were not selected are left, and of the nodes, edges and tasks just their rows;
-- the answer is the number of those that were selected.
abbrev pub IsCleared : List Workflow → Filter → Store → Result Fault ℕ × Store → Type 0
IsCleared workflows f s (r, t) =
    (r ≡ ok (count_if (selects workflows f) s.processes))
    × ((p : Process)
        → Member p t.processes ↔ (Member p s.processes × (selects workflows f p ≡ false)))
    × Follows (λ n. n.process_id) t.processes s.nodes t.nodes
    × Follows (λ e. e.process_id) t.processes s.edges t.edges
    × Follows (λ k. k.process_id) t.processes s.tasks t.tasks

not-true : (b : Bool) → not b ≡ true → b ≡ false
not-true true h = cc
not-true false h = refl

kept_iff :
    (workflows : List Workflow) (f : Filter) (processes : List Process) (p : Process)
    → Member p (filter (λ p. not (selects workflows f p)) processes)
      ↔ (Member p processes × (selects workflows f p ≡ false))
kept_iff workflows f processes p =
    let (to, from) = filter_iff (λ p. not (selects workflows f p)) processes p in
    (λ m. let (row, e) = to m in (row, not-true _ e), λ h. from (h.0, rw h.1 refl))

cleared :
    (workflows : List Workflow) (f : Filter) (s : Store)
    → IsCleared workflows f s (delete_hard workflows f s)
unfolding delete_hard
cleared workflows f s =
    let left = filter (λ p. not (selects workflows f p)) s.processes in
    (
      refl,
      kept_iff workflows f s.processes,
      filter-Follows (λ n. n.process_id) left s.nodes,
      filter-Follows (λ e. e.process_id) left s.edges,
      filter-Follows (λ k. k.process_id) left s.tasks,
    )

-- A deletion that is not soft leaves the processes that the filter does not select, and of the
-- nodes, edges and tasks the rows of the processes that are left and no others, so that none is of
-- a process without a row. It answers the number of selected processes.
pub delete_process-IsCleared :
    (workflows : List Workflow) (username : String) (f : Filter) (is_soft : Option Bool) (s : Store)
    → is_soft ≢ some true
    → IsCleared workflows f s (delete_process workflows username f is_soft s)
unfolding delete_process delete_hard
delete_process-IsCleared workflows username f none s h = cleared workflows f s
delete_process-IsCleared workflows username f (some false) s h = cleared workflows f s
delete_process-IsCleared workflows username f (some true) s h = absurd (h refl)
