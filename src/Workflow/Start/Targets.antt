-- ===== src/Workflow/Start/Targets.antt =====
-- When a process starts (crates/service/src/logic/workflow/workflow.rs, `start_process`).
use jiascheduler.Base.{
  ℕ, ◌≡◌, ◌≢◌, ◌⊎◌, ◌↔◌, subst, inl, inr, refl, String, true, false, Option, none, some, List, [],
  ◌∷◌, ◌++◌, Result, ok, err, find, any_iff, eq_refl, Bool-cases, Option-cases, All, Member, here,
  there, find-some, arith,
}
use jiascheduler.Workflow.Enums.{NodeType, start_event, is_type}
use jiascheduler.Workflow.Graph.{
  WorkflowProcessArgs, WorkflowNodeArgs, NodeConfig, EdgeConfig, Task,
}
use jiascheduler.Workflow.Store.{Store, Fault, failed, flow_next}
use jiascheduler.Workflow.Dispatch.{non_empty, target_of}
use jiascheduler.Workflow.Start.{
  names_target, any_names, no_input_target, has_no_target, check_targets, StartParams,
  first_message, first_row, start_process,
}

-- At least one instance is named.
abbrev pub IsTarget : Option (List String) → Type 0
IsTarget target = (i : String) × (rest : List String) × (target ≡ some (i ∷ rest))

-- The arguments of the process have a target, for a node of whatever identifier or by default.
abbrev pub IsGiven : Option WorkflowProcessArgs → Type 0
IsGiven none = ⊥
IsGiven (some args) =
    ((entries : List WorkflowNodeArgs) × (args.nodes ≡ some entries)
      × ((entry : WorkflowNodeArgs) × Member entry entries × IsTarget entry.target))
    ⊎ IsTarget args.default_target

-- A node with a task says where it runs, or the arguments of the process have a target.
abbrev pub HasTarget : Option WorkflowProcessArgs → NodeConfig → Type 0
HasTarget process_args v =
    (v.task ≡ Task.none_) ⊎ IsTarget (target_of v.task) ⊎ IsGiven process_args

-- A node with a task that nothing gives a target.
abbrev pub Untargeted : Option WorkflowProcessArgs → List NodeConfig → Type 0
Untargeted process_args nodes =
    (v : NodeConfig) × Member v nodes
    × (v.task ≢ Task.none_)
    × (¬ IsTarget (target_of v.task))
    × (¬ IsGiven process_args)

non_empty_iff : (target : Option (List String)) → (non_empty target ≡ true) ↔ IsTarget target
non_empty_iff none = (λ h. cc h, λ h. cc h.2)
non_empty_iff (some []) = (λ h. ground arith, λ h. cc h.2)
non_empty_iff (some (i ∷ rest)) = (λ h. (i, rest, refl), λ h. ground arith)

names_target_iff : (v : WorkflowNodeArgs) → (names_target v ≡ true) ↔ IsTarget v.target
names_target_iff v =
    let (to, from) = non_empty_iff v.target in
    (
      λ h. to (ground (arith, eq_refl v.node_id)),
      λ h. let named = from h in ground (arith, eq_refl v.node_id, named),
    )

abbrev NamesAny : Option (List WorkflowNodeArgs) → Type 0
NamesAny nodes =
    (entries : List WorkflowNodeArgs) × (nodes ≡ some entries)
    × ((entry : WorkflowNodeArgs) × Member entry entries × IsTarget entry.target)

any_names_iff : (nodes : Option (List WorkflowNodeArgs)) → (any_names nodes ≡ true) ↔ NamesAny nodes
any_names_iff none = (λ h. cc h, λ h. cc h.1)
any_names_iff (some entries) =
    let (to, from) = any_iff names_target entries in
    (
      λ h.
          let (entry, m, named) = to h in
          (entries, refl, (entry, m, (names_target_iff entry).0 named)),
      λ h.
          let (others, e, (entry, m, target)) = h in
          let same : others ≡ entries = cc e in
          from (entry, subst (λ xs. Member entry xs) same m, (names_target_iff entry).1 target),
    )

-- The two tests of the arguments, read off.
IsGiven-iff :
    (process_args : Option WorkflowProcessArgs)
    → (no_input_target process_args ≡ false) ↔ IsGiven process_args
unfolding no_input_target
IsGiven-iff none = (λ h. cc h, λ h. absurd h)
IsGiven-iff (some args) =
    let (names, of_names) = any_names_iff args.nodes in
    let (default_, of_default) = non_empty_iff args.default_target in
    (
      λ h. elim (Bool-cases (any_names args.nodes)) [
        | inl named ↦ inl (names named)
        | inr nameless ↦ inr (default_ (ground (arith, h, nameless)))
      ],
      λ h. elim h [
        | inl given ↦ let named = of_names given in ground (arith, named)
        | inr given ↦ let default_given = of_default given in ground (arith, default_given)
      ],
    )

is_none : (task : Task) → (task ≡ Task.none_) ⊎ (task ≢ Task.none_)
is_none Task.none_ = inl refl
is_none (Task.standard job) = inr (λ e. cc e)
is_none (Task.custom job) = inr (λ e. cc e)

-- The test of one node, read off.
tested_iff :
    (process_args : Option WorkflowProcessArgs) (task : Task)
    → (has_no_target process_args task ≡ true) ↔ (
        (task ≢ Task.none_)
        × (non_empty (target_of task) ≡ false)
        × (no_input_target process_args ≡ true))
unfolding has_no_target
tested_iff process_args Task.none_ = (λ h. cc h, λ h. absurd (h.0 refl))
tested_iff process_args (Task.standard job) =
    (λ h. (λ e. cc e, ground arith, ground arith), λ h. ground (arith, h.1, h.2))
tested_iff process_args (Task.custom job) =
    (λ h. (λ e. cc e, ground arith, ground arith), λ h. ground (arith, h.1, h.2))

has_target :
    (process_args : Option WorkflowProcessArgs) (v : NodeConfig)
    → has_no_target process_args v.task ≡ false
    → HasTarget process_args v
has_target process_args v h = elim (Bool-cases (non_empty (target_of v.task))) [
  | inl own ↦ inr (inl ((non_empty_iff (target_of v.task)).0 own))
  | inr none_own ↦ elim (Bool-cases (no_input_target process_args)) [
    | inr given ↦ inr (inr ((IsGiven-iff process_args).0 given))
    | inl none_given ↦ elim (is_none v.task) [
      | inl no_task ↦ inl no_task
      | inr tasked ↦
          let bad = (tested_iff process_args v.task).1 (tasked, none_own, none_given) in cc (h, bad)
    ]
  ]
]

untargeted_node :
    (process_args : Option WorkflowProcessArgs) (v : NodeConfig)
    → has_no_target process_args v.task ≡ true
    → (v.task ≢ Task.none_) × (¬ IsTarget (target_of v.task)) × (¬ IsGiven process_args)
untargeted_node process_args v h =
    let (tasked, own, given) = (tested_iff process_args v.task).0 h in
    (
      tasked,
      λ t. let named = (non_empty_iff (target_of v.task)).1 t in cc (own, named),
      λ g. let input = (IsGiven-iff process_args).1 g in cc (given, input),
    )

check_targets-cases :
    (process_args : Option WorkflowProcessArgs) (nodes : List NodeConfig)
    → ((check_targets process_args nodes ≡ ok tt) × All (HasTarget process_args) nodes)
      ⊎ ((check_targets process_args nodes ≡ err "No server node is set for executing tasks")
          × Untargeted process_args nodes)
unfolding check_targets
check_targets-cases process_args [] = inl (refl, tt)
check_targets-cases process_args (v ∷ nodes) =
    elim (Bool-cases (has_no_target process_args v.task)) [
      | inl bad ↦
          let (tasked, own, given) = untargeted_node process_args v bad in
          rw (bad, check_targets) (inr (refl, (v, here, tasked, own, given)))
      | inr good ↦ elim (check_targets-cases process_args nodes) [
        | inl (e, h) ↦ rw (good, check_targets) (inl (e, (has_target process_args v good, h)))
        | inr (e, (w, m, tasked, own, given)) ↦
            rw (good, check_targets) (inr (e, (w, there m, tasked, own, given)))
      ]
    ]

-- The process runs from this start node: one message at the end of the stream, one row.
abbrev pub Starts :
    StartParams → List NodeConfig → List EdgeConfig → Store → Result Fault String × Store → Type 0
Starts params nodes edges s out =
    (start : NodeConfig) × Member start nodes
    × (start.node_type ≡ start_event)
    × (out ≡ (
      ok params.fresh_process_id,
      record s {
        queue = s.queue ++ first_message params nodes edges start ∷ [];
        processes = s.processes ++ first_row params start ∷ [];
      },
    ))

-- A refusal writes nothing.
abbrev pub Refuses : Store → Result Fault String × Store → Type 0
Refuses s out = (e : String) × (out ≡ (err (failed e), s))

-- It starts, every node having a target, or it refuses.
abbrev pub Answers :
    StartParams → List NodeConfig → List EdgeConfig → Store → Result Fault String × Store → Type 0
Answers params nodes edges s out =
    (All (HasTarget params.process_args) nodes × Starts params nodes edges s out)
    ⊎ ((Untargeted params.process_args nodes ⊎ All (λ v. v.node_type ≢ start_event) nodes)
        × Refuses s out)

start_type : (t : NodeType) → is_type t start_event ≡ true → t ≡ start_event
start_type t h = ground arith

no_start :
    (nodes : List NodeConfig)
    → find (λ v. is_type v.node_type start_event) nodes ≡ none
    → All (λ v. v.node_type ≢ start_event) nodes
no_start [] h = tt
no_start (v ∷ nodes) h = elim (Bool-cases (is_type v.node_type start_event)) [
  | inl bad ↦ let found : some v ≡ none = rw bad at h in cc found
  | inr other ↦
      let rest : find (λ v. is_type v.node_type start_event) nodes ≡ none = rw other at h in
      (
        λ e. let start : is_type start_event start_event ≡ false = cc (other, e) in cc start,
        no_start nodes rest,
      )
]

-- For a version that can be read: either every node with a task has a target of its own, or the
-- arguments of the process have one, by default or for any node, whether or not it is that node; and
-- the process starts at a start event, where one message and one process row are added and nothing
-- else changes. Or some node with a task has no target while the arguments have none either, or no
-- node is a start event; and then nothing is written and the call fails.
pub start_process-Answers :
    (find_version : ℕ → ℕ → Result String (List NodeConfig × List EdgeConfig))
    (params : StartParams) (nodes : List NodeConfig) (edges : List EdgeConfig) (s : Store)
    → find_version params.workflow_id params.version_id ≡ ok (nodes, edges)
    → Answers params nodes edges s (start_process find_version params s)
unfolding start_process flow_next
start_process-Answers find_version params nodes edges s e =
    elim (check_targets-cases params.process_args nodes) [
      | inr (bad, h) ↦
          rw (e, start_process, bad)
            (inr (inl h, ("No server node is set for executing tasks", refl)))
      | inl (good, h) ↦ elim (Option-cases (find (λ v. is_type v.node_type start_event) nodes)) [
        | inl none_ ↦
            rw (e, start_process, good, none_)
              (inr (inr (no_start nodes none_), ("not found start node", refl)))
        | inr (start, found) ↦
            let (m, t) = find-some (λ v. is_type v.node_type start_event) nodes start found in
            rw (e, start_process, good, found)
              (inl (h, (start, m, start_type start.node_type t, refl)))
      ]
    ]

-- When one entry of the process arguments names a target, the check passes for every version,
-- whatever node the entry is for.
pub check_targets-any_entry :
    (args : WorkflowProcessArgs) (entries : List WorkflowNodeArgs) (entry : WorkflowNodeArgs)
    (nodes : List NodeConfig)
    → args.nodes ≡ some entries
    → Member entry entries
    → non_empty entry.target ≡ true
    → check_targets (some args) nodes ≡ ok tt
check_targets-any_entry args entries entry nodes e m h =
    let given : IsGiven (some args) =
      inl (entries, e, (entry, m, (non_empty_iff entry.target).0 h)) in
    elim (check_targets-cases (some args) nodes) [
      | inl (passed, _) ↦ passed
      | inr (_, (v, _, _, _, bad)) ↦ absurd (bad given)
    ]
