-- ===== src/Workflow/Rights/Teams.antt =====
-- The teams that may change a workflow (crates/service/src/logic/workflow/workflow.rs,
-- `can_write_workflow`).
use jiascheduler.Base.{
  ℕ, ◌≡◌, ◌⊎◌, ◌↔◌, inl, inr, refl, ap, subst, nat_eq, String, ◌==◌, eq_iff, Bool, true, false,
  Option, none, some, Result, ok, find, Bool-cases, arith,
}
use jiascheduler.Workflow.Rights.{
  Workflow, Tables, UserInfo, in_team, is_team_user, can_write_found, can_write_for,
  can_write_workflow,
}

-- The user created the workflow or is in its team, and does not name another team of the user's.
abbrev pub MayWrite : Tables → UserInfo → Option ℕ → Workflow → Type 0
MayWrite tables user team_id workflow =
    (workflow.created_user ≡ user.username)
    ⊎ ((in_team tables user workflow.team_id ≡ true)
        × ((is_team_user tables user team_id ≡ false) ⊎ (team_id ≡ some workflow.team_id)))

MayWrite-of :
    (tables : Tables) (user : UserInfo) (team_id : Option ℕ) (w : Workflow)
    → can_write_found tables user team_id (some w) ≡ true
    → MayWrite tables user team_id w
unfolding can_write_found
MayWrite-of tables user none w h = elim (Bool-cases (w.created_user == user.username)) [
  | inl own ↦ inl ((eq_iff w.created_user user.username).0 own)
  | inr other ↦ inr (rw (other, can_write_found) at h, inl refl)
]
MayWrite-of tables user (some team) w h = elim (Bool-cases (w.created_user == user.username)) [
  | inl own ↦ inl ((eq_iff w.created_user user.username).0 own)
  | inr other ↦ elim (Bool-cases (in_team tables user team)) [
    | inl member ↦
        let named : nat_eq w.team_id team ≡ true = rw (other, member, can_write_found) at h in
        let same : team ≡ w.team_id = ground arith in
        inr (subst (λ t. in_team tables user t ≡ true) same member, inr (ap some same))
    | inr stranger ↦ inr (rw (other, stranger, can_write_found) at h, inl stranger)
  ]
]

of-MayWrite :
    (tables : Tables) (user : UserInfo) (team_id : Option ℕ) (w : Workflow)
    → MayWrite tables user team_id w
    → can_write_found tables user team_id (some w) ≡ true
unfolding can_write_found
of-MayWrite tables user team_id w (inl own) =
    let e = (eq_iff w.created_user user.username).1 own in rw (e, can_write_found) refl
of-MayWrite tables user none w (inr (member, _)) =
    elim (Bool-cases (w.created_user == user.username)) [
      | inl own ↦ rw (own, can_write_found) refl
      | inr other ↦ rw (other, can_write_found) member
    ]
of-MayWrite tables user (some team) w (inr (member, named)) =
    elim (Bool-cases (w.created_user == user.username)) [
      | inl own ↦ rw (own, can_write_found) refl
      | inr other ↦ elim (Bool-cases (in_team tables user team)) [
        | inr stranger ↦ rw (other, stranger, can_write_found) member
        | inl known ↦ elim named [
          | inl not_known ↦ cc (known, not_known)
          | inr same ↦
              let e : team ≡ w.team_id = cc same in
              let is_it : nat_eq w.team_id team ≡ true = ground (arith, e) in
              rw (other, known, can_write_found) is_it
        ]
      ]
    ]

-- A user who does not manage jobs may change a workflow of the table exactly when the user created
-- it, or is in its team and does not name a different team that the user is in as well.
pub can_write_workflow_iff :
    (can_manage_job : String → Result String Bool) (tables : Tables) (user : UserInfo)
    (team_id : Option ℕ) (workflow_id : ℕ) (w : Workflow)
    → can_manage_job user.user_id ≡ ok false
    → find (λ (w : Workflow). nat_eq w.id workflow_id) tables.workflows ≡ some w
    → (can_write_workflow can_manage_job tables user team_id (some workflow_id) ≡ ok true)
      ↔ MayWrite tables user team_id w
unfolding can_write_workflow can_write_for
can_write_workflow_iff can_manage_job tables user team_id workflow_id w ordinary found =
    rw (ordinary, found, can_write_workflow)
      (
        λ h. MayWrite-of tables user team_id w (cc h),
        λ may. ap ok (of-MayWrite tables user team_id w may),
      )
