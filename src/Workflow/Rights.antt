-- ===== src/Workflow/Rights.antt =====
-- crates/service/src/logic/workflow/workflow.rs: who may change a workflow and its timers.
-- `can_manage_job` asks the enforcer.
pub mod Teams
use jiascheduler.Base.{
  ℕ, nat_eq, String, ◌==◌, Bool, true, false, ◌&&◌, ◌||◌, Option, none, some, List, Result, ok, err,
  any, find, format, if◌then◌else◌,
}
use jiascheduler.Service.Teams.{TeamMember, is_membership}

-- workflow: its number, team and creator.
pub record Workflow : Type 0 where
  pub id : ℕ
  pub team_id : ℕ
  pub created_user : String

-- workflow_timer: its number and workflow.
pub record Timer : Type 0 where
  pub id : ℕ
  pub workflow_id : ℕ

pub record Tables : Type 0 where
  pub members : List TeamMember
  pub workflows : List Workflow
  pub timers : List Timer

pub record UserInfo : Type 0 where
  pub user_id : String
  pub username : String

abbrev pub in_team : Tables → UserInfo → ℕ → Bool
in_team tables user team_id = any (is_membership team_id user.user_id) tables.members

-- The user is in the team that the request names.
abbrev pub is_team_user : Tables → UserInfo → Option ℕ → Bool
is_team_user tables user none = false
is_team_user tables user (some team_id) = in_team tables user team_id

-- No team is named, or the team 0.
abbrev no_team : Option ℕ → Bool
no_team none = true
no_team (some team_id) = nat_eq team_id 0

abbrev is_named : Option ℕ → ℕ → Bool
is_named none team_id = false
is_named (some named) team_id = nat_eq team_id named

-- A workflow of the table, for a user who does not manage jobs.
unfoldable pub can_write_found : Tables → UserInfo → Option ℕ → Option Workflow → Bool
can_write_found tables user team_id none = false
can_write_found tables user team_id (some workflow) =
    if workflow.created_user == user.username
    then true
    else (if is_team_user tables user team_id
        then is_named team_id workflow.team_id
        else in_team tables user workflow.team_id)

unfoldable pub can_write_for : Tables → UserInfo → Option ℕ → Option ℕ → Bool
can_write_for tables user team_id none = is_team_user tables user team_id || no_team team_id
can_write_for tables user team_id (some workflow_id) =
    can_write_found tables user team_id
      (find (λ (w : Workflow). nat_eq w.id workflow_id) tables.workflows)

module _ (can_manage_job : String → Result String Bool) where
  unfoldable pub can_write_workflow : Tables → UserInfo → Option ℕ → Option ℕ → Result String Bool
  can_write_workflow tables user team_id workflow_id = elim (can_manage_job user.user_id) [
    | err e ↦ err e
    | ok is_allowed ↦
        ok (if is_allowed then true else can_write_for tables user team_id workflow_id)
  ]

  abbrev of_timer : Tables → UserInfo → Option ℕ → ℕ → Option Timer → Result String Bool
  of_timer tables user team_id timer_id none = err "cannot found timer"
  of_timer tables user team_id timer_id (some timer) =
      can_write_workflow tables user team_id (some timer.workflow_id)

  unfoldable pub can_write_timer : Tables → UserInfo → Option ℕ → Option ℕ → Result String Bool
  can_write_timer tables user team_id none = ok true
  can_write_timer tables user team_id (some timer_id) =
      of_timer tables user team_id timer_id
        (find (λ (t : Timer). nat_eq t.id timer_id) tables.timers)
