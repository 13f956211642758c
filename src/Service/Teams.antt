-- ===== src/Service/Teams.antt =====
-- Teams and their members (crates/service/src/logic/team.rs) over the tables that they use. The
-- tables have the keys of migration/sql/v1_0_0/up.sql: an insert or update that would repeat one
-- fails and writes nothing. `can_manage_job` asks the enforcer; `insert_none` is the database's
-- answer to an insert of no rows.
pub mod Admins
mod Memberships
mod Saving
mod Removing
mod Adding
pub mod Creators
pub mod Rights
use jiascheduler.Base.{
  ℕ, ◌+◌, String, ◌==◌, Bool, true, false, not, ◌&&◌, Option, none, some, List, [], ◌∷◌, ◌++◌,
  Result, ok, err, any, find, filter, update_where, count_if, length, nat_eq, if◌then◌else◌, format,
}
use jiascheduler.Base.State.{◌>>=◌, fail}

pub record Team : Type 0 where
  pub id : ℕ
  pub name : String
  pub info : String
  pub created_user : String
  pub updated_user : String

pub record TeamMember : Type 0 where
  pub id : ℕ
  pub team_id : ℕ
  pub user_id : String
  pub is_admin : Bool
  pub created_user : String

pub record User : Type 0 where
  pub user_id : String
  pub username : String

-- `job_teams` has the team of each job; `next_team` and `next_member` are the next row numbers.
pub record Tables : Type 0 where
  pub teams : List Team
  pub members : List TeamMember
  pub users : List User
  pub job_teams : List ℕ
  pub next_team : ℕ
  pub next_member : ℕ

abbrev pub M : Type 0 → Type 0
M A = Tables → Result String A × Tables

-- The columns of a row that an insert or update sets.
pub record TeamModel : Type 0 where
  pub id : Option ℕ
  pub name : String
  pub info : Option String
  pub created_user : Option String
  pub updated_user : String

pub record MemberModel : Type 0 where
  pub team_id : ℕ
  pub user_id : Option String
  pub is_admin : Bool
  pub created_user : String

abbrev pub or_default {ℓ} : {A : Type ℓ} → Option A → A → A
or_default none a = a
or_default (some b) a = b

abbrev pub has_id : ℕ → Team → Bool
has_id team_id team = nat_eq team.id team_id

abbrev pub is_named : String → User → Bool
is_named username user = user.username == username

abbrev pub is_membership : ℕ → String → TeamMember → Bool
is_membership team_id user_id member = nat_eq member.team_id team_id && (member.user_id == user_id)

-- The unique key of a team: its name and who created it.
abbrev pub same_key : String → String → Team → Bool
same_key name created_user team = (team.name == name) && (team.created_user == created_user)

abbrev pub new_team : TeamModel → ℕ → Team
new_team model id = record {
  id = id;
  name = model.name;
  info = or_default model.info "";
  created_user = or_default model.created_user "";
  updated_user = model.updated_user;
}

abbrev pub set_team : TeamModel → Team → Team
set_team model team = record team {
  name = model.name;
  info = or_default model.info team.info;
  created_user = or_default model.created_user team.created_user;
  updated_user = model.updated_user;
}

-- `active_model.save`: an insert of a model without a number, an update of one with it.
unfoldable pub save_row : TeamModel → Option ℕ → M Team
save_row model none s =
    if any (same_key model.name (or_default model.created_user "")) s.teams
    then fail "duplicate entry" s
    else (
      ok (new_team model s.next_team),
      record s { teams = s.teams ++ new_team model s.next_team ∷ []; next_team = s.next_team + 1 },
    )
save_row model (some id) s = elim (find (has_id id) s.teams) [
  | none ↦ fail "none of the records are updated" s
  | some team ↦
      if any (λ t. not (has_id id t) && same_key model.name (set_team model team).created_user t)
        s.teams
      then fail "duplicate entry" s
      else (
        ok (set_team model team),
        record s { teams = update_where (has_id id) (set_team model) s.teams },
      )
]

abbrev pub set_admin : ℕ → String → TeamMember → TeamMember
set_admin team_id user_id member = record member {
  team_id = team_id;
  user_id = user_id;
  is_admin = true;
}

abbrev pub new_admin : ℕ → ℕ → String → TeamMember
new_admin id team_id user_id = record {
  id = id;
  team_id = team_id;
  user_id = user_id;
  is_admin = true;
  created_user = "";
}

-- The membership of the creator, inserted or made an administrator's.
unfoldable pub save_admin : ℕ → String → Option TeamMember → Tables → Tables
save_admin team_id user_id none s = record s {
  members = s.members ++ new_admin s.next_member team_id user_id ∷ [];
  next_member = s.next_member + 1;
}
save_admin team_id user_id (some m) s = record s {
  members = update_where (λ r. nat_eq r.id m.id) (set_admin team_id user_id) s.members;
}

unfoldable pub save_creator : Team → Option User → M ℕ
save_creator team none s = fail (format ("cannot found " ∷ team.created_user ∷ [])) s
save_creator team (some admin_user) s = (
  ok team.id,
  save_admin team.id admin_user.user_id (find (is_membership team.id admin_user.user_id) s.members)
      s,
)

unfoldable pub save_team : TeamModel → M ℕ
save_team model = save_row model model.id >>= λ team s.
    save_creator team (find (is_named team.created_user) s.users) s

unfoldable pub delete_team : ℕ → M ℕ
delete_team id s =
    if any (λ team_id. nat_eq team_id id) s.job_teams
    then fail "forbidden to delete the team in use" s
    else (
      ok (count_if (has_id id) s.teams),
      record s {
        teams = filter (λ team. not (has_id id team)) s.teams;
        members = filter (λ member. not (nat_eq member.team_id id)) s.members;
      },
    )

abbrev pub is_known : List User → MemberModel → Bool
is_known users v = elim v.user_id [
  | none ↦ false
  | some user_id ↦ any (λ user. user.user_id == user_id) users
]

abbrev pub member_row : ℕ → MemberModel → TeamMember
member_row next v = record {
  id = next;
  team_id = v.team_id;
  user_id = or_default v.user_id "";
  is_admin = v.is_admin;
  created_user = v.created_user;
}

-- The rows that an insert numbers from the next number on.
abbrev pub member_rows : ℕ → List MemberModel → List TeamMember
member_rows next [] = []
member_rows next (v ∷ members) = member_row next v ∷ member_rows (next + 1) members

-- No two of the rows, and no row of the table and one of them, are for one user and team.
abbrev pub repeats : List TeamMember → List TeamMember → Bool
repeats rows [] = false
repeats rows (v ∷ new) =
    if any (is_membership v.team_id v.user_id) rows then true else repeats (v ∷ rows) new

-- `insert_many`, in one statement.
unfoldable pub insert_members : Result String ℕ → List TeamMember → M ℕ
insert_members insert_none [] s = (insert_none, s)
insert_members insert_none (v ∷ new) s =
    if repeats s.members (v ∷ new) then fail "duplicate entry" s else (
      ok v.id,
      record s { members = s.members ++ v ∷ new; next_member = s.next_member + length (v ∷ new) },
    )

unfoldable pub add_member : Result String ℕ → ℕ → List MemberModel → M ℕ
add_member insert_none team_id members s =
    if any (has_id team_id) s.teams
    then insert_members insert_none (member_rows s.next_member (filter (is_known s.users) members))
        s
    else fail "invalid team" s

-- The user who created the team, by the join of the two tables.
abbrev pub creator_of : Tables → ℕ → Option User
creator_of s team_id = elim (find (has_id team_id) s.teams) [
  | none ↦ none
  | some team ↦ find (is_named team.created_user) s.users
]

abbrev pub is_removed : ℕ → List String → TeamMember → Bool
is_removed team_id user_ids member =
    nat_eq member.team_id team_id && any (λ user_id. member.user_id == user_id) user_ids

unfoldable pub remove_found : ℕ → List String → Option User → M ℕ
remove_found team_id user_ids none s = fail "cannot found team creator" s
remove_found team_id user_ids (some creator) s =
    if any (λ user_id. user_id == creator.user_id) user_ids
    then fail "cannot remove team creator" s
    else (
      ok (count_if (is_removed team_id user_ids) s.members),
      record s { members = filter (λ member. not (is_removed team_id user_ids member)) s.members },
    )

unfoldable pub remove_member : ℕ → Option (List String) → M ℕ
remove_member team_id none s = fail "empty users" s
remove_member team_id (some user_ids) s = remove_found team_id user_ids (creator_of s team_id) s

-- A team row with this number whose creator has this identifier.
abbrev pub created_by : Tables → ℕ → String → Bool
created_by s team_id user_id =
    any
      (λ team.
        has_id team_id team
        && any (λ user. is_named team.created_user user && (user.user_id == user_id)) s.users)
      s.teams

abbrev pub is_admin_of : Option TeamMember → Bool
is_admin_of none = false
is_admin_of (some member) = member.is_admin

abbrev pub is_member_of : Option TeamMember → Bool
is_member_of none = false
is_member_of (some member) = true

-- The answer for a user who manages jobs, for the creator, and by the user's membership.
abbrev pub allow : Bool → Bool → Bool → Bool
allow manages created member = if manages then true else (if created then true else member)

module _ (can_manage_job : String → Result String Bool) where
  unfoldable pub can_write_team : Option ℕ → String → Tables → Result String Bool
  can_write_team none user_id s = ok true
  can_write_team (some team_id) user_id s = elim (can_manage_job user_id) [
    | err e ↦ err e
    | ok manages ↦ ok (
        allow manages (created_by s team_id user_id)
          (is_admin_of (find (is_membership team_id user_id) s.members)))
  ]

  unfoldable pub can_read_team : Option ℕ → String → Tables → Result String Bool
  can_read_team none user_id s = ok true
  can_read_team (some team_id) user_id s = elim (can_manage_job user_id) [
    | err e ↦ err e
    | ok manages ↦ ok (
        allow manages (created_by s team_id user_id)
          (is_member_of (find (is_membership team_id user_id) s.members)))
  ]
