-- ===== src/Service/Teams/Admins.antt =====
-- The tables of teams in which the creators are administrators (crates/service/src/logic/team.rs).
use jiascheduler.Base.{ℕ, ◌≡◌, String, true, some, List, ◌++◌, find, Member, Member-append_left}
use jiascheduler.Service.Keys.{Keyed}
use jiascheduler.Service.Teams.{Team, TeamMember, User, Tables, is_named}

-- The user is an administrator of the team, by a row of the table.
abbrev pub IsAdmin : List TeamMember → ℕ → String → Type 0
IsAdmin members team_id user_id =
    (m : TeamMember) × Member m members
    × (m.team_id ≡ team_id)
    × (m.user_id ≡ user_id)
    × (m.is_admin ≡ true)

-- The creator of each team, if there is such a user, is an administrator of the team.
abbrev pub AdminsIn : List Team → List User → List TeamMember → Type 0
AdminsIn teams users members =
    (team : Team) (user : User)
    → Member team teams
    → find (is_named team.created_user) users ≡ some user
    → IsAdmin members team.id user.user_id

-- What the number of a membership stands for, and the creator that the number of a team does.
abbrev pub membership_of : TeamMember → ℕ × String
membership_of m = (m.team_id, m.user_id)

abbrev pub MembersKeyed : List TeamMember → ℕ → Type 0
MembersKeyed = Keyed (λ m. m.id) membership_of

abbrev pub TeamsKeyed : List Team → ℕ → Type 0
TeamsKeyed = Keyed (λ team. team.id) (λ team. team.created_user)

abbrev pub IsAdministered : Tables → Type 0
IsAdministered s =
    AdminsIn s.teams s.users s.members
    × MembersKeyed s.members s.next_member
    × TeamsKeyed s.teams s.next_team

pub IsAdmin-append :
    (members new : List TeamMember) (i : ℕ) (u : String)
    → IsAdmin members i u
    → IsAdmin (members ++ new) i u
IsAdmin-append members new i u (m, row, e, k, a) =
    (m, Member-append_left members new m row, e, k, a)
