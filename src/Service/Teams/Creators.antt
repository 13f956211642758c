-- ===== src/Service/Teams/Creators.antt =====
-- What the requests on teams keep of their creators (crates/service/src/logic/team.rs).
use jiascheduler.Base.{ℕ, String, Option, List, Result}
use jiascheduler.Service.Teams.{
  Tables, TeamModel, MemberModel, M, save_team, delete_team, add_member, remove_member,
}
use jiascheduler.Service.Teams.Admins.{IsAdministered}
use jiascheduler.Service.Teams.Saving.{save_team-IsAdministered}
use jiascheduler.Service.Teams.Removing.{delete_team-IsAdministered, remove_member-IsAdministered}
use jiascheduler.Service.Teams.Adding.{add_member-IsAdministered}

-- A request that changes teams or members.
pub data Request : Type 0 where
  save : TeamModel → Request
  delete : ℕ → Request
  add : Result String ℕ → ℕ → List MemberModel → Request
  remove : ℕ → Option (List String) → Request

abbrev pub perform : Request → M ℕ
perform (save model) = save_team model
perform (delete id) = delete_team id
perform (add insert_none team_id members) = add_member insert_none team_id members
perform (remove team_id user_ids) = remove_member team_id user_ids

-- Whatever a request to save or delete a team, or to add or remove members, answers, it keeps it
-- that the creator of every team, where there is such a user, is an administrator of the team.
pub perform-IsAdministered :
    (request : Request) (s : Tables) → IsAdministered s → IsAdministered (perform request s).1
perform-IsAdministered (save model) s h = save_team-IsAdministered model s h
perform-IsAdministered (delete id) s h = delete_team-IsAdministered id s h
perform-IsAdministered (add insert_none team_id members) s h =
    add_member-IsAdministered insert_none team_id members s h
perform-IsAdministered (remove team_id user_ids) s h =
    remove_member-IsAdministered team_id user_ids s h
