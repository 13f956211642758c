-- ===== src/Service/Teams/Adding.antt =====
-- How members are added (crates/service/src/logic/team.rs, `add_member`).
use jiascheduler.Base.{
  ℕ, suc, ◌+◌, ◌≡◌, inl, inr, refl, subst, String, List, [], ◌∷◌, ◌++◌, Result, any, filter, length,
  Bool-cases, arith,
}
use mathlib.Core.List.{append_assoc, append-nil}
use jiascheduler.Service.Keys.{Keyed-new}
use jiascheduler.Service.Teams.{
  TeamMember, Tables, MemberModel, has_id, is_known, member_row, member_rows, repeats,
  insert_members, add_member,
}
use jiascheduler.Service.Teams.Admins.{membership_of, MembersKeyed, IsAdministered, IsAdmin-append}

rows-Keyed :
    (next : ℕ) (members : List TeamMember) (new : List MemberModel)
    → MembersKeyed members next
    → MembersKeyed (members ++ member_rows next new) (next + length (member_rows next new))
rows-Keyed next members [] keyed =
    let e : next ≡ next + 0 = omega arith in
    rw (append-nil members) (subst (MembersKeyed members) e keyed)
rows-Keyed next members (v ∷ new) keyed =
    let row : TeamMember = member_row next v in
    let k = Keyed-new (λ r. r.id) membership_of members next row keyed refl in
    let e : (next + 1) + length (member_rows (next + 1) new)
        ≡ next + suc (length (member_rows (next + 1) new)) =
      omega arith in
    let both = rows-Keyed (next + 1) (members ++ row ∷ []) new k in
    subst (MembersKeyed (members ++ row ∷ member_rows (next + 1) new)) e (
      subst (λ xs. MembersKeyed xs ((next + 1) + length (member_rows (next + 1) new)))
        (append_assoc members (row ∷ []) (member_rows (next + 1) new)) both)

more_members-IsAdministered :
    (s : Tables) (new : List TeamMember)
    → MembersKeyed (s.members ++ new) (s.next_member + length new)
    → IsAdministered s
    → IsAdministered
        (record s { members = s.members ++ new; next_member = s.next_member + length new })
more_members-IsAdministered s new k (admins, keyed, teams_keyed) = (
  λ team user row named.
      IsAdmin-append s.members new team.id user.user_id (admins team user row named),
  k,
  teams_keyed,
)

insert_members-IsAdministered :
    (insert_none : Result String ℕ) (s : Tables) (new : List TeamMember)
    → MembersKeyed (s.members ++ new) (s.next_member + length new)
    → IsAdministered s
    → IsAdministered (insert_members insert_none new s).1
unfolding insert_members
insert_members-IsAdministered insert_none s [] k h = h
insert_members-IsAdministered insert_none s (v ∷ new) k h =
    elim (Bool-cases (repeats s.members (v ∷ new))) [
      | inl bad ↦ rw bad h
      | inr good ↦ rw good (more_members-IsAdministered s (v ∷ new) k h)
    ]

pub add_member-IsAdministered :
    (insert_none : Result String ℕ) (team_id : ℕ) (members : List MemberModel) (s : Tables)
    → IsAdministered s
    → IsAdministered (add_member insert_none team_id members s).1
unfolding add_member
add_member-IsAdministered insert_none team_id members s h =
    let new : List MemberModel = filter (is_known s.users) members in
    elim (Bool-cases (any (has_id team_id) s.teams)) [
      | inl is_team ↦ rw is_team (
          insert_members-IsAdministered insert_none s (member_rows s.next_member new)
            (rows-Keyed s.next_member s.members new h.1) h)
      | inr no_team ↦ rw no_team h
    ]
