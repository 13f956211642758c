-- ===== src/Service/Teams/Rights.antt =====
-- Who may read and write a team (crates/service/src/logic/team.rs).
use jiascheduler.Base.{
  ℕ, ◌≡◌, ◌↔◌, ◌⊎◌, inl, inr, refl, String, Bool, true, false, Option, none, some, Result, ok,
  Member, any_iff, find, find-some, find-any, Option-cases,
}
use jiascheduler.Service.Teams.{
  Tables, TeamMember, is_membership, is_member_of, is_admin_of, created_by, allow, can_write_team,
  can_read_team,
}

-- A row of the table makes the user a member of the team.
abbrev pub IsMember : Tables → ℕ → String → Type 0
IsMember s team_id user_id =
    (m : TeamMember) × Member m s.members × (is_membership team_id user_id m ≡ true)

IsMember-of :
    (team_id : ℕ) (user_id : String) (s : Tables)
    → (is_member_of (find (is_membership team_id user_id) s.members) ≡ true)
      ↔ IsMember s team_id user_id
IsMember-of team_id user_id s =
    elim (Option-cases (find (is_membership team_id user_id) s.members)) [
      | inl missing ↦ (
        λ h. cc (rw missing at h),
        λ member.
            let found = (any_iff (is_membership team_id user_id) s.members).1 member in
            let not_found = find-any (is_membership team_id user_id) s.members missing in cc,
      )
      | inr (m, e) ↦
          let (row, own) = find-some (is_membership team_id user_id) s.members m e in
          let member : IsMember s team_id user_id = (m, row, own) in (λ _. member, λ _. rw e)
    ]

admin-member : (found : Option TeamMember) → is_admin_of found ≡ true → is_member_of found ≡ true
admin-member none h = h
admin-member (some member) h = refl

abbrev answer : Bool → Result String Bool
answer b = ok b

allow_iff :
    (manages created admin member : Bool)
    → (admin ≡ true → member ≡ true)
    → (answer (allow manages created member) ≡ ok true)
      ↔ ((answer (allow manages created admin) ≡ ok true) ⊎ (member ≡ true))
allow_iff true created admin member h = (λ k. inl refl, λ k. refl)
allow_iff false true admin member h = (λ k. inl refl, λ k. refl)
allow_iff false false admin true h = (λ k. inr refl, λ k. refl)
allow_iff false false true false h = (λ k. inl refl, λ k. absurd (cc (h refl)))
allow_iff false false false false h = (λ k. inl k, λ k. elim k [ inl e ↦ e | inr e ↦ cc ])

-- A user can read a team exactly when the user can write it or is a member of it, if the enforcer
-- answers.
pub can_read_team_iff :
    (can_manage_job : String → Result String Bool) (team_id : ℕ) (user_id : String) (s : Tables)
    (manages : Bool)
    → can_manage_job user_id ≡ ok manages
    → (can_read_team can_manage_job (some team_id) user_id s ≡ ok true) ↔ (
        (can_write_team can_manage_job (some team_id) user_id s ≡ ok true)
        ⊎ IsMember s team_id user_id)
unfolding can_read_team can_write_team
can_read_team_iff can_manage_job team_id user_id s manages h =
    let found : Option TeamMember = find (is_membership team_id user_id) s.members in
    let (to, from) =
      allow_iff manages (created_by s team_id user_id) (is_admin_of found) (is_member_of found)
        (admin-member found) in
    let (members, of_member) = IsMember-of team_id user_id s in
    rw (h, can_read_team, can_write_team)
      (
        λ k. elim (to k) [ inl e ↦ inl e | inr e ↦ inr (members e) ],
        λ k. elim k [ inl e ↦ from (inl e) | inr m ↦ from (inr (of_member m)) ],
      )
