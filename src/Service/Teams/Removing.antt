-- ===== src/Service/Teams/Removing.antt =====
-- How teams and members are removed (crates/service/src/logic/team.rs, `delete_team`,
-- `remove_member`).
use jiascheduler.Base.{
  ℕ, ◌≡◌, inl, inr, refl, ◌∙◌, String, ◌==◌, Bool, true, false, not, Option, none, some, List, [],
  ◌∷◌, any, find, filter, nat_eq, ap, Member, filter_iff, find-some, Bool-cases, ==-comm,
  Option-cases, arith,
}
use jiascheduler.Service.Keys.{Keyed-filter}
use jiascheduler.Service.Teams.{
  Team, TeamMember, User, Tables, has_id, is_named, delete_team, creator_of, is_removed,
  remove_found, remove_member,
}
use jiascheduler.Service.Teams.Admins.{membership_of, IsAdministered}

fewer_teams-IsAdministered :
    (s : Tables) (keep : Team → Bool)
    → IsAdministered s
    → IsAdministered (record s { teams = filter keep s.teams })
fewer_teams-IsAdministered s keep (admins, keyed, teams_keyed) = (
  λ team user row named. admins team user ((filter_iff keep s.teams team).0 row).0 named,
  keyed,
  Keyed-filter (λ r. r.id) (λ r. r.created_user) keep s.teams s.next_team teams_keyed,
)

-- Any memberships may go but those of the creators.
fewer_members-IsAdministered :
    (s : Tables) (keep : TeamMember → Bool)
    → ((team : Team) (user : User) (m : TeamMember)
        → Member team s.teams
        → find (is_named team.created_user) s.users ≡ some user
        → m.team_id ≡ team.id
        → m.user_id ≡ user.user_id
        → keep m ≡ true)
    → IsAdministered s
    → IsAdministered (record s { members = filter keep s.members })
fewer_members-IsAdministered s keep kept (admins, keyed, teams_keyed) = (
  λ team user row named.
      let (m, found, i, u, a) = admins team user row named in
      (m, (filter_iff keep s.members m).1 (found, kept team user m row named i u), i, u, a),
  Keyed-filter (λ r. r.id) membership_of keep s.members s.next_member keyed,
  teams_keyed,
)

pub delete_team-IsAdministered :
    (id : ℕ) (s : Tables) → IsAdministered s → IsAdministered (delete_team id s).1
unfolding delete_team
delete_team-IsAdministered id s h =
    let other : Team → Bool = λ team. not (has_id id team) in
    elim (Bool-cases (any (λ team_id. nat_eq team_id id) s.job_teams)) [
      | inl used ↦ rw used h
      | inr unused ↦ rw unused (
          fewer_members-IsAdministered (record s { teams = filter other s.teams })
            (λ member. not (nat_eq member.team_id id))
            (λ team user m row named i u.
              let own = ((filter_iff other s.teams team).0 row).1 in ground (arith, i, own))
            (fewer_teams-IsAdministered s other h))
    ]

creator_of-some :
    (s : Tables) (team_id : ℕ) (creator : User)
    → creator_of s team_id ≡ some creator
    → (team : Team) × Member team s.teams
      × (has_id team_id team ≡ true)
      × (find (is_named team.created_user) s.users ≡ some creator)
creator_of-some s team_id creator h = elim (Option-cases (find (has_id team_id) s.teams)) [
  | inl missing ↦ cc (rw (missing, creator_of) at h)
  | inr (team, e) ↦
      let (row, own) = find-some (has_id team_id) s.teams team e in
      (team, row, own, rw (e, creator_of) at h)
]

any-flip : (x : String) (ids : List String) → any (λ u. x == u) ids ≡ any (λ u. u == x) ids
any-flip x [] = refl
any-flip x (u ∷ ids) = ground (arith, ==-comm x u, any-flip x ids)

remove_found-IsAdministered :
    (team_id : ℕ) (user_ids : List String) (s : Tables) (found : Option User)
    → creator_of s team_id ≡ found
    → IsAdministered s
    → IsAdministered (remove_found team_id user_ids found s).1
unfolding remove_found
remove_found-IsAdministered team_id user_ids s none e h = h
remove_found-IsAdministered team_id user_ids s (some creator) e h =
    let (team0, row0, own0, named0) = creator_of-some s team_id creator e in
    elim (Bool-cases (any (λ user_id. user_id == creator.user_id) user_ids)) [
      | inl bad ↦ rw bad h
      | inr good ↦ rw good (
          fewer_members-IsAdministered s (λ member. not (is_removed team_id user_ids member))
            (λ team user m row named i u. elim (Bool-cases (nat_eq m.team_id team_id)) [
              | inl here_ ↦
                  let same = h.2.0 team team0 row row0 (ground (arith, i, own0)) in
                  let who : user ≡ creator =
                    cc (named, named0, ap (λ x. find (is_named x) s.users) same) in
                  let absent : any (λ x. m.user_id == x) user_ids ≡ false =
                    any-flip m.user_id user_ids
                    ∙ ap (λ x. any (λ y. y == x) user_ids) (u ∙ ap (λ x. x.user_id) who)
                    ∙ good in
                  rw (here_, absent) refl
              | inr there_ ↦ rw there_ refl
            ])
            h)
    ]

pub remove_member-IsAdministered :
    (team_id : ℕ) (user_ids : Option (List String)) (s : Tables)
    → IsAdministered s
    → IsAdministered (remove_member team_id user_ids s).1
unfolding remove_member
remove_member-IsAdministered team_id none s h = h
remove_member-IsAdministered team_id (some user_ids) s h =
    remove_found-IsAdministered team_id user_ids s (creator_of s team_id) refl h
