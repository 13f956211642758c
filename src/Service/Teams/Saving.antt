-- ===== src/Service/Teams/Saving.antt =====
-- How a team is saved (crates/service/src/logic/team.rs, `save_team`).
use jiascheduler.Base.{
  ℕ, ◌≡◌, ◌⊎◌, inl, inr, refl, ◌∙◌, String, true, false, not, ◌&&◌, Option, none, some, [], ◌∷◌,
  Result, ok, err, any, find, update_where, ap, sym, Member, Member-cons, Member-append,
  update_where-Member, find-some, Bool-cases, Option-cases, arith,
}
use jiascheduler.Base.State.{and_then}
use jiascheduler.Service.Keys.{Keyed-new, Keyed-update_where}
use jiascheduler.Service.Teams.{
  Team, User, Tables, TeamModel, has_id, is_named, new_team, set_team, or_default, same_key,
  save_row, save_creator, save_team,
}
use jiascheduler.Service.Teams.Admins.{IsAdmin, AdminsIn, MembersKeyed, TeamsKeyed, IsAdministered}
use jiascheduler.Service.Teams.Memberships.{save_admin-IsSaved}

-- What an insert or update of a team leaves of the tables.
abbrev RowSaved : Tables → Result String Team × Tables → Type 0
RowSaved s (err e, t) = t ≡ s
RowSaved s (ok team, t) =
    (t.users ≡ s.users)
    × (t.members ≡ s.members)
    × (t.next_member ≡ s.next_member)
    × (TeamsKeyed s.teams s.next_team → TeamsKeyed t.teams t.next_team)
    × ((r : Team)
        → Member r t.teams
        → ((r0 : Team) × Member r0 s.teams × (r0.id ≡ r.id) × (r0.created_user ≡ r.created_user))
          ⊎ ((r.id ≡ team.id) × (r.created_user ≡ team.created_user)))

set_team-created :
    (model : TeamModel) (r team : Team)
    → ((set_team model r).created_user ≡ r.created_user)
      ⊎ ((set_team model r).created_user ≡ (set_team model team).created_user)
set_team-created model r team =
    elim model.created_user
      as (λ c.
        (or_default c r.created_user ≡ r.created_user)
        ⊎ (or_default c r.created_user ≡ or_default c team.created_user)) [
          | none ↦ inl refl
          | some c ↦ inr refl
        ]

TeamsKeyed-set :
    (model : TeamModel) (id : ℕ) (s : Tables)
    → TeamsKeyed s.teams s.next_team
    → TeamsKeyed (update_where (has_id id) (set_team model) s.teams) s.next_team
TeamsKeyed-set model id s =
    Keyed-update_where (λ r. r.id) (λ r. r.created_user) (has_id id) (set_team model) s.teams
      s.next_team (λ r. ground arith)
      (λ a b ra rb i c. elim (Bool-cases (has_id id a)) [
        | inl e ↦
            let e' : has_id id b ≡ true = ground (arith, i) in
            rw (e, e') (ap (or_default model.created_user) c)
        | inr e ↦ let e' : has_id id b ≡ false = ground (arith, i) in rw (e, e') c
      ])

has_id-eq : (id : ℕ) (team : Team) → has_id id team ≡ true → team.id ≡ id
has_id-eq id team h = ground arith

save_row-RowSaved :
    (model : TeamModel) (id : Option ℕ) (s : Tables) → RowSaved s (save_row model id s)
unfolding save_row
save_row-RowSaved model none s =
    elim (Bool-cases (any (same_key model.name (or_default model.created_user "")) s.teams)) [
      | inl taken ↦ rw taken refl
      | inr free ↦ rw free (
        refl,
        refl,
        refl,
        λ k.
            Keyed-new (λ r. r.id) (λ r. r.created_user) s.teams s.next_team
              (new_team model s.next_team) k refl,
        λ r row. elim (Member-append s.teams (new_team model s.next_team ∷ []) r row) [
          | inl old ↦ inl (r, old, refl, refl)
          | inr new ↦ elim (Member-cons (new_team model s.next_team) [] r new) [
            | inl e ↦ inr (sym (ap (λ x. x.id) e), sym (ap (λ x. x.created_user) e))
            | inr nothing ↦ elim nothing [ ]
          ]
        ],
      )
    ]
save_row-RowSaved model (some id) s = elim (Option-cases (find (has_id id) s.teams)) [
  | inl missing ↦ rw (missing, RowSaved, save_row) refl
  | inr (team, e) ↦
      elim (Bool-cases (
        any (λ t. not (has_id id t) && same_key model.name (set_team model team).created_user t)
          s.teams)) [
            | inl taken ↦ rw (e, taken, RowSaved, save_row) refl
            | inr free ↦
                let (_, own) = find-some (has_id id) s.teams team e in
                rw (e, free, RowSaved, save_row)
                  (
                    refl,
                    refl,
                    refl,
                    TeamsKeyed-set model id s,
                    λ r row.
                        let (r0, row0, q) =
                          update_where-Member (has_id id) (set_team model) s.teams r row in
                        elim (Bool-cases (has_id id r0)) [
                          | inl is ↦
                              let q' : set_team model r0 ≡ r = rw is at q in
                              elim (set_team-created model r0 team) [
                                | inl same ↦ inl (
                                  r0,
                                  row0,
                                  ap (λ x. x.id) q',
                                  sym same ∙ ap (λ x. x.created_user) q',
                                )
                                | inr same ↦ inr (
                                  omega (
                                    arith,
                                    has_id-eq id r0 is,
                                    has_id-eq id team own,
                                    ap (λ x. x.id) q',
                                  ),
                                  sym (ap (λ x. x.created_user) q') ∙ same,
                                )
                              ]
                          | inr other ↦ inl (r0, row0, cc (rw other at q), cc (rw other at q))
                        ],
                  )
          ]
]

old-IsAdmin :
    (s t : Tables)
    → t.users ≡ s.users
    → t.members ≡ s.members
    → AdminsIn s.teams s.users s.members
    → (r r0 : Team) (user : User) → Member r0 s.teams
    → r0.id ≡ r.id
    → r0.created_user ≡ r.created_user
    → find (is_named r.created_user) t.users ≡ some user
    → IsAdmin t.members r.id user.user_id
old-IsAdmin s t users members admins r r0 user row i c named =
    let named_before : find (is_named r0.created_user) s.users ≡ some user =
      rw (c, sym users) named in
    rw (members, sym i) (admins r0 user row named_before)

save_creator-IsAdministered :
    (s t : Tables) (team : Team)
    → RowSaved s (ok team, t)
    → IsAdministered s
    → IsAdministered (save_creator team (find (is_named team.created_user) t.users) t).1
unfolding save_creator
save_creator-IsAdministered s t team (users, members, next, teams, rows)
      (admins, keyed, teams_keyed) =
    let keyed_t : MembersKeyed t.members t.next_member = rw (members, next) keyed in
    elim (Option-cases (find (is_named team.created_user) t.users)) [
      | inl missing ↦ rw missing (
        λ r user row named. elim (rows r row) [
          | inl (r0, row0, i, c) ↦ old-IsAdmin s t users members admins r r0 user row0 i c named
          | inr (i, c) ↦ cc (named, missing, ap (λ x. find (is_named x) t.users) c)
        ],
        keyed_t,
        teams teams_keyed,
      )
      | inr (admin, e) ↦
          let (teams_u, users_u, next_u, keyed_u, creator, kept) =
            save_admin-IsSaved t team.id admin.user_id keyed_t in
          rw e (
            λ r user row named. elim (rows r (rw teams_u at row)) [
              | inl (r0, row0, i, c) ↦
                  kept r.id user.user_id
                    (old-IsAdmin s t users members admins r r0 user row0 i c (rw users_u at named))
              | inr (i, c) ↦
                  let u : admin ≡ user =
                    cc (named, e, ap (λ x. find (is_named x) t.users) c, users_u) in
                  let (m, found, of_team, of_user, is) = creator in
                  (m, found, of_team ∙ sym i, of_user ∙ ap (λ x. x.user_id) u, is)
            ],
            keyed_u,
            rw (teams_u, next_u) (teams teams_keyed),
          )
    ]

created-IsAdministered :
    (s : Tables) (r : Result String Team × Tables)
    → RowSaved s r
    → IsAdministered s
    → IsAdministered
        (and_then r λ team t. save_creator team (find (is_named team.created_user) t.users) t).1
created-IsAdministered s (err e, t) saved h = rw saved h
created-IsAdministered s (ok team, t) saved h = save_creator-IsAdministered s t team saved h

pub save_team-IsAdministered :
    (model : TeamModel) (s : Tables) → IsAdministered s → IsAdministered (save_team model s).1
unfolding save_team
save_team-IsAdministered model s h =
    created-IsAdministered s (save_row model model.id s) (save_row-RowSaved model model.id s) h
