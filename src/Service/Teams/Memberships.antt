-- ===== src/Service/Teams/Memberships.antt =====
-- The creator's membership in the table (crates/service/src/logic/team.rs, `save_team`).
use jiascheduler.Base.{
  ℕ, ◌≡◌, inl, inr, refl, ◌∙◌, String, eq_iff, Bool, true, [], ◌∷◌, find, update_where, nat_eq, ap,
  sym, Member, Member-append_right, Member-update_where, changed, here, find-some, Bool-cases,
  Option-cases, arith,
}
use jiascheduler.Service.Keys.{Keyed-new, Keyed-update_where}
use jiascheduler.Service.Teams.{TeamMember, Tables, is_membership, set_admin, new_admin, save_admin}
use jiascheduler.Service.Teams.Admins.{IsAdmin, membership_of, MembersKeyed, IsAdmin-append}

membership :
    (team_id : ℕ) (user_id : String) (m : TeamMember)
    → is_membership team_id user_id m ≡ true
    → (m.team_id ≡ team_id) × (m.user_id ≡ user_id)
membership team_id user_id m h = (ground arith, ground (arith, eq_iff m.user_id user_id))

-- The creator's membership has been written: what held of the members still does.
abbrev pub IsSaved : Tables → ℕ → String → Tables → Type 0
IsSaved s team_id user_id t =
    (t.teams ≡ s.teams)
    × (t.users ≡ s.users)
    × (t.next_team ≡ s.next_team)
    × MembersKeyed t.members t.next_member
    × IsAdmin t.members team_id user_id
    × ((i : ℕ) (u : String) → IsAdmin s.members i u → IsAdmin t.members i u)

-- The rows with the found number become what they were, and an administrator's.
module _ (s : Tables) (team_id : ℕ) (user_id : String) (m : TeamMember)
    (keyed : MembersKeyed s.members s.next_member) (found : Member m s.members)
    (m_team : m.team_id ≡ team_id) (m_user : m.user_id ≡ user_id) where
  abbrev is_found : TeamMember → Bool
  is_found r = nat_eq r.id m.id

  abbrev after : TeamMember → TeamMember
  after = changed is_found (set_admin team_id user_id)

  after-id : (r : TeamMember) → (after r).id ≡ r.id
  after-id r = ground arith

  after-same :
      (r : TeamMember)
      → Member r s.members
      → ((after r).team_id ≡ r.team_id) × ((after r).user_id ≡ r.user_id)
  after-same r row = elim (Bool-cases (is_found r)) [
    | inl e ↦
        let k = keyed.0 r m row found (ground arith) in
        rw e (sym m_team ∙ sym (ap (λ x. x.0) k), sym m_user ∙ sym (ap (λ x. x.1) k))
    | inr e ↦ (rw e, rw e)
  ]

  after-admin : (r : TeamMember) → r.is_admin ≡ true → (after r).is_admin ≡ true
  after-admin r h = ground arith

  Keyed-after :
      MembersKeyed (update_where is_found (set_admin team_id user_id) s.members) s.next_member
  Keyed-after =
      Keyed-update_where (λ r. r.id) membership_of is_found (set_admin team_id user_id) s.members
        s.next_member after-id
        (λ a b ra rb _ k.
          let (ta, ua) = after-same a ra in
          let (tb, ub) = after-same b rb in cc (ta, ua, tb, ub, k))
        keyed

  IsAdmin-after :
      (i : ℕ) (u : String)
      → IsAdmin s.members i u
      → IsAdmin (update_where is_found (set_admin team_id user_id) s.members) i u
  IsAdmin-after i u (r, row, e, k, a) =
      let (t, v) = after-same r row in
      (
        after r,
        Member-update_where is_found (set_admin team_id user_id) s.members r row,
        t ∙ e,
        v ∙ k,
        after-admin r a,
      )

pub save_admin-IsSaved :
    (s : Tables) (team_id : ℕ) (user_id : String)
    → MembersKeyed s.members s.next_member
    → IsSaved s team_id user_id
        (save_admin team_id user_id (find (is_membership team_id user_id) s.members) s)
unfolding save_admin
save_admin-IsSaved s team_id user_id keyed =
    elim (Option-cases (find (is_membership team_id user_id) s.members)) [
      | inl missing ↦
          let row : TeamMember = new_admin s.next_member team_id user_id in
          rw missing (
            refl,
            refl,
            refl,
            Keyed-new (λ r. r.id) membership_of s.members s.next_member row keyed refl,
            (row, Member-append_right s.members (row ∷ []) row here, refl, refl, refl),
            IsAdmin-append s.members (row ∷ []),
          )
      | inr (m, e) ↦
          let (found, own) = find-some (is_membership team_id user_id) s.members m e in
          let (t, u) = membership team_id user_id m own in
          let i : nat_eq m.id m.id ≡ true = ground arith in
          let kept =
            Member-update_where (λ r. nat_eq r.id m.id) (set_admin team_id user_id) s.members m
              found in
          rw e (
            refl,
            refl,
            refl,
            Keyed-after s team_id user_id m keyed found t u,
            (set_admin team_id user_id m, rw i at kept, refl, refl, refl),
            IsAdmin-after s team_id user_id m keyed found t u,
          )
    ]
