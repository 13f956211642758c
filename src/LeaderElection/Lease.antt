-- ===== src/LeaderElection/Lease.antt =====
-- The leases of the electors (crates/leader-election/src/lib.rs, `acquire_leadership`).
use jiascheduler.Base.{
  ℕ, ◌+◌, ◌≤◌, ◌<◌, ◌≡◌, ◌∙◌, ap, not, ◌||◌, ◌&&◌, sym, subst, Member-cons, refl, String, eq_iff,
  Bool, true, false, none, some, Option, List, ◌∷◌, Member, Bool-cases, inl, inr, arith,
}
use jiascheduler.LeaderElection.Known.{
  set_nx-cases, expire-cases, get_reply, AllKnown, Reach-AllKnown,
}
use jiascheduler.LeaderElection.Steps.{
  Grant, World, granted, is_late, with_ttl, Step, reply, lose, fail, wait, Reach, start, step,
}
use jiascheduler.LeaderElection.{
  LeaderElection, Key, Redis, Command, send_set_nx, send_get, send_expire, get_key, is_held_by,
  acquire_leadership,
}

-- The key that a live lease stands on: it has the lease's holder, and does not expire before it.
abbrev Holds : Redis → Grant → Type 0
Holds r g =
    (key : Key) × (d : ℕ) × (r.key ≡ some key)
    × (key.holder ≡ g.id)
    × (key.deadline ≡ some d)
    × (g.until ≤ d)

abbrev Backed : ℕ → Redis → Grant → Type 0
Backed ttl r g = (g.until ≤ r.now + ttl) × (r.now < g.until → Holds r g)

abbrev AllBacked : ℕ → World → Type 0
AllBacked ttl w = (g : Grant) → Member g w.grants → Backed ttl w.redis g

-- A live lease's key has not expired.
holds-get_key :
    (r : Redis) (g : Grant) (key : Key) (d : ℕ)
    → r.key ≡ some key
    → key.deadline ≡ some d
    → g.until ≤ d
    → r.now < g.until
    → get_key r ≡ some key
holds-get_key r g key d e f le live = ground arith

-- No lease is live when the key has gone.
dead : (ttl : ℕ) (r : Redis) (g : Grant) → get_key r ≡ none → Backed ttl r g → ¬ (r.now < g.until)
dead ttl r g gone (near, backed) live =
    let (key, d, e, f, dl, le) = backed live in
    let there_ = holds-get_key r g key d e dl le live in cc (gone, there_)

-- Every command leaves every lease backed: SETNX only takes a key that has gone, and EXPIRE puts
-- the end of the key behind every lease.
command-Backed :
    (self : LeaderElection) (command : Command) (r : Redis) (g : Grant)
    → Backed self.ttl r g
    → Backed self.ttl (acquire_leadership self command r).1 g
command-Backed self send_set_nx r g h = elim (set_nx-cases self r) [
  | inl (gone, e) ↦ rw e (h.0, λ live. absurd (dead self.ttl r g gone h live))
  | inr e ↦ rw e h
]
command-Backed self send_get r g h = rw (get_reply self r) h
command-Backed self send_expire r g h = elim (expire-cases self r) [
  | inl (gone, e) ↦ rw e h
  | inr (key, e, after) ↦ rw after (
    h.0,
    λ live.
        let (own, d, stored, f, dl, le) = h.1 live in
        let alive = holds-get_key r g own d stored dl le live in
        let same : own ≡ key = cc (alive, e) in
        (
          record key { deadline = some (r.now + self.ttl) },
          r.now + self.ttl,
          refl,
          ap (λ (k : Key). k.holder) (sym same) ∙ f,
          refl,
          h.0,
        ),
  )
]

left-known : (a b : Bool) → a ≡ true → (a && not b) ≡ false → b ≡ true
left-known true true e h = refl
left-known true false e h = cc h
left-known false b e h = cc e

or-false : (a b : Bool) → (a || b) ≡ false → (a ≡ false) × (b ≡ false)
or-false true b h = cc h
or-false false b h = (refl, h)

held-holder :
    (id : String) (found : Option Key) (key : Key)
    → is_held_by id found ≡ true
    → found ≡ some key
    → key.holder ≡ id
held-holder id none key h e = cc e
held-holder id (some k) key h e =
    let same : k ≡ key = cc e in ap (λ (x : Key). x.holder) (sym same) ∙ (eq_iff k.holder id).0 h

-- The lease that an EXPIRE by the holder gives.
new-Backed :
    (self : LeaderElection) (r : Redis)
    → is_held_by self.id (get_key r) ≡ true
    → Backed self.ttl
        (acquire_leadership self send_expire r).1
        (record { id = self.id; until = r.now + self.ttl })
new-Backed self r held = elim (expire-cases self r) [
  | inl (gone, e) ↦ let no : false ≡ true = ap (is_held_by self.id) (sym gone) ∙ held in cc no
  | inr (key, e, after) ↦
      let own = held-holder self.id (get_key r) key held e in
      rw after (
        omega arith,
        λ live. (
          record key { deadline = some (r.now + self.ttl) },
          r.now + self.ttl,
          refl,
          own,
          refl,
          omega arith,
        ),
      )
]

-- Only an EXPIRE gives a lease.
granted-set_nx :
    (self : LeaderElection) (r : Redis) (grants : List Grant)
    → granted self r.now (acquire_leadership self send_set_nx r).0 grants ≡ grants
granted-set_nx self r grants = elim (set_nx-cases self r) [
  | inl (gone, e) ↦ rw e refl
  | inr e ↦ rw e refl
]

granted-get :
    (self : LeaderElection) (r : Redis) (grants : List Grant)
    → granted self r.now (acquire_leadership self send_get r).0 grants ≡ grants
unfolding acquire_leadership
granted-get self r grants = elim (Bool-cases (is_held_by self.id (get_key r))) [
  | inl held ↦ rw held refl
  | inr other ↦ rw other refl
]

granted-expire :
    (self : LeaderElection) (r : Redis) (grants : List Grant)
    → granted self r.now (acquire_leadership self send_expire r).0 grants
      ≡ record { id = self.id; until = r.now + self.ttl } ∷ grants
unfolding acquire_leadership
granted-expire self r grants = refl

granted-Backed :
    (self : LeaderElection) (command : Command) (held : Bool) (r : Redis) (grants : List Grant)
    → (command ≡ send_expire → held ≡ true)
    → is_late self command held r ≡ false
    → ((g : Grant) → Member g grants → Backed self.ttl r g)
    → (g : Grant) → Member g (granted self r.now (acquire_leadership self command r).0 grants)
    → Backed self.ttl (acquire_leadership self command r).1 g
granted-Backed self send_set_nx held r grants knew on_time h g m =
    command-Backed self send_set_nx r g
      (h g (subst (λ gs. Member g gs) (granted-set_nx self r grants) m))
granted-Backed self send_get held r grants knew on_time h g m =
    command-Backed self send_get r g (h g (subst (λ gs. Member g gs) (granted-get self r grants) m))
granted-Backed self send_expire held r grants knew on_time h g m =
    let lease : Grant = record { id = self.id; until = r.now + self.ttl } in
    let m' = subst (λ gs. Member g gs) (granted-expire self r grants) m in
    elim (Member-cons lease grants g m') [
      | inl new ↦
          subst (λ x. Backed self.ttl (acquire_leadership self send_expire r).1 x) new
            (new-Backed self r
              (left-known held (is_held_by self.id (get_key r)) (knew refl) on_time))
      | inr old ↦ command-Backed self send_expire r g (h g old)
    ]

step-AllBacked :
    (ttl : ℕ) {w v : World}
    → Step ttl w v
    → AllKnown w
    → (w.late ≡ false → AllBacked ttl w)
    → v.late ≡ false
    → AllBacked ttl v
step-AllBacked ttl (reply id w) known h on_time =
    let (before, now_) = or-false w.late _ on_time in
    granted-Backed (with_ttl ttl id) (w.next id) (w.held id) w.redis w.grants (known id) now_
      (h before)
step-AllBacked ttl (lose id w) known h on_time =
    let (before, _) = or-false w.late _ on_time in
    λ g m. command-Backed (with_ttl ttl id) (w.next id) w.redis g (h before g m)
step-AllBacked ttl (fail id w) known h on_time = h on_time
step-AllBacked ttl (wait seconds w) known h on_time = λ g m.
    let (near, backed) = h on_time g m in
    (omega (arith, near), λ live. backed (omega (arith, live)))

Reach-AllBacked : (ttl : ℕ) {w : World} → Reach ttl w → w.late ≡ false → AllBacked ttl w
Reach-AllBacked ttl (start now) on_time = λ g m. elim m [ ]
Reach-AllBacked ttl (step reached s) on_time =
    step-AllBacked ttl s (Reach-AllKnown ttl reached) (Reach-AllBacked ttl reached) on_time

-- Electors with the same time to live send their commands one by one, in any order, with lost
-- commands and replies and with time between them. As long as no EXPIRE has reached Redis from an
-- elector that held the key when its command before was carried out and did not hold it any more,
-- two leases that have not ended belong to the same elector.
pub one_leader :
    (ttl : ℕ) (w : World) (g h : Grant)
    → Reach ttl w
    → w.late ≡ false
    → Member g w.grants
    → Member h w.grants
    → w.redis.now < g.until
    → w.redis.now < h.until
    → g.id ≡ h.id
one_leader ttl w g h reached on_time mg mh lg lh =
    let (k1, d1, e1, f1, _, _) = (Reach-AllBacked ttl reached on_time g mg).1 lg in
    let (k2, d2, e2, f2, _, _) = (Reach-AllBacked ttl reached on_time h mh).1 lh in cc
