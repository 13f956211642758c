-- ===== src/LeaderElection/Known.antt =====
-- What the commands of an attempt do (crates/leader-election/src/lib.rs, `acquire_leadership`), and
-- what an elector knows of the key before its EXPIRE.
use jiascheduler.Base.{
  ℕ, ◌+◌, ◌≡◌, ◌⊎◌, ◌∙◌, ap, sym, refl, String, ◌==◌, eq_iff, Bool, true, false, none, some,
  Bool-cases, Option-cases, inl, inr, arith,
}
use jiascheduler.LeaderElection.Steps.{
  World, set_at, next_of, with_ttl, Step, reply, lose, fail, wait, Reach, start, step,
}
use jiascheduler.LeaderElection.{
  LeaderElection, Key, Redis, Command, send_set_nx, send_get, send_expire, Progress, send, answer,
  get_key, is_held_by, acquire_leadership,
}

-- SETNX takes a key that has gone, and changes nothing else.
pub set_nx-cases :
    (self : LeaderElection) (r : Redis)
    → ((get_key r ≡ none)
        × (acquire_leadership self send_set_nx r ≡ (
          send send_expire,
          record r { key = some (record { holder = self.id; deadline = none }) },
        )))
      ⊎ (acquire_leadership self send_set_nx r ≡ (send send_get, r))
unfolding acquire_leadership
set_nx-cases self r = elim (Option-cases (get_key r)) [
  | inl gone ↦ inl (gone, ground arith)
  | inr (key, e) ↦ inr (ground arith)
]

-- EXPIRE puts off the end of the key that is there.
pub expire-cases :
    (self : LeaderElection) (r : Redis)
    → ((get_key r ≡ none) × (acquire_leadership self send_expire r ≡ (answer true, r)))
      ⊎ ((key : Key) × (get_key r ≡ some key)
          × (acquire_leadership self send_expire r ≡ (
            answer true,
            record r { key = some (record key { deadline = some (r.now + self.ttl) }) },
          )))
unfolding acquire_leadership
expire-cases self r = elim (Option-cases (get_key r)) [
  | inl gone ↦ inl (gone, ground arith)
  | inr (key, e) ↦ inr (key, e, ground arith)
]

pub get_reply : (self : LeaderElection) (r : Redis) → ((acquire_leadership self send_get r).1 ≡ r)
unfolding acquire_leadership
get_reply self r = refl

next-get :
    (self : LeaderElection) (r : Redis)
    → is_held_by self.id (get_key r) ≡ false
    → next_of (acquire_leadership self send_get r).0 ≡ send_set_nx
unfolding acquire_leadership
next-get self r other = rw other refl

next-expire :
    (self : LeaderElection) (r : Redis)
    → next_of (acquire_leadership self send_expire r).0 ≡ send_set_nx
unfolding acquire_leadership
next-expire self r = refl

-- An attempt only sends EXPIRE when the reply before says that it holds the key.
next_of-is_held_by :
    (self : LeaderElection) (command : Command) (r : Redis)
    → next_of (acquire_leadership self command r).0 ≡ send_expire
    → is_held_by self.id (get_key (acquire_leadership self command r).1) ≡ true
next_of-is_held_by self send_set_nx r e = elim (set_nx-cases self r) [
  | inl (gone, q) ↦ rw (q, (eq_iff self.id self.id).1 refl) refl
  | inr q ↦
      let no : send_get ≡ send_expire = ap (λ (x : Progress × Redis). next_of x.0) (sym q) ∙ e in
      cc no
]
next_of-is_held_by self send_get r e = elim (Bool-cases (is_held_by self.id (get_key r))) [
  | inl own ↦ rw (get_reply self r) own
  | inr other ↦ let no : send_set_nx ≡ send_expire = sym (next-get self r other) ∙ e in cc no
]
next_of-is_held_by self send_expire r e =
    let no : send_set_nx ≡ send_expire = sym (next-expire self r) ∙ e in cc no

abbrev pub AllKnown : World → Type 0
AllKnown w = (id : String) → w.next id ≡ send_expire → w.held id ≡ true

-- An elector whose attempt begins again is not about to send EXPIRE.
restarted-AllKnown :
    (id : String) (next : String → Command) (held : String → Bool)
    → ((x : String) → next x ≡ send_expire → held x ≡ true)
    → (x : String) → set_at id send_set_nx next x ≡ send_expire
    → held x ≡ true
restarted-AllKnown id next held h x = elim (Bool-cases (x == id)) [
  | inl same ↦ rw same (λ e. cc e)
  | inr other ↦ rw other (h x)
]

step-AllKnown : (ttl : ℕ) {w v : World} → Step ttl w v → AllKnown w → AllKnown v
step-AllKnown ttl (reply id w) h = λ x. elim (Bool-cases (x == id)) [
  | inl same ↦ rw same (next_of-is_held_by (with_ttl ttl id) (w.next id) w.redis)
  | inr other ↦ rw other (h x)
]
step-AllKnown ttl (lose id w) h = restarted-AllKnown id w.next w.held h
step-AllKnown ttl (fail id w) h = restarted-AllKnown id w.next w.held h
step-AllKnown ttl (wait seconds w) h = h

pub Reach-AllKnown : (ttl : ℕ) {w : World} → Reach ttl w → AllKnown w
Reach-AllKnown ttl (start now) = λ id e. cc e
Reach-AllKnown ttl (step reached s) = step-AllKnown ttl s (Reach-AllKnown ttl reached)
