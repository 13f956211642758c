-- ===== src/Service/RateLimiter/Grants.antt =====
-- How often the rate limiter grants a call (crates/service/src/state.rs).
use Prim.Native.Nat.mul
use jiascheduler.Base.{
  ℕ, ◌+◌, ◌*◌, ◌-◌, ◌≤◌, ◌≡◌, ◌≢◌, inl, inr, leb, true, some, List, [], ◌∷◌, length, Member,
  Member-cons, subst, Bool-cases, arith,
}
use jiascheduler.Service.RateLimiter.{RateLimiter, from_secs, new, can_execute, granted}

-- The instants come in their order, from this one on, and up to another.
abbrev pub IsOrdered : ℕ → List ℕ → ℕ → Type 0
IsOrdered from [] until = from ≤ until
IsOrdered from (now ∷ calls) until = (from ≤ now) × IsOrdered now calls until

IsOrdered-le : (calls : List ℕ) (from until : ℕ) → IsOrdered from calls until → from ≤ until
IsOrdered-le [] from until o = o
IsOrdered-le (now ∷ calls) from until (early, later) =
    let later' = IsOrdered-le calls now until later in omega arith

granted-bounded :
    (calls : List ℕ) (from until : ℕ) (self : RateLimiter)
    → self.last_executed ≤ from
    → IsOrdered from calls until
    → self.last_executed + length (granted calls self) * self.interval ≤ until
unfolding granted can_execute
granted-bounded [] from until self h o = omega (arith, mul.zero self.interval)
granted-bounded (now ∷ calls) from until self h (early, later) =
    elim (Bool-cases (leb self.interval (now - self.last_executed))) [
      | inl e ↦
          let after : RateLimiter = record self { last_executed = now } in
          let ih = granted-bounded calls now until after (omega arith) later in
          let waited : self.interval ≤ now - self.last_executed = ground arith in
          let one_more = mul.suc (length (granted calls after)) self.interval in
          rw e (omega (arith, ih, waited, one_more, h, early))
      | inr e ↦ rw e (granted-bounded calls now until self (omega (arith, h, early)) later)
    ]

-- From the making of a limiter on, up to any instant, the number of granted calls, one of them not
-- counted, times the interval is at most the time that has passed.
pub new-granted-bounded :
    (interval_secs now until : ℕ) (self : RateLimiter) (calls : List ℕ)
    → new interval_secs now ≡ some self
    → IsOrdered now calls until
    → length (granted calls self) * from_secs interval_secs
      ≤ (until - now) + from_secs interval_secs
unfolding new
new-granted-bounded interval_secs now until self calls made o =
    elim (Bool-cases (leb (from_secs interval_secs) now)) [
      | inl e ↦
          let fresh : RateLimiter = record {
            last_executed = now - from_secs interval_secs;
            interval = from_secs interval_secs;
          } in
          let same : fresh ≡ self = cc (rw e at made) in
          let room : from_secs interval_secs ≤ now = ground arith in
          let bound = granted-bounded calls now until fresh (omega arith) o in
          let ends : now ≤ until = IsOrdered-le calls now until o in
          subst
            (λ (l : RateLimiter).
              length (granted calls l) * from_secs interval_secs
              ≤ (until - now) + from_secs interval_secs)
            same (omega (arith, bound, room, ends))
      | inr e ↦ cc (rw e at made)
    ]

-- Of calls, one of them at least an interval after the limiter's last
-- grant, at least one is granted.
pub granted-some :
    (calls : List ℕ) (now : ℕ) (self : RateLimiter)
    → Member now calls
    → self.last_executed + self.interval ≤ now
    → granted calls self ≢ []
unfolding granted can_execute
granted-some [] now self m h = elim m [ ]
granted-some (t ∷ calls) now self m h =
    elim (Bool-cases (leb self.interval (t - self.last_executed))) [
      | inl e ↦ rw e (λ k. cc)
      | inr e ↦ elim (Member-cons t calls now m) [
        | inl same ↦
            let in_time : leb self.interval (t - self.last_executed) ≡ true =
              ground (arith, same) in
            cc (e, in_time)
        | inr later ↦ rw e (granted-some calls now self later h)
      ]
    ]
