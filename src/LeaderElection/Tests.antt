-- ===== src/LeaderElection/Tests.antt =====
-- The theorems about crates/leader-election/src/lib.rs at concrete inputs.
use jiascheduler.Base.{refl, String, subst, sym, ◌≡◌, true, false, ok, err, [], ◌∷◌, Member, arith}
use jiascheduler.LeaderElection.{LeaderElection, acquire_leadership, run_election}
use jiascheduler.LeaderElection.Steps.{
  Grant, World, replied, with_ttl, after_wait, begin, reply, wait, Reach, start, step,
}
use jiascheduler.LeaderElection.Lease.{one_leader}
use jiascheduler.LeaderElection.Callbacks.{Alternates, run_election-Alternates}

abbrev elector : LeaderElection
elector = record { id = "a"; ttl = 10 }

run_election-Alternates_example :
    Alternates false
      (run_election elector false (ok true ∷ err "timeout" ∷ ok true ∷ ok false ∷ []))
run_election-Alternates_example =
    run_election-Alternates elector false (ok true ∷ err "timeout" ∷ ok true ∷ ok false ∷ [])

-- The elector takes the key, and five seconds later puts off its end.
abbrev a_replied : World → World
a_replied = replied (with_ttl 10 "a")

abbrev led : World
led = a_replied (a_replied (begin 100))

led_reached : Reach 10 led
led_reached = step (step (start 100) (reply "a" (begin 100))) (reply "a" (a_replied (begin 100)))

abbrev asked : World
asked = a_replied (a_replied (after_wait 5 led))

asked_reached : Reach 10 asked
asked_reached =
    step (step (step led_reached (wait 5 led)) (reply "a" (after_wait 5 led)))
      (reply "a" (a_replied (after_wait 5 led)))

abbrev renewed : World
renewed = a_replied asked

renewed_reached : Reach 10 renewed
renewed_reached = step asked_reached (reply "a" asked)

abbrev lease_of_a : Grant
lease_of_a = record { id = "a"; until = 110 }

abbrev renewed_lease : Grant
renewed_lease = record { id = "a"; until = 115 }

on_time : renewed.late ≡ false
unfolding acquire_leadership
on_time = refl

renewed_grants : renewed.grants ≡ renewed_lease ∷ lease_of_a ∷ []
unfolding acquire_leadership
renewed_grants = refl

renewed_now : renewed.redis.now ≡ 105
unfolding acquire_leadership
renewed_now = refl

one_leader_example : renewed_lease.id ≡ lease_of_a.id
one_leader_example =
    one_leader 10 renewed renewed_lease lease_of_a renewed_reached on_time
      (subst (Member renewed_lease) (sym renewed_grants) Member.here)
      (subst (Member lease_of_a) (sym renewed_grants) (Member.there Member.here))
      (omega (arith, renewed_now)) (omega (arith, renewed_now))

abbrev other_id : String
other_id = "b"
