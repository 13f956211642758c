-- ===== src/LeaderElection/Callbacks.antt =====
-- The callback of an elector (crates/leader-election/src/lib.rs, `run_election`).
use jiascheduler.Base.{◌≡◌, refl, String, Bool, true, false, not, List, [], ◌∷◌, Result, ok, err}
use jiascheduler.LeaderElection.{LeaderElection, run_election}

-- Each call tells the opposite of the one before it, the first the opposite of the start.
abbrev pub Alternates : Bool → List Bool → Type 0
Alternates last [] = Unit
Alternates last (b ∷ calls) = (b ≡ not last) × Alternates b calls

-- Whatever the attempts answer, the callback is only called on a change: its calls alternate,
-- beginning with the opposite of the state at the start.
pub run_election-Alternates :
    (self : LeaderElection) (is_leader : Bool) (attempts : List (Result String Bool))
    → Alternates is_leader (run_election self is_leader attempts)
unfolding run_election
run_election-Alternates self is_leader [] = tt
run_election-Alternates self is_leader (err e ∷ attempts) =
    run_election-Alternates self is_leader attempts
run_election-Alternates self true (ok true ∷ attempts) = run_election-Alternates self true attempts
run_election-Alternates self true (ok false ∷ attempts) =
    (refl, run_election-Alternates self false attempts)
run_election-Alternates self false (ok true ∷ attempts) =
    (refl, run_election-Alternates self true attempts)
run_election-Alternates self false (ok false ∷ attempts) =
    run_election-Alternates self false attempts
