-- ===== src/LeaderElection/Race.antt =====
-- Two electors at once (crates/leader-election/src/lib.rs, `acquire_leadership`): the time to live
-- passes between the GET of one elector and its EXPIRE.
use jiascheduler.Base.{ℕ, ◌≡◌, Option, String, some, List}
use jiascheduler.LeaderElection.Steps.{Grant, World, Reach}
use jiascheduler.LeaderElection.{LeaderElection, Redis, Command}

-- A world that can be reached, by what Redis holds, the next commands of two electors, and the leases.
abbrev At : ℕ → String → String → Redis → Command → Command → List Grant → Type 0
At ttl a b redis of_a of_b grants =
    (w : World) × Reach ttl w
    × (w.redis ≡ redis)
    × (w.next a ≡ of_a)
    × (w.next b ≡ of_b)
    × (w.grants ≡ grants)

abbrev held : ℕ → String → Option ℕ → Redis
held now id deadline = record {
  now = now;
  key = some (record { holder = id; deadline = deadline });
}

abbrev lease : String → ℕ → Grant
lease id until = record { id = id; until = until }
