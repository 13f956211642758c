-- ===== src/LeaderElection.antt =====
-- crates/leader-election/src/lib.rs: the election of one leader by a key of Redis that expires.
-- Redis is a parameter by what its commands promise: SETNX, EXPIRE and GET on the one key, and a
-- clock in seconds. An attempt sends them one by one, and what other electors send, errors and the
-- passing of time may come between them.
pub mod Steps
pub mod Known
pub mod Lease
pub mod Race
pub mod Callbacks
mod Tests
use jiascheduler.Base.{
  ℕ, ◌+◌, ◌/◌, String, ◌==◌, Bool, true, false, if◌then◌else◌, Option, none, some, List, [], ◌∷◌,
  ◌++◌, Result, ok, err, ltb,
}

pub record LeaderElection : Type 0 where
  pub id : String
  pub ttl : ℕ

-- A key with no deadline does not expire.
pub record Key : Type 0 where
  pub holder : String
  pub deadline : Option ℕ

pub record Redis : Type 0 where
  pub now : ℕ
  pub key : Option Key

abbrev alive : ℕ → Key → Bool
alive now key = elim key.deadline [ none ↦ true | some d ↦ ltb now d ]

-- The key, unless it has expired.
abbrev pub get_key : Redis → Option Key
get_key r = elim r.key [ none ↦ none | some key ↦ if alive r.now key then some key else none ]

abbrev pub set_nx : String → Redis → Bool × Redis
set_nx id r = elim (get_key r) [
  | none ↦ (true, record r { key = some (record { holder = id; deadline = none }) })
  | some key ↦ (false, r)
]

abbrev pub expire : ℕ → Redis → Redis
expire ttl r = elim (get_key r) [
  | none ↦ r
  | some key ↦ record r { key = some (record key { deadline = some (r.now + ttl) }) }
]

abbrev pub is_held_by : String → Option Key → Bool
is_held_by id none = false
is_held_by id (some key) = key.holder == id

-- The command that an attempt sends next.
pub data Command : Type 0 where
  send_set_nx send_get send_expire : Command

-- After the reply to a command: the next one, or the attempt's answer. An error of a command ends
-- the attempt too, by `?`.
pub data Progress : Type 0 where
  send : Command → Progress
  answer : Bool → Progress

abbrev after_set_nx : Bool → Progress
after_set_nx true = send send_expire
after_set_nx false = send send_get

abbrev after_get : Bool → Progress
after_get true = send send_expire
after_get false = answer false

-- One command of an attempt, and what Redis holds afterwards.
unfoldable pub acquire_leadership : LeaderElection → Command → Redis → Progress × Redis
acquire_leadership self send_set_nx r =
    let (acquired, after) = set_nx self.id r in (after_set_nx acquired, after)
acquire_leadership self send_get r = (after_get (is_held_by self.id (get_key r)), r)
acquire_leadership self send_expire r = (answer true, expire self.ttl r)

-- What a round of `run_election` does after its attempt: the new state, the calls of the callback,
-- and the seconds of sleep.
pub record Round : Type 0 where
  pub is_leader : Bool
  pub calls : List Bool
  pub sleep : ℕ

abbrev same : Bool → Bool → Bool
same true b = b
same false true = false
same false false = true

unfoldable pub round : LeaderElection → Bool → Result String Bool → Round
round self is_leader (err e) = record { is_leader = is_leader; calls = []; sleep = 5 }
round self is_leader (ok acquired) = record {
  is_leader = acquired;
  calls = if same acquired is_leader then [] else acquired ∷ [];
  sleep = if acquired then self.ttl / 2 else 1;
}

-- The calls of the callback over the attempts of a run.
unfoldable pub run_election : LeaderElection → Bool → List (Result String Bool) → List Bool
unfolding round
run_election self is_leader [] = []
run_election self is_leader (attempt ∷ attempts) =
    let r = round self is_leader attempt in r.calls ++ run_election self r.is_leader attempts
