-- ===== src/LeaderElection/Steps.antt =====
-- Electors that share a key (crates/leader-election/src/lib.rs, `acquire_leadership`): what each sends
-- next, the leases that they were given, and the steps between two of them.
use jiascheduler.Base.{
  ℕ, ◌+◌, String, ◌==◌, Bool, true, false, not, ◌||◌, ◌&&◌, if◌then◌else◌, none, List, [], ◌∷◌,
}
use jiascheduler.LeaderElection.{
  LeaderElection, Redis, Command, send_set_nx, send_expire, Progress, send, answer, get_key,
  is_held_by, acquire_leadership,
}

-- A lease that an elector was given: its id, and when it ends.
pub record Grant : Type 0 where
  pub id : String
  pub until : ℕ

-- `next` is the command that each elector sends next, and `held` whether it held the key when its
-- last command with a reply had been carried out. `late` is whether an EXPIRE has reached Redis from
-- an elector that held the key then and did not hold it any more.
pub record World : Type 0 where
  pub redis : Redis
  pub next : String → Command
  pub held : String → Bool
  pub grants : List Grant
  pub late : Bool

abbrev pub set_at : {A : Type 0} → String → A → (String → A) → String → A
set_at id x f other = if other == id then x else f other

-- An attempt that is over begins again.
abbrev pub next_of : Progress → Command
next_of (send command) = command
next_of (answer acquired) = send_set_nx

abbrev pub granted : LeaderElection → ℕ → Progress → List Grant → List Grant
granted self now (answer true) grants = record { id = self.id; until = now + self.ttl } ∷ grants
granted self now _ grants = grants

-- An EXPIRE on a key that the elector held, and does not hold any more.
abbrev pub is_late : LeaderElection → Command → Bool → Redis → Bool
is_late self send_expire held r = held && not (is_held_by self.id (get_key r))
is_late self _ held r = false

-- A command is carried out, and its reply arrives.
abbrev pub replied : LeaderElection → World → World
replied self w =
    let command = w.next self.id in
    let (progress, after) = acquire_leadership self command w.redis in
    record {
      redis = after;
      next = set_at self.id (next_of progress) w.next;
      held = set_at self.id (is_held_by self.id (get_key after)) w.held;
      grants = granted self w.redis.now progress w.grants;
      late = w.late || is_late self command (w.held self.id) w.redis;
    }

-- A command is carried out, and its reply is lost.
abbrev pub lost : LeaderElection → World → World
lost self w =
    let command = w.next self.id in
    record w {
      redis = (acquire_leadership self command w.redis).1;
      next = set_at self.id send_set_nx w.next;
      late = w.late || is_late self command (w.held self.id) w.redis;
    }

-- A command does not reach Redis.
abbrev pub failed : LeaderElection → World → World
failed self w = record w { next = set_at self.id send_set_nx w.next }

abbrev pub after_wait : ℕ → World → World
after_wait seconds w = record w { redis = record w.redis { now = w.redis.now + seconds } }

abbrev pub with_ttl : ℕ → String → LeaderElection
with_ttl ttl id = record { id = id; ttl = ttl }

-- An elector with this time to live sends its next command, or time goes by.
pub data Step (ttl : ℕ) : World → World → Type 0 where
  reply : (id : String) (w : World) → Step ttl w (replied (with_ttl ttl id) w)
  lose : (id : String) (w : World) → Step ttl w (lost (with_ttl ttl id) w)
  fail : (id : String) (w : World) → Step ttl w (failed (with_ttl ttl id) w)
  wait : (seconds : ℕ) (w : World) → Step ttl w (after_wait seconds w)

abbrev pub begin : ℕ → World
begin now = record {
  redis = record { now = now; key = none };
  next = λ id. send_set_nx;
  held = λ id. false;
  grants = [];
  late = false;
}

pub data Reach (ttl : ℕ) : World → Type 0 where
  start : (now : ℕ) → Reach ttl (begin now)
  step : {w v : World} → Reach ttl w → Step ttl w v → Reach ttl v
