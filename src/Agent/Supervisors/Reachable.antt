-- ===== src/Agent/Supervisors/Reachable.antt =====
-- The supervisors over every sequence of the requests that start, stop and restart them
-- (automate/src/scheduler/scheduler.rs).
use jiascheduler.Base.{◌≡◌, String, some, [], get, arith}
use jiascheduler.Base.State.{bind-Keeps}
use jiascheduler.Agent.Messages.{DispatchJobParams}
use jiascheduler.Agent.Contexts.{Contexts, Channel}
use jiascheduler.Agent.React.{Host}
use jiascheduler.Agent.Supervisors.{
  Supervisors, start_supervising, stop_supervising, restart_supervising,
}
use jiascheduler.Agent.Supervisors.Single.{
  IsLive, IsKept, start_supervising-IsKept, stop_supervising-IsKept,
}

abbrev pub nobody : Contexts → Supervisors
nobody contexts = record {
  jobs = [];
  tasks = [];
  signals = [];
  sent = [];
  contexts = contexts;
  killed = [];
}

-- One request, whatever it answers. `host` may differ from one to the next.
pub data Request : Supervisors → Supervisors → Type 0 where
  start :
      (host : Host) (tx : Channel) (params : DispatchJobParams) (s : Supervisors)
      → Request s (start_supervising host tx params s).1
  stop :
      (host : Host) (params : DispatchJobParams) (s : Supervisors)
      → Request s (stop_supervising host params s).1
  restart :
      (host : Host) (tx : Channel) (params : DispatchJobParams) (s : Supervisors)
      → Request s (restart_supervising host tx params s).1

pub data Reach : Supervisors → Type 0 where
  begin : (contexts : Contexts) → Reach (nobody contexts)
  next : {s t : Supervisors} → Reach s → Request s t → Reach t

restart_supervising-IsKept :
    (host : Host) (tx : Channel) (params : DispatchJobParams) (s : Supervisors)
    → IsKept s
    → IsKept (restart_supervising host tx params s).1
unfolding restart_supervising
restart_supervising-IsKept host tx params =
    bind-Keeps (λ s t. IsKept s → IsKept t) (λ s h. h) (λ s t u f g h. g (f h))
      (stop_supervising host params) (λ _. start_supervising host tx params)
      (stop_supervising-IsKept host params) (λ _. start_supervising-IsKept host tx params)

Reach-IsKept : (s : Supervisors) → Reach s → IsKept s
Reach-IsKept _ (begin contexts) = λ eid tx live. elim live.0 [ ]
Reach-IsKept _ (next r (start host tx params s)) =
    start_supervising-IsKept host tx params s (Reach-IsKept s r)
Reach-IsKept _ (next r (stop host params s)) =
    stop_supervising-IsKept host params s (Reach-IsKept s r)
Reach-IsKept _ (next r (restart host tx params s)) =
    restart_supervising-IsKept host tx params s (Reach-IsKept s r)

-- Over every sequence of requests that start, stop and restart supervisors, from none, two
-- supervisors of one job that were spawned and have not been told to exit have the same channel.
pub one_supervisor :
    (s : Supervisors) (eid : String) (a b : Channel)
    → Reach s
    → IsLive eid a s
    → IsLive eid b s
    → a ≡ b
one_supervisor s eid a b reached live_a live_b =
    let known : get eid s.jobs ≡ some a = Reach-IsKept s reached eid a live_a in
    let known' : get eid s.jobs ≡ some b = Reach-IsKept s reached eid b live_b in
    ground (arith, known, known')
