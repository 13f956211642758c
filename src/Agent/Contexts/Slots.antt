-- ===== src/Agent/Contexts/Slots.antt =====
-- The bound on parallel runs, over every interleaving of the methods of `React` that
-- automate/src/scheduler/scheduler.rs calls for a run: `can_execute`, `set_execute_context` and
-- `end_execute`. Each of them holds the lock of the table from its first line to its last.
use jiascheduler.Base.{
  ℕ, ◌<◌, ◌≡◌, ◌↔◌, true, false, String, eq_iff, ok, List, [], ◌∷◌, ◌++◌, count_if, count_if-append,
  arith, ap, get,
}
use jiascheduler.Agent.JobAction.{JobAction}
use jiascheduler.Agent.Messages.{DispatchJobParams}
use jiascheduler.Agent.Contexts.{
  Contexts, Channel, u32_mod, max_parallel, can_execute, set_execute_context, end_execute,
}
use jiascheduler.Agent.Contexts.Counting.{
  running, same_kind, is_run_of, running-can_execute, running-set_execute_context,
  running-end_execute, had_room, can_execute-room,
}

-- The table, and the runs that were admitted and have not ended.
pub record World : Type 0 where
  pub contexts : Contexts
  pub live : List DispatchJobParams

abbrev pub idle : World
idle = record { contexts = []; live = [] }

-- `max_parallel` is a `u32` of the message.
pub data Step (w u : World) : Type 0 where
  begin :
      (p : DispatchJobParams) (after : Contexts)
      → max_parallel p < u32_mod
      → can_execute p w.contexts ≡ ok after
      → u ≡ record { contexts = after; live = p ∷ w.live }
      → Step w u
  register :
      (p : DispatchJobParams) (fresh : String) (tx : Channel) (after : Contexts × String)
      → set_execute_context p fresh tx w.contexts ≡ ok after
      → u ≡ record w { contexts = after.0 }
      → Step w u
  finish :
      (earlier : List DispatchJobParams) (p : DispatchJobParams) (later : List DispatchJobParams)
      (after : Contexts)
      → w.live ≡ earlier ++ (p ∷ later)
      → end_execute p w.contexts ≡ ok after
      → u ≡ record { contexts = after; live = earlier ++ later }
      → Step w u
  -- A supervised run, which `can_execute` never counted.
  finish_supervised :
      (p : DispatchJobParams) (after : Contexts)
      → p.action ≡ JobAction.start_supervising
      → end_execute p w.contexts ≡ ok after
      → u ≡ record w { contexts = after }
      → Step w u

pub data Reach (w : World) : World → Type 0 where
  here : Reach w w
  next : {t u : World} → Reach w t → Step t u → Reach w u

abbrev pub live_runs : JobAction → String → World → ℕ
live_runs action eid w = count_if (is_run_of action eid) w.live

-- The table counts the live runs, and no counter has wrapped.
pub record Counted (w : World) (action : JobAction) (eid : String) : Type 0 where
  pub exact : running action eid w.contexts ≡ live_runs action eid w
  pub in_range : running action eid w.contexts < u32_mod

is_run_of-eq :
    (p : DispatchJobParams) (action : JobAction) (eid : String) (contexts : Contexts)
    → is_run_of action eid p ≡ true
    → running action eid contexts ≡ running p.action p.base_job.eid contexts
is_run_of-eq p action eid contexts h = ground (arith, eq_iff p.base_job.eid eid)

begin-Counted :
    (w : World) (p : DispatchJobParams) (after : Contexts) (action : JobAction) (eid : String)
    → max_parallel p < u32_mod
    → can_execute p w.contexts ≡ ok after
    → Counted w action eid
    → Counted (record { contexts = after; live = p ∷ w.live }) action eid
begin-Counted w p after action eid bound h c = ground (
  arith,
  running-can_execute p w.contexts after action eid bound h,
  had_room p w.contexts after h,
  is_run_of-eq p action eid w.contexts,
)

finish-Counted :
    (w : World) (earlier later : List DispatchJobParams) (p : DispatchJobParams) (after : Contexts)
    (action : JobAction) (eid : String)
    → w.live ≡ earlier ++ (p ∷ later)
    → end_execute p w.contexts ≡ ok after
    → Counted w action eid
    → Counted (record { contexts = after; live = earlier ++ later }) action eid
finish-Counted w earlier later p after action eid split h c =
    let was = ap (count_if (is_run_of action eid)) split in
    let counts = count_if-append (is_run_of action eid) earlier (p ∷ later) in
    let left = count_if-append (is_run_of action eid) earlier later in
    let n =
      running-end_execute p w.contexts after action eid h (omega (arith, was, counts)) c.in_range in
    record { exact = omega (arith, was, counts, left, n); in_range = omega (arith, n) }

finish_supervised-Counted :
    (w : World) (p : DispatchJobParams) (after : Contexts) (action : JobAction) (eid : String)
    → p.action ≡ JobAction.start_supervising
    → end_execute p w.contexts ≡ ok after
    → Counted w action eid
    → Counted (record w { contexts = after }) action eid
finish_supervised-Counted w p after action eid daemon h c =
    let none_counted : is_run_of action eid p ≡ false = ground arith in
    let n =
      running-end_execute p w.contexts after action eid h (rw none_counted (omega arith))
        c.in_range in
    ground (arith, n, none_counted)

step-Counted :
    {w u : World} (action : JobAction) (eid : String)
    → Step w u
    → Counted w action eid
    → Counted u action eid
step-Counted {w} {u} action eid (begin p after bound h e) c =
    rw e (begin-Counted w p after action eid bound h c)
step-Counted {w} {u} action eid (register p fresh tx after h e) c =
    ground (arith, running-set_execute_context p fresh tx w.contexts after action eid h)
step-Counted {w} {u} action eid (finish earlier p later after split h e) c =
    rw e (finish-Counted w earlier later p after action eid split h c)
step-Counted {w} {u} action eid (finish_supervised p after daemon h e) c =
    rw e (finish_supervised-Counted w p after action eid daemon h c)

-- In every world that the methods reach from the empty table, the counter of each job and kind is
-- the number of its runs that were admitted and have not ended, and it has not wrapped.
pub Reach-Counted :
    {w : World} (action : JobAction) (eid : String) → Reach idle w → Counted w action eid
unfolding get
Reach-Counted action eid here = ground arith
Reach-Counted action eid (next r s) = step-Counted action eid s (Reach-Counted action eid r)

-- In every reachable world a one-off or timer run is admitted exactly when fewer runs of its job
-- and kind are live than its bound allows.
pub admitted_iff_room :
    {w : World} (p : DispatchJobParams)
    → Reach idle w
    → same_kind p.action p.action ≡ true
    → ((after : Contexts) × (can_execute p w.contexts ≡ ok after))
      ↔ (live_runs p.action p.base_job.eid w < max_parallel p)
admitted_iff_room {w} p r counted =
    let c = Reach-Counted p.action p.base_job.eid r in
    (
      λ a. omega (arith, had_room p w.contexts a.0 a.1, c.exact),
      λ room. can_execute-room p w.contexts counted (omega (arith, c.exact)),
    )
