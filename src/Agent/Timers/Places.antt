-- ===== src/Agent/Timers/Places.antt =====
-- Whether a tick of a timer gives back the place that `can_execute` counted for it
-- (automate/src/scheduler/scheduler.rs, `start_timer`).
use jiascheduler.Base.{
  ℕ, ◌+◌, ◌<◌, ◌≡◌, ◌∙◌, refl, subst, ap, String, true, Option, none, some, Result, ok, err, get,
  insert, arith, eq_refl,
}
use jiascheduler.Agent.JobAction.{JobAction}
use jiascheduler.Agent.ScheduleType.{ScheduleType}
use jiascheduler.Agent.BaseJob.{BundleOutput}
use jiascheduler.Agent.Messages.{DispatchJobParams}
use jiascheduler.Agent.Contexts.{
  Contexts, Error, RunningJobContext, u32_mod, max_parallel, can_execute, end_execute, end_entry,
  leave,
}
use jiascheduler.Agent.Contexts.Counting.{
  running, is_run_of, running-can_execute, running-end_execute, had_room,
}
use jiascheduler.Agent.React.{React, Host, Fault, failed, refused, panicked}
use jiascheduler.Agent.Execution.{exec_job, register, finish, end_run}
use jiascheduler.Agent.Execution.Places.{register-running, exec_job-contexts}
use jiascheduler.Agent.Schedules.{JobScheduler}
use jiascheduler.Agent.Timers.{Tick, with_run_id, run_tick, admitted_tick, tick_after, on_tick}

leave-timer :
    (kind : JobAction) (run_id : String) (ctx : RunningJobContext)
    → kind ≡ JobAction.start_timer
    → (after : RunningJobContext) × (leave kind run_id ctx ≡ ok after)
unfolding leave
leave-timer JobAction.start_timer run_id ctx e = (_, refl)
leave-timer _ run_id ctx e = cc

end_entry-timer :
    (p : DispatchJobParams) (contexts : Contexts) (entry : Option RunningJobContext)
    → p.action ≡ JobAction.start_timer
    → (after : Contexts) × (end_entry p contexts entry ≡ ok after)
unfolding end_entry
end_entry-timer p contexts none e = (contexts, refl)
end_entry-timer p contexts (some ctx) e =
    let (after, left) = leave-timer p.action p.run_id ctx e in
    (insert p.base_job.eid after contexts, rw left)

-- The live runs of the job by its timer.
abbrev pub timer_runs : DispatchJobParams → React → ℕ
timer_runs p s = running JobAction.start_timer p.base_job.eid s.contexts

finish-timer :
    (p : DispatchJobParams) (s : React)
    → p.action ≡ JobAction.start_timer
    → 0 < timer_runs p s
    → timer_runs p s < u32_mod
    → ((finish p s).0 ≡ ok tt) × (timer_runs p (finish p s).1 + 1 ≡ timer_runs p s)
unfolding finish end_execute
finish-timer p s e live bound =
    let (after, ok_after) = end_entry-timer p s.contexts (get p.base_job.eid s.contexts) e in
    let counted : is_run_of JobAction.start_timer p.base_job.eid p ≡ true =
      ground (arith, eq_refl p.base_job.eid) in
    let less =
      running-end_execute p s.contexts after JobAction.start_timer p.base_job.eid ok_after
        (rw counted (omega arith)) bound in
    rw ok_after (refl, rw counted at less)

-- A place is kept by a tick whose task panics.
abbrev pub lost : Result Fault (Unit {0}) → ℕ
lost (ok _) = 0
lost (err _) = 1

end_run-timer :
    (p : DispatchJobParams) (r : Result Fault BundleOutput) (s : React)
    → p.action ≡ JobAction.start_timer
    → 0 < timer_runs p s
    → timer_runs p s < u32_mod
    → timer_runs p (end_run p (r, s)).1 + 1 ≡ timer_runs p s + lost (end_run p (r, s)).0
unfolding end_run
end_run-timer p (err panicked) s e live bound = refl
end_run-timer p (err (failed x)) s e live bound =
    let (done, after) = finish-timer p s e live bound in rw done (omega (arith, after))
end_run-timer p (err (refused x)) s e live bound =
    let (done, after) = finish-timer p s e live bound in rw done (omega (arith, after))
end_run-timer p (ok result) s e live bound =
    let (done, after) = finish-timer p s e live bound in rw done (omega (arith, after))

run_tick-timer :
    (host : Host) (tick : Tick) (next : Option ℕ) (p : DispatchJobParams) (s : React)
    → p.action ≡ JobAction.start_timer
    → 0 < timer_runs p s
    → timer_runs p s < u32_mod
    → timer_runs p (run_tick host tick next p s).1 + 1
      ≡ timer_runs p s + lost (run_tick host tick next p s).0
unfolding run_tick
run_tick-timer host tick next p s e live bound =
    let registered = (register p tick.fresh tick.tx s).1 in
    let ran =
      exec_job host p.base_job (some ScheduleType.timer) (some tick.now) next p registered in
    let same : timer_runs p ran.1 ≡ timer_runs p s =
      ap (running JobAction.start_timer p.base_job.eid) (
        exec_job-contexts host p.base_job (some ScheduleType.timer) (some tick.now) next p
          registered)
      ∙ register-running p tick.fresh tick.tx JobAction.start_timer p.base_job.eid s in
    let after =
      end_run-timer p ran.0 ran.1 e (omega (arith, same, live)) (omega (arith, same, bound)) in
    omega (arith, after, same)

admitted_tick-places :
    (host : Host) (tick : Tick) (answer : Result String (Option ℕ)) (p : DispatchJobParams)
    (s : React)
    → p.action ≡ JobAction.start_timer
    → 0 < timer_runs p s
    → timer_runs p s < u32_mod
    → timer_runs p (admitted_tick host tick answer p s).1 + 1
      ≡ timer_runs p s + lost (admitted_tick host tick answer p s).0
unfolding admitted_tick
admitted_tick-places host tick (err e) p s action live bound = omega arith
admitted_tick-places host tick (ok next) p s action live bound =
    run_tick-timer host tick next p s action live bound

admitted :
    (p : DispatchJobParams) (s : React) (contexts : Contexts)
    → p.action ≡ JobAction.start_timer
    → max_parallel p < u32_mod
    → can_execute p s.contexts ≡ ok contexts
    → (running JobAction.start_timer p.base_job.eid contexts ≡ timer_runs p s + 1)
      × (timer_runs p s < max_parallel p)
admitted p s contexts e bound h =
    let own : is_run_of JobAction.start_timer p.base_job.eid p ≡ true =
      ground (arith, eq_refl p.base_job.eid) in
    let grown =
      running-can_execute p s.contexts contexts JobAction.start_timer p.base_job.eid bound h in
    (
      rw own at grown,
      subst (λ a. running a p.base_job.eid s.contexts < max_parallel p) e
          (had_room p s.contexts contexts h),
    )

tick_after-places :
    (host : Host) (sched : JobScheduler) (tick : Tick) (p : DispatchJobParams) (s : React)
    (answer : Result Error Contexts)
    → can_execute p s.contexts ≡ answer
    → p.action ≡ JobAction.start_timer
    → max_parallel p < u32_mod
    → timer_runs p (tick_after host sched tick p answer s).1
      ≡ timer_runs p s + lost (tick_after host sched tick p answer s).0
unfolding tick_after
tick_after-places host sched tick p s (err e) h action bound = omega arith
tick_after-places host sched tick p s (ok contexts) h action bound =
    let (grown, room) = admitted p s contexts action bound h in
    let after =
      admitted_tick-places host tick (sched.next_tick_for_job tick.uuid) p
        (record s { contexts = contexts }) action (omega (arith, grown))
        (omega (arith, grown, room, bound)) in
    omega (arith, grown, after)

-- A tick of a job's timer that is refused, or runs to its end whatever came of the run and its
-- messages, leaves the count of the job's live timer runs as it was. A tick whose task panics, since
-- the next tick cannot be told or the message names no instance, leaves it one higher: its place is
-- not given back.
pub on_tick-places :
    (host : Host) (sched : JobScheduler) (tick : Tick) (params : DispatchJobParams) (s : React)
    → params.action ≡ JobAction.start_timer
    → max_parallel params < u32_mod
    → timer_runs params (on_tick host sched tick params s).1
      ≡ timer_runs params s + lost (on_tick host sched tick params s).0
unfolding on_tick
on_tick-places host sched tick params s action bound =
    let p = with_run_id tick params in
    tick_after-places host sched tick p s (can_execute p s.contexts) refl action bound
