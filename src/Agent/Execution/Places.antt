-- ===== src/Agent/Execution/Places.antt =====
-- Whether a run gives back the place that `can_execute` counted for it
-- (automate/src/scheduler/scheduler.rs, `exec`).
use jiascheduler.Base.{
  ℕ, ◌+◌, ◌<◌, ◌≡◌, refl, subst, ap, String, true, false, Option, none, some, Result, ok, err,
  Result-cases, Option-cases, inl, inr, arith, eq_refl,
}
use jiascheduler.Agent.JobAction.{JobAction}
use jiascheduler.Agent.ScheduleType.{ScheduleType}
use jiascheduler.Agent.BaseJob.{BaseJob, BundleOutput}
use jiascheduler.Agent.Messages.{DispatchJobParams}
use jiascheduler.Agent.Contexts.{
  Contexts, Channel, u32_mod, max_parallel, can_execute, set_execute_context,
}
use jiascheduler.Agent.Contexts.Counting.{
  running, is_run_of, running-can_execute, running-set_execute_context, running-end_execute,
  end_execute-ok, had_room,
}
use jiascheduler.Agent.React.{React, Host, Fault, failed, refused, panicked}
use jiascheduler.Agent.Execution.{
  exec_job, exec, exec_admitted, exec_task, end_run, register, finish, run_sync, Reply, report,
  send_update_job_msg, running_msg, stop_msg, error_msg,
}

-- Reporting a run does not touch the table.
pub exec_job-contexts :
    (host : Host) (job : BaseJob) (kind : Option ScheduleType) (prev next : Option ℕ)
    (p : DispatchJobParams) (s : React)
    → (exec_job host job kind prev next p s).1.contexts ≡ s.contexts
unfolding exec_job
exec_job-contexts host job kind prev next p s = ground arith

own_run :
    (p : DispatchJobParams)
    → p.action ≡ JobAction.exec
    → is_run_of JobAction.exec p.base_job.eid p ≡ true
own_run p e = ground (arith, eq_refl p.base_job.eid)

-- The end of a one-off run, in the monad: it succeeds, and the job has one live run fewer.
finish-running :
    (p : DispatchJobParams) (s : React)
    → p.action ≡ JobAction.exec
    → 0 < running JobAction.exec p.base_job.eid s.contexts
    → running JobAction.exec p.base_job.eid s.contexts < u32_mod
    → ((finish p s).0 ≡ ok tt)
      × (running JobAction.exec p.base_job.eid (finish p s).1.contexts + 1
          ≡ running JobAction.exec p.base_job.eid s.contexts)
unfolding finish
finish-running p s e live bound =
    let (after, ok_after) = end_execute-ok p s.contexts e in
    let counted = own_run p e in
    let less =
      running-end_execute p s.contexts after JobAction.exec p.base_job.eid ok_after
        (rw counted (omega arith)) bound in
    rw ok_after (refl, rw counted at less)

pub register-running :
    (p : DispatchJobParams) (fresh : String) (tx : Channel) (action : JobAction) (eid : String)
    (s : React)
    → running action eid (register p fresh tx s).1.contexts ≡ running action eid s.contexts
unfolding register
register-running p fresh tx action eid s =
    elim (Result-cases (set_execute_context p fresh tx s.contexts)) [
      | inl (after, h) ↦
          rw (h, register) (running-set_execute_context p fresh tx s.contexts after action eid h)
      | inr (e, h) ↦ rw (h, register)
    ]

abbrev pub one_off_runs : DispatchJobParams → React → ℕ
one_off_runs p s = running JobAction.exec p.base_job.eid s.contexts

-- A place is kept by a run whose reply is an error.
abbrev pub kept : Result Fault Reply → ℕ
kept (ok reply) = 0
kept (err e) = 1

run_sync-running :
    (host : Host) (kind : ScheduleType × BaseJob) (p : DispatchJobParams) (s : React)
    → p.action ≡ JobAction.exec
    → 0 < one_off_runs p s
    → one_off_runs p s < u32_mod
    → one_off_runs p (run_sync host kind p s).1 + 1
      ≡ one_off_runs p s + kept (run_sync host kind p s).0
unfolding run_sync
run_sync-running host kind p s e live bound =
    let ran = exec_job host kind.1 (some kind.0) none none p s in
    ground
      (arith, exec_job-contexts host kind.1 (some kind.0) none none p s, finish-running p ran.1 e)

exec_admitted-sync :
    (host : Host) (fresh : String) (tx : Channel) (p : DispatchJobParams) (s : React)
    → p.action ≡ JobAction.exec
    → p.is_sync ≡ true
    → 0 < one_off_runs p s
    → one_off_runs p s < u32_mod
    → one_off_runs p (exec_admitted host fresh tx p s).1 + 1
      ≡ one_off_runs p s + kept (exec_admitted host fresh tx p s).0
unfolding exec_admitted
exec_admitted-sync host fresh tx p s e sync live bound =
    let kind : ScheduleType × BaseJob = (ScheduleType.once, p.base_job) in
    ground (
      arith,
      register-running p fresh tx JobAction.exec p.base_job.eid s,
      run_sync-running host kind p (register p fresh tx s).1 e,
    )

exec_admitted-async :
    (host : Host) (fresh : String) (tx : Channel) (p : DispatchJobParams) (s : React)
    → p.action ≡ JobAction.exec
    → p.is_sync ≡ false
    → one_off_runs p (exec_admitted host fresh tx p s).1 ≡ one_off_runs p s
unfolding exec_admitted
exec_admitted-async host fresh tx p s e async =
    ground (arith, register-running p fresh tx JobAction.exec p.base_job.eid s)

-- A place is kept by a task that panics, and a task does when it knows no instance.
abbrev pub no_instance : Option String → ℕ
no_instance none = 1
no_instance (some instance_id) = 0

abbrev crashed {ℓ} : {A : Type ℓ} → Result Fault A → ℕ
crashed (err panicked) = 1
crashed _ = 0

end_run-running :
    (p : DispatchJobParams) (r : Result Fault BundleOutput) (s : React)
    → p.action ≡ JobAction.exec
    → 0 < one_off_runs p s
    → one_off_runs p s < u32_mod
    → one_off_runs p (end_run p (r, s)).1 + 1 ≡ one_off_runs p s + crashed r
unfolding end_run
end_run-running p (err panicked) s e live bound = refl
end_run-running p (err (failed x)) s e live bound =
    omega (arith, (finish-running p s e live bound).1)
end_run-running p (err (refused x)) s e live bound =
    omega (arith, (finish-running p s e live bound).1)
end_run-running p (ok result) s e live bound = omega (arith, (finish-running p s e live bound).1)

report-crashed :
    (host : Host) (kind : Option ScheduleType) (p : DispatchJobParams) (i : String)
    (r : Result String BundleOutput) (s : React)
    → crashed (report host kind p i r s).0 ≡ 0
unfolding report send_update_job_msg
report-crashed host kind p i (ok result) s =
    elim (Result-cases (host.send (stop_msg host kind p i result))) [
      | inl (_, e) ↦ rw (e, send_update_job_msg) refl
      | inr (_, e) ↦ rw (e, send_update_job_msg) refl
    ]
report-crashed host kind p i (err x) s =
    elim (Result-cases (host.send (error_msg host kind p i x))) [
      | inl (_, e) ↦ rw (e, send_update_job_msg) refl
      | inr (_, e) ↦ rw (e, send_update_job_msg) refl
    ]

exec_job-crashed :
    (host : Host) (job : BaseJob) (kind : Option ScheduleType) (prev next : Option ℕ)
    (p : DispatchJobParams) (s : React)
    → crashed (exec_job host job kind prev next p s).0 ≡ no_instance p.instance_id
unfolding exec_job send_update_job_msg
exec_job-crashed host job kind prev next p s = elim (Option-cases p.instance_id) [
  | inl none_ ↦ rw (none_, exec_job) refl
  | inr (i, known) ↦ elim (Result-cases (host.send (running_msg host kind prev next p i))) [
    | inl (_, e) ↦ rw (known, exec_job, e, send_update_job_msg) (report-crashed host kind p i _ _)
    | inr (_, e) ↦ rw (known, exec_job, e, send_update_job_msg) refl
  ]
]

exec_task-running :
    (host : Host) (p : DispatchJobParams) (s : React)
    → p.action ≡ JobAction.exec
    → 0 < one_off_runs p s
    → one_off_runs p s < u32_mod
    → one_off_runs p (exec_task host p s).1 + 1 ≡ one_off_runs p s + no_instance p.instance_id
unfolding exec_task
exec_task-running host p s e live bound =
    let ran = exec_job host p.base_job (some ScheduleType.once) none none p s in
    let same : one_off_runs p ran.1 ≡ one_off_runs p s =
      ap (running JobAction.exec p.base_job.eid)
        (exec_job-contexts host p.base_job (some ScheduleType.once) none none p s) in
    let after =
      end_run-running p ran.0 ran.1 e (omega (arith, same, live)) (omega (arith, same, bound)) in
    let known = exec_job-crashed host p.base_job (some ScheduleType.once) none none p s in
    omega (arith, after, known, same)

admitted :
    (p : DispatchJobParams) (s : React) (contexts : Contexts)
    → p.action ≡ JobAction.exec
    → max_parallel p < u32_mod
    → can_execute p s.contexts ≡ ok contexts
    → (running JobAction.exec p.base_job.eid contexts ≡ one_off_runs p s + 1)
      × (one_off_runs p s < max_parallel p)
admitted p s contexts e bound h =
    let grown = running-can_execute p s.contexts contexts JobAction.exec p.base_job.eid bound h in
    (
      rw (own_run p e) at grown,
      subst (λ a. running a p.base_job.eid s.contexts < max_parallel p) e
          (had_room p s.contexts contexts h),
    )

-- A synchronous one-off run that is answered, or refused, leaves the count of its job's live runs
-- as it was. One whose reply is an error leaves it one higher: its place is not given back.
pub exec_sync_places :
    (host : Host) (fresh : String) (tx : Channel) (p : DispatchJobParams) (s : React)
    → p.action ≡ JobAction.exec
    → p.is_sync ≡ true
    → max_parallel p < u32_mod
    → one_off_runs p (exec host fresh tx p s).1 ≡ one_off_runs p s + kept (exec host fresh tx p s).0
unfolding exec
exec_sync_places host fresh tx p s e sync bound = elim (Result-cases (can_execute p s.contexts)) [
  | inl (contexts, h) ↦
      let (grown, room) = admitted p s contexts e bound h in
      let after =
        exec_admitted-sync host fresh tx p (record s { contexts = contexts }) e sync
          (omega (arith, grown)) (omega (arith, grown, room)) in
      rw (h, exec) (omega (arith, grown, after))
  | inr (_, h) ↦ rw (h, exec) (omega arith)
]

-- An admitted asynchronous one-off run holds one place until its task ends. Then it gives it back,
-- whatever came of the run and of the messages that report it, if its message names an instance; if
-- it names none, the task panics and the place is not given back.
pub exec_async_places :
    (host : Host) (fresh : String) (tx : Channel) (p : DispatchJobParams) (s : React)
    (contexts : Contexts)
    → p.action ≡ JobAction.exec
    → p.is_sync ≡ false
    → max_parallel p < u32_mod
    → can_execute p s.contexts ≡ ok contexts
    → (one_off_runs p (exec host fresh tx p s).1 ≡ one_off_runs p s + 1)
      × (one_off_runs p (exec_task host p (exec host fresh tx p s).1).1
          ≡ one_off_runs p s + no_instance p.instance_id)
unfolding exec
exec_async_places host fresh tx p s contexts e async bound h =
    let (grown, room) = admitted p s contexts e bound h in
    let started : React = record s { contexts = contexts } in
    let spawned = exec_admitted-async host fresh tx p started e async in
    let task =
      exec_task-running host p (exec_admitted host fresh tx p started).1 e
        (omega (arith, grown, spawned)) (omega (arith, grown, room, spawned)) in
    rw (h, exec) (omega (arith, grown, spawned), omega (arith, grown, spawned, task))
