-- ===== src/Agent/Contexts/Senders.antt =====
-- The kill channels of automate/src/scheduler/scheduler.rs: who is signalled, and what stays
-- registered.
use jiascheduler.Base.{
  ◌≡◌, Bool, true, false, not, String, ◌==◌, if◌then◌else◌, Option, none, some, ok, >>=-eq-ok, List,
  [], ◌∷◌, ◌++◌, map, get, insert, get-insert, arith, Member, here, there, eq_refl,
}
use jiascheduler.Agent.JobAction.{JobAction}
use jiascheduler.Agent.ScheduleType.{ScheduleType}
use jiascheduler.Agent.Messages.{DispatchJobParams}
use jiascheduler.Agent.Contexts.{
  RunningJobContext, Contexts, Channel, set_execute_context, end_execute, end_entry, leave,
  add_sender, context_or_new, without, kill_job, senders,
}

-- The kind of schedule under which a run of this action is killed.
abbrev pub schedule_of : JobAction → ScheduleType
schedule_of JobAction.start_timer = ScheduleType.timer
schedule_of JobAction.start_supervising = ScheduleType.daemon
schedule_of _ = ScheduleType.once

abbrev pub registered : JobAction → RunningJobContext → List (String × Channel)
registered JobAction.start_timer ctx = ctx.timer_kill_senders
registered JobAction.start_supervising ctx = ctx.daemon_kill_senders
registered _ ctx = ctx.once_kill_senders

abbrev pub registered_of : JobAction → Option RunningJobContext → List (String × Channel)
registered_of action none = []
registered_of action (some ctx) = registered action ctx

Member-last {ℓ} : {A : Type ℓ} (a : A) (xs : List A) → Member a (xs ++ (a ∷ []))
Member-last a [] = here
Member-last a (x ∷ xs) = there (Member-last a xs)

Member-map {ℓ κ} :
    {A : Type ℓ} {B : Type κ} (f : A → B) {a : A} {xs : List A}
    → Member a xs
    → Member (f a) (map f xs)
Member-map f here = here
Member-map f (there m) = there (Member-map f m)

Member-if {ℓ} :
    {A : Type ℓ} {a : A} (b : Bool) (x : A) (xs : List A)
    → Member a xs
    → Member a (if b then x ∷ xs else xs)
Member-if true x xs m = there m
Member-if false x xs m = m

Member-without :
    (run_id id : String) (tx : Channel) {xs : List (String × Channel)}
    → (id == run_id) ≡ false
    → Member (id, tx) xs
    → Member (id, tx) (without run_id xs)
Member-without run_id id tx e here = rw e here
Member-without run_id id tx e (there {x = x} {xs = xs} m) =
    Member-if (not (x.0 == run_id)) x (without run_id xs) (Member-without run_id id tx e m)

added_last :
    (action : JobAction) (fresh : String) (tx : Channel) (ctx after : RunningJobContext)
    → add_sender action fresh tx ctx ≡ ok after
    → registered action after ≡ registered action ctx ++ (fresh, tx) ∷ []
unfolding add_sender
added_last action fresh tx ctx after h = ground arith

leave-registered :
    (action : JobAction) (run_id : String) (ctx after : RunningJobContext)
    → leave action run_id ctx ≡ ok after
    → registered action after ≡ without run_id (registered action ctx)
unfolding leave
leave-registered action run_id ctx after h = ground arith

get-insert_self :
    (key : String) (ctx : RunningJobContext) (contexts : Contexts)
    → get key (insert key ctx contexts) ≡ some ctx
get-insert_self key ctx contexts = simp (get-insert, eq_refl)

-- After `set_execute_context` the new channel is registered last, under the identifier drawn.
set_execute_context-registers :
    (p : DispatchJobParams) (fresh : String) (tx : Channel) (contexts : Contexts)
    (after : Contexts × String)
    → set_execute_context p fresh tx contexts ≡ ok after
    → (ctx : RunningJobContext) × (get p.base_job.eid after.0 ≡ some ctx)
      × (registered p.action ctx
          ≡ registered p.action (context_or_new (get p.base_job.eid contexts)) ++ (fresh, tx) ∷ [])
unfolding set_execute_context
set_execute_context-registers p fresh tx contexts after h =
    let old = context_or_new (get p.base_job.eid contexts) in
    let (ctx, added, inserted) = >>=-eq-ok (add_sender p.action fresh tx old) _ h in
    (
      ctx,
      ground (arith, inserted, get-insert_self p.base_job.eid ctx contexts),
      added_last p.action fresh tx old ctx added,
    )

end_entry-registered :
    (p : DispatchJobParams) (contexts after : Contexts) (ctx : RunningJobContext)
    → end_entry p contexts (some ctx) ≡ ok after
    → registered_of p.action (get p.base_job.eid after) ≡ without p.run_id (registered p.action ctx)
unfolding end_entry
end_entry-registered p contexts after ctx h =
    let (left, ended, inserted) = >>=-eq-ok (leave p.action p.run_id ctx) _ h in
    ground (
      arith,
      inserted,
      leave-registered p.action p.run_id ctx left ended,
      get-insert_self p.base_job.eid left contexts,
    )

-- `kill_job` for this kind of schedule signals the channel.
abbrev pub Signals : String → ScheduleType → Contexts → Channel → Type 0
Signals eid kind contexts tx =
    (signalled : List Channel) × (kill_job eid kind contexts ≡ ok signalled) × Member tx signalled

-- A kill channel registered for a run gets the signal that `kill_job` sends for the run's kind of
-- schedule.
pub kill_job-reaches :
    (p : DispatchJobParams) (fresh : String) (tx : Channel) (contexts : Contexts)
    (after : Contexts × String)
    → set_execute_context p fresh tx contexts ≡ ok after
    → Signals p.base_job.eid (schedule_of p.action) after.0 tx
unfolding kill_job
kill_job-reaches p fresh tx contexts after h =
    let (ctx, found, r) = set_execute_context-registers p fresh tx contexts after h in
    (
      map (λ sender. sender.1) (registered p.action ctx),
      rw (found, kill_job) (senders-registered p.action ctx),
      rw r (Member-map (λ (sender : String × Channel). sender.1) (Member-last (fresh, tx) _)),
    )
  where
    senders-registered :
        (action : JobAction) (ctx : RunningJobContext)
        → senders (schedule_of action) ctx ≡ ok (map (λ sender. sender.1) (registered action ctx))
    senders-registered action ctx = ground arith

-- `end_execute` looks for the run under the identifier in its parameters, and not under the one
-- that `set_execute_context` drew. If the two differ, the channel of the run that has ended is
-- still registered.
pub end_execute-keeps_sender :
    (p : DispatchJobParams) (fresh : String) (tx : Channel) (contexts : Contexts)
    (registered_table : Contexts × String) (after : Contexts)
    → (fresh == p.run_id) ≡ false
    → set_execute_context p fresh tx contexts ≡ ok registered_table
    → end_execute p registered_table.0 ≡ ok after
    → Member (fresh, tx) (registered_of p.action (get p.base_job.eid after))
unfolding end_execute
end_execute-keeps_sender p fresh tx contexts table after other h ended =
    let (ctx, found, r) = set_execute_context-registers p fresh tx contexts table h in
    rw (end_entry-registered p table.0 after ctx (rw found at ended))
      (rw r (Member-without p.run_id fresh tx other (Member-last (fresh, tx) _)))
