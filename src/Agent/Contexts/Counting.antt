-- ===== src/Agent/Contexts/Counting.antt =====
-- How the methods on the table of running jobs change the counters.
use native.Mathlib.Decide.{dec_lt}
use jiascheduler.Base.{
  ℕ, ◌+◌, ◌<◌, ◌≤◌, ◌≡◌, ◌≢◌, refl, Bool, true, false, ◌&&◌, String, ◌==◌, eq_iff, if◌then◌else◌,
  Option, none, some, ok, get, insert, get-insert, arith, >>=-eq-ok,
}
use jiascheduler.Agent.JobAction.{JobAction}
use jiascheduler.Agent.Messages.{DispatchJobParams}
use jiascheduler.Agent.Contexts.{
  RunningJobContext, Contexts, u32_mod, max_parallel, can_execute, set_execute_context, end_execute,
  enter, end_entry, count_up, admit, leave, add_sender, new_context, context_or_new, Channel,
}

-- The counter of an action's kind; the other actions have none.
abbrev pub counter : JobAction → RunningJobContext → ℕ
counter JobAction.start_timer ctx = ctx.timer_running_counter
counter JobAction.exec ctx = ctx.once_running_counter
counter _ ctx = 0

abbrev pub counter_of : JobAction → Option RunningJobContext → ℕ
counter_of action none = 0
counter_of action (some ctx) = counter action ctx

-- What the table says of the runs of a job.
abbrev pub running : JobAction → String → Contexts → ℕ
running action eid contexts = counter_of action (get eid contexts)

-- The two actions are the same one of the two that are counted.
abbrev pub same_kind : JobAction → JobAction → Bool
same_kind JobAction.start_timer JobAction.start_timer = true
same_kind JobAction.exec JobAction.exec = true
same_kind _ _ = false

abbrev pub is_run_of : JobAction → String → DispatchJobParams → Bool
is_run_of action eid params = same_kind params.action action && params.base_job.eid == eid

count_up-counter :
    (kind action : JobAction) (ctx after : RunningJobContext)
    → counter kind ctx + 1 < u32_mod
    → count_up kind ctx ≡ ok after
    → counter action after ≡ counter action ctx + (if same_kind kind action then 1 else 0)
unfolding count_up
count_up-counter kind action ctx after room h = ground arith

admit-counter :
    (p : DispatchJobParams) (action : JobAction) (ctx after : RunningJobContext)
    → max_parallel p < u32_mod
    → admit p ctx ≡ ok after
    → counter action after ≡ counter action ctx + (if same_kind p.action action then 1 else 0)
unfolding admit
admit-counter p action ctx after bound h =
    ground (arith, count_up-counter p.action action ctx after)

enter-counter :
    (p : DispatchJobParams) (action : JobAction) (entry : Option RunningJobContext)
    (after : RunningJobContext)
    → max_parallel p < u32_mod
    → enter p entry ≡ ok after
    → counter action after ≡ counter_of action entry + (if same_kind p.action action then 1 else 0)
unfolding enter
enter-counter p action none after bound h =
    ground (arith, count_up-counter p.action action new_context after)
enter-counter p action (some ctx) after bound h = admit-counter p action ctx after bound h

-- After an insertion under `key`, the counts of the other jobs are what they were.
running-insert :
    (action : JobAction) (key eid : String) (ctx : RunningJobContext) (contexts : Contexts)
    → running action eid (insert key ctx contexts)
      ≡ (if key == eid then counter action ctx else running action eid contexts)
running-insert action key eid ctx contexts = ground (arith, get-insert key eid ctx contexts)

-- The runs of one job and kind grow by one for the admitted run, and no other count changes.
pub running-can_execute :
    (p : DispatchJobParams) (contexts after : Contexts) (action : JobAction) (eid : String)
    → max_parallel p < u32_mod
    → can_execute p contexts ≡ ok after
    → running action eid after
      ≡ running action eid contexts + (if is_run_of action eid p then 1 else 0)
unfolding can_execute
running-can_execute p contexts after action eid bound h =
    let (ctx, entered, inserted) = >>=-eq-ok (enter p (get p.base_job.eid contexts)) _ h in
    ground (
      arith,
      inserted,
      enter-counter p action (get p.base_job.eid contexts) ctx bound entered,
      running-insert action p.base_job.eid eid ctx contexts,
      eq_iff p.base_job.eid eid,
    )

add_sender-counter :
    (kind action : JobAction) (fresh : String) (tx : Channel) (entry : Option RunningJobContext)
    (after : RunningJobContext)
    → add_sender kind fresh tx (context_or_new entry) ≡ ok after
    → counter action after ≡ counter_of action entry
unfolding add_sender
add_sender-counter kind action fresh tx none after h = ground arith
add_sender-counter kind action fresh tx (some ctx) after h = ground arith

-- Registering a kill channel changes no count.
pub running-set_execute_context :
    (p : DispatchJobParams) (fresh : String) (tx : Channel) (contexts : Contexts)
    (after : Contexts × String) (action : JobAction) (eid : String)
    → set_execute_context p fresh tx contexts ≡ ok after
    → running action eid after.0 ≡ running action eid contexts
unfolding set_execute_context
running-set_execute_context p fresh tx contexts after action eid h =
    let entry = get p.base_job.eid contexts in
    let (ctx, added, inserted) =
      >>=-eq-ok (add_sender p.action fresh tx (context_or_new entry)) _ h in
    ground (
      arith,
      inserted,
      add_sender-counter p.action action fresh tx entry ctx added,
      running-insert action p.base_job.eid eid ctx contexts,
      eq_iff p.base_job.eid eid,
    )

leave-counter :
    (kind action : JobAction) (run_id : String) (ctx after : RunningJobContext)
    → leave kind run_id ctx ≡ ok after
    → (if same_kind kind action then 1 else 0) ≤ counter action ctx
    → counter action ctx < u32_mod
    → counter action after + (if same_kind kind action then 1 else 0) ≡ counter action ctx
unfolding leave
leave-counter kind action run_id ctx after h some_left bound = ground arith

end_entry-counter :
    (p : DispatchJobParams) (contexts after : Contexts) (action : JobAction) (eid : String)
    (entry : Option RunningJobContext)
    → get p.base_job.eid contexts ≡ entry
    → end_entry p contexts entry ≡ ok after
    → (if is_run_of action eid p then 1 else 0) ≤ running action eid contexts
    → running action eid contexts < u32_mod
    → running action eid after + (if is_run_of action eid p then 1 else 0)
      ≡ running action eid contexts
unfolding end_entry
end_entry-counter p contexts after action eid none e h some_left bound =
    ground (arith, eq_iff p.base_job.eid eid)
end_entry-counter p contexts after action eid (some ctx) e h some_left bound =
    let (left, ended, inserted) = >>=-eq-ok (leave p.action p.run_id ctx) _ h in
    ground (
      arith,
      inserted,
      leave-counter p.action action p.run_id ctx left ended,
      running-insert action p.base_job.eid eid left contexts,
      eq_iff p.base_job.eid eid,
    )

-- A run that ends gives its place back, if it had one, and no other count changes.
pub running-end_execute :
    (p : DispatchJobParams) (contexts after : Contexts) (action : JobAction) (eid : String)
    → end_execute p contexts ≡ ok after
    → (if is_run_of action eid p then 1 else 0) ≤ running action eid contexts
    → running action eid contexts < u32_mod
    → running action eid after + (if is_run_of action eid p then 1 else 0)
      ≡ running action eid contexts
unfolding end_execute
running-end_execute p contexts after action eid h some_left bound =
    end_entry-counter p contexts after action eid (get p.base_job.eid contexts) refl h some_left
      bound

enter-full :
    (p : DispatchJobParams) (entry : Option RunningJobContext)
    → max_parallel p ≤ counter_of p.action entry
    → (after : RunningJobContext) → enter p entry ≢ ok after
unfolding enter
enter-full p none full after = ground arith
enter-full p (some ctx) full after = ground arith

-- A run is refused when the table says that the job's runs of its kind are as many as allowed.
pub can_execute-full :
    (p : DispatchJobParams) (contexts after : Contexts)
    → max_parallel p ≤ running p.action p.base_job.eid contexts
    → can_execute p contexts ≢ ok after
unfolding can_execute
can_execute-full p contexts after full h =
    let (ctx, entered, inserted) = >>=-eq-ok (enter p (get p.base_job.eid contexts)) _ h in
    enter-full p (get p.base_job.eid contexts) full ctx entered

-- So a run that was admitted had room.
pub had_room :
    (p : DispatchJobParams) (contexts after : Contexts)
    → can_execute p contexts ≡ ok after
    → running p.action p.base_job.eid contexts < max_parallel p
had_room p contexts after h =
    elim (dec_lt (running p.action p.base_job.eid contexts) (max_parallel p)) [
      | yes room ↦ room
      | no full ↦ absurd (can_execute-full p contexts after (omega arith) h)
    ]

count_up-ok :
    (kind : JobAction) (ctx : RunningJobContext)
    → same_kind kind kind ≡ true
    → (after : RunningJobContext) × (count_up kind ctx ≡ ok after)
unfolding count_up
count_up-ok JobAction.start_timer ctx counted = (_, refl)
count_up-ok JobAction.exec ctx counted = (_, refl)
count_up-ok _ ctx counted = cc

enter-room :
    (p : DispatchJobParams) (entry : Option RunningJobContext)
    → same_kind p.action p.action ≡ true
    → counter_of p.action entry < max_parallel p
    → (after : RunningJobContext) × (enter p entry ≡ ok after)
unfolding enter admit
enter-room p none counted room = count_up-ok p.action new_context counted
enter-room p (some ctx) counted room =
    let (after, e) = count_up-ok p.action ctx counted in (after, admitted after e)
  where
    admitted :
        (after : RunningJobContext) → count_up p.action ctx ≡ ok after → admit p ctx ≡ ok after
    admitted after e = ground arith

-- It is admitted when they are fewer.
pub can_execute-room :
    (p : DispatchJobParams) (contexts : Contexts)
    → same_kind p.action p.action ≡ true
    → running p.action p.base_job.eid contexts < max_parallel p
    → (after : Contexts) × (can_execute p contexts ≡ ok after)
unfolding can_execute
can_execute-room p contexts counted room =
    let (ctx, entered) = enter-room p (get p.base_job.eid contexts) counted room in
    (insert p.base_job.eid ctx contexts, rw entered)

leave-ok :
    (kind : JobAction) (run_id : String) (ctx : RunningJobContext)
    → kind ≡ JobAction.exec
    → (after : RunningJobContext) × (leave kind run_id ctx ≡ ok after)
unfolding leave
leave-ok JobAction.exec run_id ctx e = (_, refl)
leave-ok _ run_id ctx e = cc

end_entry-ok :
    (p : DispatchJobParams) (contexts : Contexts) (entry : Option RunningJobContext)
    → p.action ≡ JobAction.exec
    → (after : Contexts) × (end_entry p contexts entry ≡ ok after)
unfolding end_entry
end_entry-ok p contexts none e = (contexts, refl)
end_entry-ok p contexts (some ctx) e =
    let (after, left) = leave-ok p.action p.run_id ctx e in
    (insert p.base_job.eid after contexts, rw left)

-- The end of a one-off run does not fail.
pub end_execute-ok :
    (p : DispatchJobParams) (contexts : Contexts)
    → p.action ≡ JobAction.exec
    → (after : Contexts) × (end_execute p contexts ≡ ok after)
unfolding end_execute
end_execute-ok p contexts e = end_entry-ok p contexts (get p.base_job.eid contexts) e
