-- ===== src/Agent/Contexts.antt =====
-- automate/src/scheduler/scheduler.rs: the table of running jobs of `React`,
-- `running_job_contexts`. A method that locks the table takes it and returns the new one. A kill
-- channel is a number; the identifier that `nanoid` draws is an argument.
pub mod Counting
pub mod Slots
pub mod Senders
use Prim.Native.Nat.{ℕ, ◌+◌, ◌-◌, ◌%◌, ◌^◌}
use jiascheduler.Base.{
  ◌≡◌, Bool, not, String, ◌==◌, if◌then◌else◌, Option, none, some, List, [], ◌∷◌, ◌++◌, map, Result,
  ok, err, ◌>>=◌, leb, ltb, HashMap, get, insert, filter,
}
use jiascheduler.Agent.JobAction.{JobAction}
use jiascheduler.Agent.ScheduleType.{ScheduleType}
use jiascheduler.Agent.Messages.{DispatchJobParams}

abbrev pub Channel : Type 0
Channel = ℕ

pub record RunningJobContext : Type 0 where
  pub timer_running_counter : ℕ  -- AtomicU32
  pub once_running_counter : ℕ  -- AtomicU32
  pub once_kill_senders : List (String × Channel)
  pub timer_kill_senders : List (String × Channel)
  pub daemon_kill_senders : List (String × Channel)

abbrev pub Contexts : Type 0
Contexts = HashMap RunningJobContext

-- `unreachable` is the panic of `unreachable!()`; the others are errors that `bail!` returns.
pub data Error : Type 0 where
  invalid_action : Error
  is_running : String → ℕ → Error
  unreachable : Error

abbrev pub u32_mod : ℕ
u32_mod = 2 ^ 32

-- `fetch_add` and `fetch_sub` wrap around.
abbrev pub fetch_add : ℕ → ℕ
fetch_add n = (n + 1) % u32_mod

abbrev pub fetch_sub : ℕ → ℕ
fetch_sub n = (n + u32_mod - 1) % u32_mod

abbrev pub new_context : RunningJobContext
new_context = record {
  timer_running_counter = 0;
  once_running_counter = 0;
  once_kill_senders = [];
  timer_kill_senders = [];
  daemon_kill_senders = [];
}

abbrev positive_or_one : Option ℕ → ℕ
positive_or_one none = 1
positive_or_one (some v) = if ltb 0 v then v else 1

-- The bound on parallel runs: at least 1.
abbrev pub max_parallel : DispatchJobParams → ℕ
max_parallel params = positive_or_one params.base_job.max_parallel

-- The first `match params.action` of `can_execute`: the runs of the action's kind.
unfoldable pub load : JobAction → RunningJobContext → Result Error ℕ
load JobAction.start_timer ctx = ok ctx.timer_running_counter
load JobAction.exec ctx = ok ctx.once_running_counter
load _ ctx = err invalid_action

-- The second one, which is also that of the branch for a job that has no entry.
unfoldable pub count_up : JobAction → RunningJobContext → Result Error RunningJobContext
count_up JobAction.start_timer ctx =
    ok (record ctx { timer_running_counter = fetch_add ctx.timer_running_counter })
count_up JobAction.exec ctx =
    ok (record ctx { once_running_counter = fetch_add ctx.once_running_counter })
count_up _ ctx = err invalid_action

-- `can_execute` for a job with an entry.
unfoldable pub admit : DispatchJobParams → RunningJobContext → Result Error RunningJobContext
unfolding load count_up
admit params ctx = do
  parallel ← load params.action ctx
  if leb (max_parallel params) parallel
      then err (is_running params.base_job.eid (max_parallel params))
      else count_up params.action ctx

-- With an entry or without one.
unfoldable pub enter : DispatchJobParams → Option RunningJobContext → Result Error RunningJobContext
unfolding admit count_up
enter params (some ctx) = admit params ctx
enter params none = count_up params.action new_context

unfoldable pub can_execute : DispatchJobParams → Contexts → Result Error Contexts
unfolding enter
can_execute params contexts = do
  ctx ← enter params (get params.base_job.eid contexts)
  ok (insert params.base_job.eid ctx contexts)

unfoldable pub add_sender :
    JobAction → String → Channel → RunningJobContext → Result Error RunningJobContext
add_sender JobAction.start_timer run_id tx ctx =
    ok (record ctx { timer_kill_senders = ctx.timer_kill_senders ++ (run_id, tx) ∷ [] })
add_sender JobAction.exec run_id tx ctx =
    ok (record ctx { once_kill_senders = ctx.once_kill_senders ++ (run_id, tx) ∷ [] })
add_sender JobAction.start_supervising run_id tx ctx =
    ok (record ctx { daemon_kill_senders = ctx.daemon_kill_senders ++ (run_id, tx) ∷ [] })
add_sender _ run_id tx ctx = err unreachable

abbrev pub context_or_new : Option RunningJobContext → RunningJobContext
context_or_new none = new_context
context_or_new (some ctx) = ctx

-- `fresh` is what `nanoid!()` draws, and what the method returns beside the new table.
unfoldable pub set_execute_context :
    DispatchJobParams → String → Channel → Contexts → Result Error (Contexts × String)
unfolding add_sender
set_execute_context params fresh tx contexts = do
  ctx ← add_sender params.action fresh tx (context_or_new (get params.base_job.eid contexts))
  ok (insert params.base_job.eid ctx contexts, fresh)

abbrev pub without : String → List (String × Channel) → List (String × Channel)
without run_id = filter λ sender. not (sender.0 == run_id)

unfoldable pub leave : JobAction → String → RunningJobContext → Result Error RunningJobContext
leave JobAction.start_timer run_id ctx = ok (record ctx {
  timer_running_counter = fetch_sub ctx.timer_running_counter;
  timer_kill_senders = without run_id ctx.timer_kill_senders;
})
leave JobAction.exec run_id ctx = ok (record ctx {
  once_running_counter = fetch_sub ctx.once_running_counter;
  once_kill_senders = without run_id ctx.once_kill_senders;
})
leave JobAction.start_supervising run_id ctx =
    ok (record ctx { daemon_kill_senders = without run_id ctx.daemon_kill_senders })
leave _ run_id ctx = err unreachable

-- `end_execute` for a job with or without an entry.
unfoldable pub end_entry :
    DispatchJobParams → Contexts → Option RunningJobContext → Result Error Contexts
unfolding leave
end_entry params contexts none = ok contexts
end_entry params contexts (some ctx) = do
  ctx ← leave params.action params.run_id ctx
  ok (insert params.base_job.eid ctx contexts)

unfoldable pub end_execute : DispatchJobParams → Contexts → Result Error Contexts
unfolding end_entry
end_execute params contexts = end_entry params contexts (get params.base_job.eid contexts)

-- The channels that get a kill signal, in the order of sending.
unfoldable pub senders : ScheduleType → RunningJobContext → Result Error (List Channel)
senders ScheduleType.timer ctx = ok (map (λ sender. sender.1) ctx.timer_kill_senders)
senders ScheduleType.once ctx = ok (map (λ sender. sender.1) ctx.once_kill_senders)
senders ScheduleType.daemon ctx = ok (map (λ sender. sender.1) ctx.daemon_kill_senders)
senders ScheduleType.flow ctx = err unreachable

unfoldable pub kill_job : String → ScheduleType → Contexts → Result Error (List Channel)
unfolding senders
kill_job eid schedule_type contexts = elim (get eid contexts) [
  | none ↦ ok []
  | some handler ↦ senders schedule_type handler
]
