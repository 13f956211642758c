-- ===== src/Agent/Schedules.antt =====
-- automate/src/scheduler/scheduler.rs: the timers of the agent, `add_job_schedule` and
-- `remove_job_schedule` of `React`. The cron scheduler of tokio-cron-scheduler is a parameter: what
-- it answers, and that it then has or has not the timer.
pub mod Replace
use jiascheduler.Base.{
  ℕ, String, ◌==◌, Bool, not, Option, none, some, List, [], ◌∷◌, ◌++◌, Result, ok, err, HashMap,
  get, insert, remove, filter, nat_eq, format,
}
use jiascheduler.Base.State.{and_then, ◌>>=◌, ◌>>◌, pure, fail, lift}

-- `mapping` is `schedule_uuid_mapping`; `timers` are the timers of the cron scheduler.
pub record Schedules : Type 0 where
  pub mapping : HashMap ℕ
  pub timers : List ℕ

abbrev pub M : Type 0 → Type 0
M A = Schedules → Result String A × Schedules

-- The answers of `JobScheduler::add`, `remove` and `next_tick_for_job`.
pub record JobScheduler : Type 0 where
  pub add : Result String ℕ
  pub remove_ : ℕ → Result String (Unit {0})
  pub next_tick_for_job : ℕ → Result String (Option ℕ)

abbrev pub without : ℕ → List ℕ → List ℕ
without uuid = filter λ timer. not (nat_eq timer uuid)

abbrev sched_remove : JobScheduler → ℕ → M (Unit {0})
sched_remove sched uuid s = elim (sched.remove_ uuid) [
  | ok _ ↦ (ok tt, record s { timers = without uuid s.timers })
  | err e ↦ (err e, s)
]

abbrev sched_add : JobScheduler → M ℕ
sched_add sched s = elim sched.add [
  | ok uuid ↦ (ok uuid, record s { timers = s.timers ++ uuid ∷ [] })
  | err e ↦ (err e, s)
]

abbrev forget : String → M (Unit {0})
forget eid s = (ok tt, record s { mapping = remove eid s.mapping })

abbrev remember : String → ℕ → M (Unit {0})
remember eid uuid s = (ok tt, record s { mapping = insert eid uuid s.mapping })

abbrev remove_found : JobScheduler → String → Option ℕ → M (Unit {0})
remove_found sched eid none = pure tt
remove_found sched eid (some uuid) = sched_remove sched uuid >> forget eid

unfoldable pub remove_job_schedule : JobScheduler → String → M (Unit {0})
remove_job_schedule sched eid s = remove_found sched eid (get eid s.mapping) s

abbrev require_free : String → Option ℕ → M (Unit {0})
require_free eid none = pure tt
require_free eid (some uuid) = fail (format (eid ∷ " is existed" ∷ []))

-- The second part of `add_job_schedule`, under one lock of the table.
unfoldable pub add_new : JobScheduler → String → M (Option ℕ)
unfolding format
add_new sched eid s =
    (require_free eid (get eid s.mapping) >> sched_add sched >>= λ uuid.
    lift (sched.next_tick_for_job uuid) >>= λ next_time. remember eid uuid >> pure next_time)
      s

unfoldable pub add_job_schedule : JobScheduler → String → M (Option ℕ)
unfolding remove_job_schedule add_new
add_job_schedule sched eid = remove_job_schedule sched eid >> add_new sched eid
