-- ===== src/Agent/Schedules/Replace.antt =====
-- The timer of a job (automate/src/scheduler/scheduler.rs, `add_job_schedule`).
use jiascheduler.Base.{
  ℕ, ◌≡◌, ◌≢◌, ◌⊎◌, refl, ap, String, Option, none, some, List, [], ◌∷◌, ◌++◌, ok, err, get, insert,
  remove, get-insert, get-remove, eq_iff, eq_refl, Option-cases, Result-cases, inl, inr, arith,
}
use jiascheduler.Agent.Schedules.{
  Schedules, JobScheduler, without, remove_job_schedule, add_new, add_job_schedule,
}

-- The timers without that of the job, if the table knows one.
abbrev pub timers_less : Option ℕ → List ℕ → List ℕ
timers_less none timers = timers
timers_less (some uuid) timers = without uuid timers

abbrev pub OthersKept : String → Schedules → Schedules → Type 0
OthersKept eid s t = (other : String) → other ≢ eid → get other t.mapping ≡ get other s.mapping

abbrev pub Removed : String → Schedules → Schedules → Type 0
Removed eid s t =
    (get eid t.mapping ≡ none)
    × (t.timers ≡ timers_less (get eid s.mapping) s.timers)
    × OthersKept eid s t

pub remove_job_schedule-cases :
    (sched : JobScheduler) (eid : String) (s : Schedules)
    → ((t : Schedules) × (remove_job_schedule sched eid s ≡ (ok tt, t)) × Removed eid s t)
      ⊎ ((e : String) × (remove_job_schedule sched eid s ≡ (err e, s)))
unfolding remove_job_schedule
remove_job_schedule-cases sched eid s = elim (Option-cases (get eid s.mapping)) [
  | inl none_ ↦ rw (remove_job_schedule, none_) (inl (s, refl, (none_, refl, λ other h. refl)))
  | inr (uuid, e) ↦ elim (Result-cases (sched.remove_ uuid)) [
    | inl (_, r) ↦ inl (
      record { mapping = remove eid s.mapping; timers = without uuid s.timers },
      ground arith,
      (
        ground (arith, get-remove eid eid s.mapping, eq_refl eid),
        ground arith,
        λ other h. ground (arith, get-remove eid other s.mapping, eq_iff eid other),
      ),
    )
    | inr (bad, r) ↦ inr (bad, ground arith)
  ]
]

-- The job's timer is the new one, in the place of the old.
abbrev pub Replaces : JobScheduler → String → Schedules → Schedules → Type 0
Replaces sched eid s t =
    (uuid : ℕ) × (sched.add ≡ ok uuid)
    × (get eid t.mapping ≡ some uuid)
    × (t.timers ≡ timers_less (get eid s.mapping) s.timers ++ uuid ∷ [])
    × OthersKept eid s t

add_new-ok :
    (sched : JobScheduler) (eid : String) (s : Schedules) (next_time : Option ℕ)
    → get eid s.mapping ≡ none
    → (add_new sched eid s).0 ≡ ok next_time
    → (uuid : ℕ) × (sched.add ≡ ok uuid)
      × ((add_new sched eid s).1
          ≡ record { mapping = insert eid uuid s.mapping; timers = s.timers ++ uuid ∷ [] })
unfolding add_new
add_new-ok sched eid s next_time free h = elim (Result-cases sched.add) [
  | inr (e, a) ↦ ground arith
  | inl (uuid, a) ↦ (uuid, a, ground arith)
]

-- When `add_job_schedule` answers, the job's timer is the one that the cron scheduler has just
-- made, the job's earlier timer is gone from it, and the timers of other jobs are as they were.
pub add_job_schedule-Replaces :
    (sched : JobScheduler) (eid : String) (s : Schedules) (next_time : Option ℕ)
    → (add_job_schedule sched eid s).0 ≡ ok next_time
    → Replaces sched eid s (add_job_schedule sched eid s).1
unfolding add_job_schedule
add_job_schedule-Replaces sched eid s next_time h = elim (remove_job_schedule-cases sched eid s) [
  | inr (e, r) ↦ let bad : err e ≡ ok next_time = rw (r, add_job_schedule) at h in cc bad
  | inl (t, r, (free, timers, others)) ↦
      let h' : (add_new sched eid t).0 ≡ ok next_time = rw (r, add_job_schedule) at h in
      let (uuid, added, after) = add_new-ok sched eid t next_time free h' in
      rw (r, add_job_schedule, after)
        (
          uuid,
          added,
          ground (arith, get-insert eid eid uuid t.mapping, eq_refl eid),
          ap (λ q. q ++ uuid ∷ []) timers,
          λ other ne.
              ground (arith, get-insert eid other uuid t.mapping, eq_iff eid other, others other),
        )
]

-- The timer is in the cron scheduler, and to remove the job's timer changes nothing.
abbrev pub IsOrphan : JobScheduler → String → ℕ → Schedules → Schedules → Type 0
IsOrphan sched eid uuid s t =
    (t.timers ≡ s.timers ++ uuid ∷ []) × (remove_job_schedule sched eid t ≡ (ok tt, t))

-- When the table has no timer for the job, and the next tick of the one that was just made cannot be
-- told, `add_job_schedule` fails with that error, but the cron scheduler keeps the timer: to remove
-- the job's timer then changes nothing.
pub add_job_schedule-IsOrphan :
    (sched : JobScheduler) (eid : String) (s : Schedules) (uuid : ℕ) (e : String)
    → get eid s.mapping ≡ none
    → sched.add ≡ ok uuid
    → sched.next_tick_for_job uuid ≡ err e
    → ((add_job_schedule sched eid s).0 ≡ err e)
      × IsOrphan sched eid uuid s (add_job_schedule sched eid s).1
unfolding add_job_schedule add_new remove_job_schedule
add_job_schedule-IsOrphan sched eid s uuid e free a n = (ground arith, (ground arith, ground arith))
