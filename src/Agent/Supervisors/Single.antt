-- ===== src/Agent/Supervisors/Single.antt =====
-- The supervisors and the table of them (automate/src/scheduler/scheduler.rs, `start_supervising`
-- and `stop_supervising`).
use jiascheduler.Base.{
  ◌≡◌, ◌⊎◌, subst, sym, ap, ◌∙◌, Bool-cases, refl, String, ◌==◌, eq_iff, none, some, List, [], ◌∷◌,
  ◌++◌, Result, get, insert, remove, get-insert, get-remove, Option-cases, Result-cases, inl, inr,
  Member, here, there, Member-cons, arith,
}
use jiascheduler.Base.State.{◌>>=◌, Keeps, bind-Keeps, lift}
use jiascheduler.Agent.ScheduleType.{ScheduleType}
use jiascheduler.Agent.ScheduleStatus.{ScheduleStatus}
use jiascheduler.Agent.Messages.{DispatchJobParams, UpdateJobParams}
use jiascheduler.Agent.Contexts.{Channel, kill_job}
use jiascheduler.Agent.React.{Host}
use jiascheduler.Agent.Supervisors.{
  update_options, exit, Supervisors, signal, update_supervising, exit_supervisor, send_msg,
  instance_of, spawn_new, start_supervising, kill_daemon, stop_supervising, schedule_msg,
}

-- The supervisor was spawned for the job and has not been told to exit.
abbrev pub IsLive : String → Channel → Supervisors → Type 0
IsLive eid tx s = Member (eid, tx) s.tasks × ¬ Member (tx, exit) s.signals

-- A live supervisor is the one in the table.
abbrev pub IsKept : Supervisors → Type 0
IsKept s = (eid : String) (tx : Channel) → IsLive eid tx s → get eid s.jobs ≡ some tx

-- What does not touch the supervisors.
abbrev Apart : Supervisors → Supervisors → Type 0
Apart s t = (t.jobs ≡ s.jobs) × (t.tasks ≡ s.tasks) × (t.signals ≡ s.signals)

Apart-IsKept : (s t : Supervisors) → Apart s t → IsKept s → IsKept t
Apart-IsKept s t (j, k, g) kept eid tx (m, live) =
    let m' : Member (eid, tx) s.tasks = subst (λ x. Member (eid, tx) x) k m in
    ap (get eid) j
    ∙ (kept eid tx (m', λ told. live (subst (λ x. Member (tx, exit) x) (sym g) told)))

Member-append :
    {A : Type 0} (xs : List A) (y a : A) → Member a (xs ++ y ∷ []) → Member a xs ⊎ (y ≡ a)
Member-append [] y a m = elim (Member-cons y [] a m) [ inl e ↦ inr e | inr n ↦ elim n [ ] ]
Member-append (x ∷ xs) y a m = elim (Member-cons x (xs ++ y ∷ []) a m) [
  | inl e ↦ inl (subst (λ z. Member z (x ∷ xs)) e here)
  | inr n ↦ elim (Member-append xs y a n) [ inl k ↦ inl (there k) | inr e ↦ inr e ]
]

append-Member : {A : Type 0} (xs : List A) (y a : A) → Member a xs → Member a (xs ++ y ∷ [])
append-Member [] y a m = elim m [ ]
append-Member (x ∷ xs) y _ here = here
append-Member (x ∷ xs) y a (there m) = there (append-Member xs y a m)

append_last : {A : Type 0} (xs : List A) (y : A) → Member y (xs ++ y ∷ [])
append_last [] y = here
append_last (x ∷ xs) y = there (append_last xs y)

send_msg-Apart :
    (host : Host) (m : UpdateJobParams) (s : Supervisors) → Apart s (send_msg host m s).1
unfolding send_msg
send_msg-Apart host m s = elim (Result-cases (host.send m)) [
  | inl (_, e) ↦ rw (e, send_msg) (refl, refl, refl)
  | inr (_, e) ↦ rw (e, send_msg) (refl, refl, refl)
]

kill_daemon-Apart : (eid : String) (s : Supervisors) → Apart s (kill_daemon eid s).1
unfolding kill_daemon
kill_daemon-Apart eid s = elim (Result-cases (kill_job eid ScheduleType.daemon s.contexts)) [
  | inl (_, e) ↦ rw (e, kill_daemon) (refl, refl, refl)
  | inr (_, e) ↦ rw (e, kill_daemon) (refl, refl, refl)
]

exited-IsKept :
    (eid : String) (old : Channel) (s : Supervisors)
    → get eid s.jobs ≡ some old
    → IsKept s
    → IsKept (signal old exit (record s { jobs = remove eid s.jobs }))
exited-IsKept eid old s e kept other tx (m, live) =
    let before : get other s.jobs ≡ some tx =
      kept other tx (m, λ told. live (append-Member s.signals (old, exit) (tx, exit) told)) in
    elim (Bool-cases (eid == other)) [
      | inl same ↦
          let same' : eid ≡ other = (eq_iff eid other).0 same in
          let tx_old : old ≡ tx = ground (arith, e, before, same') in
          elim (live (
            subst (λ x. Member (x, exit) (s.signals ++ (old, exit) ∷ [])) tx_old
              (append_last s.signals (old, exit)))) [ ]
      | inr ne ↦ ground (arith, before, get-remove eid other s.jobs)
    ]

exit_supervisor-IsKept :
    (eid : String) (s : Supervisors) → IsKept s → IsKept (exit_supervisor eid s).1
unfolding exit_supervisor
exit_supervisor-IsKept eid s kept = elim (Option-cases (get eid s.jobs)) [
  | inl none_ ↦
      rw (exit_supervisor, none_)
        (λ other tx live.
          let before = kept other tx live in
          ground (arith, before, get-remove eid other s.jobs, eq_iff eid other))
  | inr (old, e) ↦ rw (exit_supervisor, e) (exited-IsKept eid old s e kept)
]

updated-IsKept :
    (old : Channel) (opts : DispatchJobParams) (s : Supervisors)
    → IsKept s
    → IsKept (signal old (update_options opts) s)
updated-IsKept old opts s kept eid tx (m, live) =
    kept eid tx
      (m, λ told. live (append-Member s.signals (old, update_options opts) (tx, exit) told))

spawned-IsKept :
    (eid : String) (new : Channel) (s : Supervisors)
    → get eid s.jobs ≡ none
    → IsKept s
    → IsKept (record s { jobs = insert eid new s.jobs; tasks = s.tasks ++ (eid, new) ∷ [] })
spawned-IsKept eid new s free kept other tx (m, live) =
    elim (Member-append s.tasks (eid, new) (other, tx) m) [
      | inl old ↦
          let before = kept other tx (old, live) in
          ground (arith, before, free, get-insert eid other new s.jobs, eq_iff eid other)
      | inr e ↦
          let same : eid ≡ other = ap (λ x. x.0) e in
          let chan : new ≡ tx = ap (λ x. x.1) e in
          ground (arith, get-insert eid other new s.jobs, eq_iff eid other, same, chan)
    ]

abbrev supervise :
    String → Channel → DispatchJobParams → Supervisors → Result String (Unit {0}) × Supervisors
supervise eid tx params = update_supervising eid params tx >>= spawn_new eid tx

supervise-IsKept :
    (eid : String) (tx : Channel) (params : DispatchJobParams) (s : Supervisors)
    → IsKept s
    → IsKept (supervise eid tx params s).1
unfolding update_supervising
supervise-IsKept eid tx params s kept = elim (Option-cases (get eid s.jobs)) [
  | inr (old, e) ↦ rw (e, update_supervising) (updated-IsKept old params s kept)
  | inl none_ ↦ rw (none_, update_supervising) (spawned-IsKept eid tx s none_ kept)
]

abbrev KeepsKept : Supervisors → Supervisors → Type 0
KeepsKept s t = IsKept s → IsKept t

abbrev AllKept : {A : Type 0} → (Supervisors → Result String A × Supervisors) → Type 0
AllKept = Keeps KeepsKept

kept_bind :
    {A B : Type 0} (m : Supervisors → Result String A × Supervisors)
    (f : A → Supervisors → Result String B × Supervisors)
    → AllKept m
    → ((a : A) → AllKept (f a))
    → AllKept (m >>= f)
kept_bind = bind-Keeps KeepsKept (λ s h. h) (λ s t u f g h. g (f h))

announce-AllKept :
    (host : Host) (status : ScheduleStatus) (params : DispatchJobParams)
    → AllKept (lift (instance_of params) >>= λ i. send_msg host (schedule_msg host status params i))
announce-AllKept host status params =
    kept_bind (lift (instance_of params)) (λ i. send_msg host (schedule_msg host status params i))
      (λ s h. h)
      (λ i s.
        Apart-IsKept s (send_msg host (schedule_msg host status params i) s).1
          (send_msg-Apart host (schedule_msg host status params i) s))

-- After `start_supervising`, whatever it answers, a supervisor that was spawned and has not been told
-- to exit is the one that the table has for its job, when this was so before.
pub start_supervising-IsKept :
    (host : Host) (tx : Channel) (params : DispatchJobParams) (s : Supervisors)
    → IsKept s
    → IsKept (start_supervising host tx params s).1
unfolding start_supervising
start_supervising-IsKept host tx params =
    let eid = params.base_job.eid in
    let msg : String → UpdateJobParams = schedule_msg host ScheduleStatus.supervising params in
    kept_bind (lift (instance_of params))
      (λ i. send_msg host (msg i) >>= λ _. supervise eid tx params) (λ s h. h)
      (λ i.
        kept_bind (send_msg host (msg i)) (λ _. supervise eid tx params)
          (λ s. Apart-IsKept s (send_msg host (msg i) s).1 (send_msg-Apart host (msg i) s))
          (λ _. supervise-IsKept eid tx params))

-- After `stop_supervising`, whatever it answers, a supervisor that was spawned and has not been told
-- to exit is the one that the table has for its job, when this was so before.
pub stop_supervising-IsKept :
    (host : Host) (params : DispatchJobParams) (s : Supervisors)
    → IsKept s
    → IsKept (stop_supervising host params s).1
unfolding stop_supervising
stop_supervising-IsKept host params =
    let eid = params.base_job.eid in
    let announce : Supervisors → Result String (Unit {0}) × Supervisors =
      lift (instance_of params) >>= λ i.
      send_msg host (schedule_msg host ScheduleStatus.unsupervised params i) in
    kept_bind (kill_daemon eid) (λ _. exit_supervisor eid >>= λ _. announce)
      (λ s. Apart-IsKept s (kill_daemon eid s).1 (kill_daemon-Apart eid s))
      (λ _.
        kept_bind (exit_supervisor eid) (λ _. announce) (exit_supervisor-IsKept eid)
          (λ _. announce-AllKept host ScheduleStatus.unsupervised params))
