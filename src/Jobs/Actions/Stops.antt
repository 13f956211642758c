-- ===== src/Jobs/Actions/Stops.antt =====
-- What an action on a dispatch changes (crates/service/src/logic/job/schedule.rs, `action`).
use jiascheduler.Base.{
  ◌≡◌, ◌⊎◌, ◌↔◌, refl, ap, subst, inl, inr, String, true, false, Option, none, some, List, Result,
  ok, err, Member, count_if, count_if-update_where, Bool, update_where-Member, Member-update_where,
  Result-cases, Bool-cases,
}
use jiascheduler.Agent.JobAction.{JobAction}
use jiascheduler.Agent.ScheduleStatus.{ScheduleStatus}
use jiascheduler.Jobs.Tables.{Records, JobRunningStatus}
use jiascheduler.Jobs.Running.{Key, has_key}
use jiascheduler.Jobs.Push.{Network}
use jiascheduler.Jobs.Actions.Takes.{
  Takes, send_action-Decides, IsAllowed, prepare_action-IsAllowed,
}
use jiascheduler.Jobs.Actions.{
  Caller, Prepared, set_stopped, mark_stopped, update_run_status, prepare_action, after_action,
  action, action_request, send_action,
}

abbrev pub Stops : JobAction → Type 0
Stops action =
    (action ≡ JobAction.kill)
    ⊎ (action ≡ JobAction.stop_timer)
    ⊎ (action ≡ JobAction.stop_supervising)

-- What an action says of the schedule of a run that it stops.
abbrev pub Told : JobAction → JobRunningStatus → Type 0
Told JobAction.stop_timer row = row.schedule_status ≡ "unscheduled"
Told JobAction.stop_supervising row = row.schedule_status ≡ "unsupervised"
Told _ row = Unit

abbrev pub Says : String → JobAction → JobRunningStatus → Type 0
Says username action row =
    (row.run_status ≡ "stop") × (row.updated_user ≡ username) × Told action row

-- The rows of the key are as many as before and say that the user has stopped the run; the others
-- are those that were there.
abbrev pub IsStopped :
    String → JobAction → Key → List JobRunningStatus → List JobRunningStatus → Type 0
IsStopped username action key before after =
    ((row : JobRunningStatus)
      → Member row after
      → has_key key row ≡ true
      → Says username action row)
    × ((row : JobRunningStatus) → has_key key row ≡ false → Member row after ↔ Member row before)
    × (count_if (has_key key) after ≡ count_if (has_key key) before)

set_stopped-key :
    (username : String) (status : Option ScheduleStatus) (key : Key) (row : JobRunningStatus)
    → has_key key (set_stopped username status row) ≡ has_key key row
unfolding set_stopped
set_stopped-key username none key row = refl
set_stopped-key username (some status) key row = refl

mark_stopped-IsStopped :
    (username : String) (action : JobAction) (status : Option ScheduleStatus) (key : Key)
    (s : Records)
    → ((row : JobRunningStatus) → Says username action (set_stopped username status row))
    → IsStopped username action key s.running (mark_stopped username key status s).running
mark_stopped-IsStopped username action status key s says =
    let f = set_stopped username status in
    (
      λ row m h.
          let (old, _, e) = update_where-Member (has_key key) f s.running row m in
          elim (Bool-cases (has_key key old)) [
            | inl own ↦
                let e' : f old ≡ row = rw own at e in subst (Says username action) e' (says old)
            | inr other ↦ let e' : old ≡ row = rw other at e in cc (e', other, h)
          ],
      λ row other. (
        λ m.
            let (old, before, e) = update_where-Member (has_key key) f s.running row m in
            elim (Bool-cases (has_key key old)) [
              | inl own ↦
                  let e' : f old ≡ row = rw own at e in
                  let same = set_stopped-key username status key old in cc (e', same, own, other)
              | inr not_own ↦
                  let e' : old ≡ row = rw not_own at e in subst (λ r. Member r s.running) e' before
            ],
        λ before. let m = Member-update_where (has_key key) f s.running row before in rw other at m,
      ),
      count_if-update_where (has_key key) (has_key key) f s.running
          (set_stopped-key username status key),
    )

stop-Says :
    (username : String) (action : JobAction) (status : Option ScheduleStatus)
    (row : JobRunningStatus)
    → Told action (set_stopped username status row)
    → Says username action (set_stopped username status row)
unfolding set_stopped
stop-Says username action none row told = (refl, refl, told)
stop-Says username action (some status) row told = (refl, refl, told)

abbrev stops : JobAction → Bool
stops JobAction.kill = true
stops JobAction.stop_timer = true
stops JobAction.stop_supervising = true
stops _ = false

goes_on : (action : JobAction) → stops action ≡ false → ¬ Stops action
goes_on action e (inl h) = cc (e, ap stops h)
goes_on action e (inr (inl h)) = cc (e, ap stops h)
goes_on action e (inr (inr h)) = cc (e, ap stops h)

-- The rows of the key say that the run has stopped if the action stops it, and no other table is
-- changed; any other action changes nothing.
abbrev pub IsMarked : String → JobAction → Key → Records → Records → Type 0
IsMarked username action key s t =
    (Stops action
      × IsStopped username action key s.running t.running
      × (t ≡ record s { running = t.running }))
    ⊎ (¬ Stops action × (t ≡ s))

update_run_status-IsMarked :
    (username : String) (key : Key) (action : JobAction) (s : Records)
    → IsMarked username action key s (update_run_status username key action s)
unfolding update_run_status set_stopped
update_run_status-IsMarked username key JobAction.kill s = inl (
  inl refl,
  mark_stopped-IsStopped username JobAction.kill none key s
      (λ row. stop-Says username JobAction.kill none row tt),
  refl,
)
update_run_status-IsMarked username key JobAction.stop_timer s = inl (
  inr (inl refl),
  mark_stopped-IsStopped username JobAction.stop_timer (some ScheduleStatus.unscheduled) key s
      (λ row. stop-Says username JobAction.stop_timer (some ScheduleStatus.unscheduled) row refl),
  refl,
)
update_run_status-IsMarked username key JobAction.stop_supervising s = inl (
  inr (inr refl),
  mark_stopped-IsStopped username JobAction.stop_supervising (some ScheduleStatus.unsupervised) key
      s
      (λ row.
        stop-Says username JobAction.stop_supervising (some ScheduleStatus.unsupervised) row refl),
  refl,
)
update_run_status-IsMarked username key JobAction.todo s = inr (goes_on JobAction.todo refl, refl)
update_run_status-IsMarked username key JobAction.exec s = inr (goes_on JobAction.exec refl, refl)
update_run_status-IsMarked username key JobAction.start_timer s =
    inr (goes_on JobAction.start_timer refl, refl)
update_run_status-IsMarked username key JobAction.start_supervising s =
    inr (goes_on JobAction.start_supervising refl, refl)
update_run_status-IsMarked username key JobAction.restart_supervising s =
    inr (goes_on JobAction.restart_supervising refl, refl)

-- The agent takes the action and nothing is changed, or it does not and the rows are marked.
abbrev pub IsSettled :
    Network
    → Caller
    → JobAction
    → String
    → Prepared
    → Records
    → Result String String × Records
    → Type 0
IsSettled network caller action run_id prepared s (r, t) =
    let request = action_request caller prepared action run_id in
    ((answer : String) × Takes network request prepared.ins answer × (r ≡ ok answer) × (t ≡ s))
    ⊎ ((e : String) × ((answer : String) → ¬ Takes network request prepared.ins answer)
        × (r ≡ err e)
        × IsMarked caller.username action prepared.key s t)

after_action-IsSettled :
    (network : Network) (caller : Caller) (action : JobAction) (run_id : String)
    (prepared : Prepared) (s : Records)
    → let request = action_request caller prepared action run_id in
      IsSettled network caller action run_id prepared s (
        after_action caller.username prepared.key action
          (send_action network request prepared.ins)
          s)
unfolding after_action
after_action-IsSettled network caller action run_id prepared s =
    elim (send_action-Decides network (action_request caller prepared action run_id) prepared.ins) [
      | inl (answer, e, takes) ↦ rw (e, after_action) (inl (answer, takes, refl, refl))
      | inr (e, failed, never) ↦
          rw (failed, after_action)
            (inr (e, never, refl, update_run_status-IsMarked caller.username prepared.key action s))
    ]

-- An action on a dispatch that cannot be prepared is refused with that error and changes nothing.
-- One that is, is allowed: the instance, the dispatch in the history and its data are there, and the
-- user may dispatch its job. Then either the agent takes the action, and its answer is returned and
-- nothing changes; or it cannot be reached or does not take it, and an error is returned. In that
-- case a kill and the stop of a timer or supervisor make every row of the job, the kind of schedule
-- and the instance say that the run has stopped, and leave all other rows and tables as they were;
-- any other action changes nothing.
pub action-IsSettled :
    (network : Network) (caller : Caller) (schedule_id instance_id : String)
    (job_action : JobAction) (run_id : String) (s : Records)
    → ((e : String) × (prepare_action caller schedule_id instance_id s.histories ≡ err e)
        × (action network caller schedule_id instance_id job_action run_id s ≡ (err e, s)))
      ⊎ ((prepared : Prepared) × IsAllowed caller schedule_id instance_id s.histories prepared
          × IsSettled network caller job_action run_id prepared s
              (action network caller schedule_id instance_id job_action run_id s))
unfolding action
action-IsSettled network caller schedule_id instance_id job_action run_id s =
    elim (Result-cases (prepare_action caller schedule_id instance_id s.histories)) [
      | inr (e, q) ↦ inl (e, q, rw (q, action) refl)
      | inl (prepared, q) ↦ inr (
        prepared,
        prepare_action-IsAllowed caller schedule_id instance_id s.histories prepared q,
        rw (q, action) (after_action-IsSettled network caller job_action run_id prepared s),
      )
    ]
