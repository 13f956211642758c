-- ===== src/Jobs/Running/Assignments.antt =====
-- The assignments of `update_values`, taken together (crates/service/src/logic/job/schedule.rs,
-- `update_job_status`).
use jiascheduler.Base.{
  ℕ, ◌≡◌, ◌∙◌, refl, ap, String, false, Option, none, some, List, [], ◌∷◌, ◌++◌,
}
use jiascheduler.Agent.RunStatus
use jiascheduler.Agent.RunStatus.{RunStatus}
use jiascheduler.Agent.ScheduleStatus
use jiascheduler.Agent.ScheduleStatus.{ScheduleStatus}
use jiascheduler.Agent.Messages.{UpdateJobParams}
use jiascheduler.Jobs.Tables.{JobRunningStatus}
use jiascheduler.Jobs.Running.{
  Column, assign, assign_all, if_some, unscheduled_next, update_values, text_of,
}

abbrev pub or_keep {ℓ} : {A : Type ℓ} → A → Option A → A
or_keep a none = a
or_keep a (some b) = b

-- The new value if there is one.
abbrev or_else {ℓ} : {A : Type ℓ} → Option A → Option A → Option A
or_else old none = old
or_else old (some v) = some v

-- An end is told together with a start, or not at all.
abbrev end_with : Option ℕ → Option ℕ → Option ℕ → Option ℕ
end_with old none end = old
end_with old (some start) end = end

-- A timer that was taken away has no next run, unless one is told.
abbrev next_with : Option ℕ → Option ScheduleStatus → Option ℕ → Option ℕ
next_with old (some ScheduleStatus.unscheduled) next = next
next_with old _ next = or_else old next

-- What a status becomes when a report tells of it.
abbrev pub told : UpdateJobParams → JobRunningStatus → JobRunningStatus
told params row = record {
  eid = row.eid;
  schedule_type = row.schedule_type;
  instance_id = row.instance_id;
  schedule_id = params.schedule_id;
  schedule_status = text_of ScheduleStatus.to_string row.schedule_status params.schedule_status;
  run_status = text_of RunStatus.to_string row.run_status params.run_status;
  exit_status = or_keep row.exit_status params.exit_status;
  exit_code = or_keep row.exit_code params.exit_code;
  job_type = row.job_type;
  start_time = or_else row.start_time params.start_time;
  end_time = end_with row.end_time params.start_time params.end_time;
  prev_time = or_else row.prev_time params.prev_time;
  next_time = next_with row.next_time params.schedule_status params.next_time;
  updated_user = params.created_user;
  is_deleted = false;
}

assign_all-append :
    (xs ys : List Column) (row : JobRunningStatus)
    → assign_all (xs ++ ys) row ≡ assign_all ys (assign_all xs row)
assign_all-append [] ys row = refl
assign_all-append (x ∷ xs) ys row = assign_all-append xs ys (assign row x)

-- Assignments in a row, each with what it does to a row.
after :
    (xs ys : List Column) (f g : JobRunningStatus → JobRunningStatus)
    → ((row : JobRunningStatus) → assign_all xs row ≡ f row)
    → ((row : JobRunningStatus) → assign_all ys row ≡ g row)
    → (row : JobRunningStatus) → assign_all (xs ++ ys) row ≡ g (f row)
after xs ys f g hf hg row = assign_all-append xs ys row ∙ hg (assign_all xs row) ∙ ap g (hf row)

abbrev set_start : Option ℕ → Option ℕ → JobRunningStatus → JobRunningStatus
set_start start end row = record row {
  start_time = or_else row.start_time start;
  end_time = end_with row.end_time start end;
}

assign-start :
    (start end : Option ℕ) (row : JobRunningStatus)
    → assign_all (if_some start (λ v. Column.start_time (some v) ∷ Column.end_time end ∷ [])) row
      ≡ set_start start end row
assign-start none end row = refl
assign-start (some v) end row = refl

abbrev cleared_next : Option ℕ → Option ScheduleStatus → Option ℕ → Option ℕ
cleared_next old (some ScheduleStatus.unscheduled) next = next
cleared_next old _ next = old

abbrev set_cleared : Option ScheduleStatus → Option ℕ → JobRunningStatus → JobRunningStatus
set_cleared status next row = record row { next_time = cleared_next row.next_time status next }

assign-cleared :
    (status : Option ScheduleStatus) (next : Option ℕ) (row : JobRunningStatus)
    → assign_all (if_some status (unscheduled_next next)) row ≡ set_cleared status next row
assign-cleared none next row = refl
assign-cleared (some ScheduleStatus.unscheduled) next row = refl
assign-cleared (some ScheduleStatus.prepare) next row = refl
assign-cleared (some _) next row = refl

abbrev set_run : Option RunStatus → JobRunningStatus → JobRunningStatus
set_run status row = record row { run_status = text_of RunStatus.to_string row.run_status status }

assign-run :
    (status : Option RunStatus) (row : JobRunningStatus)
    → assign_all (if_some status (λ v. Column.run_status (RunStatus.to_string v) ∷ [])) row
      ≡ set_run status row
assign-run none row = refl
assign-run (some v) row = refl

abbrev set_exit_status : Option String → JobRunningStatus → JobRunningStatus
set_exit_status status row = record row { exit_status = or_keep row.exit_status status }

assign-exit_status :
    (status : Option String) (row : JobRunningStatus)
    → assign_all (if_some status (λ v. Column.exit_status v ∷ [])) row ≡ set_exit_status status row
assign-exit_status none row = refl
assign-exit_status (some v) row = refl

abbrev set_exit_code : Option ℕ → JobRunningStatus → JobRunningStatus
set_exit_code code row = record row { exit_code = or_keep row.exit_code code }

assign-exit_code :
    (code : Option ℕ) (row : JobRunningStatus)
    → assign_all (if_some code (λ v. Column.exit_code v ∷ [])) row ≡ set_exit_code code row
assign-exit_code none row = refl
assign-exit_code (some v) row = refl

abbrev set_schedule : Option ScheduleStatus → JobRunningStatus → JobRunningStatus
set_schedule status row = record row {
  schedule_status = text_of ScheduleStatus.to_string row.schedule_status status;
}

assign-schedule :
    (status : Option ScheduleStatus) (row : JobRunningStatus)
    → assign_all
        (if_some status (λ v. Column.schedule_status (ScheduleStatus.to_string v) ∷ []))
        row
      ≡ set_schedule status row
assign-schedule none row = refl
assign-schedule (some v) row = refl

abbrev set_prev : Option ℕ → JobRunningStatus → JobRunningStatus
set_prev prev row = record row { prev_time = or_else row.prev_time prev }

assign-prev :
    (prev : Option ℕ) (row : JobRunningStatus)
    → assign_all (if_some prev (λ v. Column.prev_time (some v) ∷ [])) row ≡ set_prev prev row
assign-prev none row = refl
assign-prev (some v) row = refl

abbrev set_next : Option ℕ → JobRunningStatus → JobRunningStatus
set_next next row = record row { next_time = or_else row.next_time next }

assign-next :
    (next : Option ℕ) (row : JobRunningStatus)
    → assign_all (if_some next (λ v. Column.next_time (some v) ∷ [])) row ≡ set_next next row
assign-next none row = refl
assign-next (some v) row = refl

next_with-cleared :
    (old next : Option ℕ) (status : Option ScheduleStatus)
    → or_else (cleared_next old status next) next ≡ next_with old status next
next_with-cleared old none (some ScheduleStatus.unscheduled) = refl
next_with-cleared old (some v) (some ScheduleStatus.unscheduled) = refl
next_with-cleared old next (some ScheduleStatus.prepare) = refl
next_with-cleared old next (some _) = refl
next_with-cleared old next none = refl

-- The assignments of an update, taken together.
pub assign_all-told :
    (params : UpdateJobParams) (row : JobRunningStatus)
    → assign_all (update_values params) row ≡ told params row
unfolding update_values
assign_all-told params row =
    let start =
      if_some params.start_time
        (λ v. Column.start_time (some v) ∷ Column.end_time params.end_time ∷ []) in
    let cleared = if_some params.schedule_status (unscheduled_next params.next_time) in
    let run = if_some params.run_status (λ v. Column.run_status (RunStatus.to_string v) ∷ []) in
    let exit_status = if_some params.exit_status (λ v. Column.exit_status v ∷ []) in
    let exit_code = if_some params.exit_code (λ v. Column.exit_code v ∷ []) in
    let schedule =
      if_some params.schedule_status
        (λ v. Column.schedule_status (ScheduleStatus.to_string v) ∷ []) in
    let prev = if_some params.prev_time (λ v. Column.prev_time (some v) ∷ []) in
    let next = if_some params.next_time (λ v. Column.next_time (some v) ∷ []) in
    let f1 = λ (row : JobRunningStatus).
      set_cleared params.schedule_status params.next_time
        ((set_start params.start_time params.end_time) row) in
    let e1 =
      after (start) cleared (set_start params.start_time params.end_time)
        (set_cleared params.schedule_status params.next_time)
        (assign-start params.start_time params.end_time)
        (assign-cleared params.schedule_status params.next_time) in
    let f2 = λ (row : JobRunningStatus). set_run params.run_status (f1 row) in
    let e2 =
      after (start ++ cleared) run f1 (set_run params.run_status) e1
        (assign-run params.run_status) in
    let f3 = λ (row : JobRunningStatus). set_exit_status params.exit_status (f2 row) in
    let e3 =
      after (start ++ cleared ++ run) exit_status f2 (set_exit_status params.exit_status) e2
        (assign-exit_status params.exit_status) in
    let f4 = λ (row : JobRunningStatus). set_exit_code params.exit_code (f3 row) in
    let e4 =
      after (start ++ cleared ++ run ++ exit_status) exit_code f3 (set_exit_code params.exit_code)
        e3 (assign-exit_code params.exit_code) in
    let f5 = λ (row : JobRunningStatus). set_schedule params.schedule_status (f4 row) in
    let e5 =
      after (start ++ cleared ++ run ++ exit_status ++ exit_code) schedule f4
        (set_schedule params.schedule_status) e4 (assign-schedule params.schedule_status) in
    let f6 = λ (row : JobRunningStatus). set_prev params.prev_time (f5 row) in
    let e6 =
      after (start ++ cleared ++ run ++ exit_status ++ exit_code ++ schedule) prev f5
        (set_prev params.prev_time) e5 (assign-prev params.prev_time) in
    let f7 = λ (row : JobRunningStatus). set_next params.next_time (f6 row) in
    let e7 =
      after (start ++ cleared ++ run ++ exit_status ++ exit_code ++ schedule ++ prev) next f6
        (set_next params.next_time) e6 (assign-next params.next_time) in
    e7 (record row {
      schedule_id = params.schedule_id;
      updated_user = params.created_user;
      is_deleted = false;
    })
    ∙ ap (λ t. record (told params row) { next_time = t })
        (next_with-cleared row.next_time params.next_time params.schedule_status)
