-- ===== src/Jobs/Running/Board.antt =====
-- The table of running jobs as a board that shows one status for each job, kind of schedule and
-- instance (crates/service/src/logic/job/schedule.rs, `update_job_status`).
use jiascheduler.Base.{
  ◌≡◌, ◌∙◌, refl, ap, sym, inl, inr, eq_iff, eq_refl, true, false, Option, none, some, List, [],
  ◌∷◌, any, find, any-find, find-any, find-append, find-update_where, find-some, changed,
  change_found, or_in, if◌then◌else◌, Bool-cases, Option-cases, arith,
}
use jiascheduler.Agent.Messages.{UpdateJobParams}
use jiascheduler.Jobs.Tables.{JobRunningStatus}
use jiascheduler.Jobs.Running.{
  assign_all, update_values, new_status, Key, key_of, key_eq, has_key, upsert,
}
use jiascheduler.Jobs.Running.Assignments.{told, assign_all-told}

-- What is known of each job, kind of schedule and instance.
abbrev pub Board : Type 0
Board = Key → Option JobRunningStatus

unfoldable pub told_of : UpdateJobParams → Option JobRunningStatus → JobRunningStatus
unfolding new_status
told_of params none = new_status params
told_of params (some row) = told params row

unfoldable pub reported_key : UpdateJobParams → Key
unfolding new_status
reported_key params = key_of (new_status params)

-- A report changes the status that it is about, and no other.
abbrev pub tell : UpdateJobParams → Board → Board
tell params board key =
    if key_eq (reported_key params) key then some (told_of params (board key)) else board key

-- The rows of the table are what the board shows.
abbrev pub Shows : List JobRunningStatus → Board → Type 0
Shows rows board = (key : Key) → find (has_key key) rows ≡ board key

key_eq-path : (a b : Key) → key_eq a b ≡ true → a ≡ b
key_eq-path a b h =
    let e : a.eid ≡ b.eid = ground (
      arith,
      eq_iff a.eid b.eid,
      eq_iff a.schedule_type b.schedule_type,
      eq_iff a.instance_id b.instance_id,
    ) in
    let t : a.schedule_type ≡ b.schedule_type = ground (
      arith,
      eq_iff a.eid b.eid,
      eq_iff a.schedule_type b.schedule_type,
      eq_iff a.instance_id b.instance_id,
    ) in
    let i : a.instance_id ≡ b.instance_id = ground (
      arith,
      eq_iff a.eid b.eid,
      eq_iff a.schedule_type b.schedule_type,
      eq_iff a.instance_id b.instance_id,
    ) in
    λ j. record { eid = e j; schedule_type = t j; instance_id = i j }

pub key_eq_refl : (key : Key) → key_eq key key ≡ true
key_eq_refl key =
    ground (arith, eq_refl key.eid, eq_refl key.schedule_type, eq_refl key.instance_id)

-- The row that an update leaves of a row, by the key that it is of.
abbrev of_update : UpdateJobParams → JobRunningStatus → JobRunningStatus
of_update params = changed (has_key (reported_key params)) (assign_all (update_values params))

of_update-key :
    (params : UpdateJobParams) (key : Key) (row : JobRunningStatus)
    → has_key key (of_update params row) ≡ has_key key row
of_update-key params key row = elim (Bool-cases (has_key (reported_key params) row)) [
  | inl e ↦ rw e (ap (has_key key) (assign_all-told params row))
  | inr e ↦ rw e refl
]

-- The status that the board is to show.
abbrev pub shown : UpdateJobParams → Key → List JobRunningStatus → Option JobRunningStatus
shown params key rows =
    if key_eq (reported_key params) key
    then some (told_of params (find (has_key key) rows))
    else find (has_key key) rows

other_key : (a b c : Key) → c ≡ b → key_eq a b ≡ false → key_eq c a ≡ false
other_key a b c same other = elim (Bool-cases (key_eq c a)) [
  | inl e ↦
      let p : key_eq a b ≡ true =
        ap (λ k. key_eq a k) (sym same ∙ key_eq-path c a e) ∙ key_eq_refl a in
      cc (p, other)
  | inr e ↦ e
]

updated-shown :
    (params : UpdateJobParams) (rows : List JobRunningStatus) (key : Key)
    → any (has_key (reported_key params)) rows ≡ true
    → change_found (of_update params) (find (has_key key) rows) ≡ shown params key rows
unfolding told_of
updated-shown params rows key present = elim (Option-cases (find (has_key key) rows)) [
  | inl missing ↦ elim (Bool-cases (key_eq (reported_key params) key)) [
    | inl own ↦
        let absent = find-any (has_key key) rows missing in
        cc (
          absent,
          present,
          ap (λ k. any (has_key k) rows) (key_eq-path (reported_key params) key own),
        )
    | inr other ↦ rw (missing, other) refl
  ]
  | inr (row, e) ↦
      let (_, is) = find-some (has_key key) rows row e in
      let same = key_eq-path (key_of row) key is in
      elim (Bool-cases (key_eq (reported_key params) key)) [
        | inl own ↦
            let of : has_key (reported_key params) row ≡ true =
              ap (λ k. key_eq k (reported_key params))
                (same ∙ sym (key_eq-path (reported_key params) key own))
              ∙ key_eq_refl (reported_key params) in
            rw (e, own, of) (ap some (assign_all-told params row))
        | inr other ↦
            let of : has_key (reported_key params) row ≡ false =
              other_key (reported_key params) key (key_of row) same other in
            rw (e, other, of) refl
      ]
]

appended-shown :
    (params : UpdateJobParams) (rows : List JobRunningStatus) (key : Key)
    → any (has_key (reported_key params)) rows ≡ false
    → or_in (find (has_key key) rows) (find (has_key key) (new_status params ∷ []))
      ≡ shown params key rows
unfolding new_status told_of reported_key
appended-shown params rows key absent = elim (Bool-cases (key_eq (reported_key params) key)) [
  | inl own ↦
      let missing : find (has_key key) rows ≡ none = any-find (has_key key) rows (
        ap (λ k. any (has_key k) rows) (sym (key_eq-path (reported_key params) key own))
        ∙ absent) in
      rw (missing, own) refl
  | inr other ↦ elim (Option-cases (find (has_key key) rows)) [
    | inl missing ↦ rw (missing, other) refl
    | inr (row, e) ↦ rw (e, other) refl
  ]
]

pub upsert-shown :
    (params : UpdateJobParams) (rows : List JobRunningStatus) (key : Key)
    → find (has_key key) (upsert params rows) ≡ shown params key rows
unfolding upsert new_status reported_key
upsert-shown params rows key = elim (Bool-cases (any (has_key (reported_key params)) rows)) [
  | inl present ↦ rw present (
      find-update_where (has_key key) (has_key (reported_key params))
        (assign_all (update_values params)) rows (of_update-key params key)
      ∙ updated-shown params rows key present)
  | inr absent ↦ rw absent (
      find-append (has_key key) rows (new_status params ∷ [])
      ∙ appended-shown params rows key absent)
]

pub upsert-Shows :
    (params : UpdateJobParams) (rows : List JobRunningStatus) (board : Board)
    → Shows rows board
    → Shows (upsert params rows) (tell params board)
upsert-Shows params rows board h key = upsert-shown params rows key ∙ rw (h key) refl
