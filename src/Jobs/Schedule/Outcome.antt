-- ===== src/Jobs/Schedule/Outcome.antt =====
-- What a request to schedule a job leaves (crates/service/src/logic/job/schedule.rs,
-- `schedule_job`).
use jiascheduler.Base.{
  Bool, true, arith, ℕ, ◌≡◌, ◌⊎◌, ◌↔◌, ◌∙◌, ap, sym, subst, count_if, refl, inl, inr, String, false,
  Option, none, some, List, [], ◌∷◌, ◌++◌, map, Result, ok, err, ◌>>=◌, >>=-eq-ok, All, HashMap,
  Bool-cases, Result-cases, Option-cases,
}
use jiascheduler.BatchDo.{has_ended, always}
use jiascheduler.BatchDo.Values.{async_batch_do-values}
use jiascheduler.Workflow.Tables.{DispatchResult}
use jiascheduler.Agent.Messages.{DispatchJobParams}
use jiascheduler.Workflow.Store.{Fault, or_failed}
use jiascheduler.Jobs.Tables.{DispatchData, Records, JobScheduleHistory, DispatchTarget}
use jiascheduler.Jobs.Push.{Network, Response, Reply, read_body, checked, push, after_post}
use jiascheduler.Jobs.Prepare.{
  Sources, ScheduleRequest, Prepared, prepare, prepare_checked, require_targets, job_for,
  prepared_of, check_schedule_type,
}
use jiascheduler.Jobs.Schedule.{
  save_parent, new_history, all_sent, unwrap_all, push_all, schedule_pushed, schedule_prepared,
  schedule_from, schedule_job,
}

read_body-instance :
    (v : DispatchTarget) (body : Result String Reply)
    → (read_body v body).instance_id ≡ v.instance_id
read_body-instance v (err e) = refl
read_body-instance v (ok ret) = refl

checked-instance :
    (v : DispatchTarget) (response : Response) → (checked v response).instance_id ≡ v.instance_id
checked-instance v response = elim (Option-cases response.status_error) [
  | inl fine ↦ rw (fine, checked) (read_body-instance v response.body)
  | inr (e, bad) ↦ rw (bad, checked) refl
]

after_post-instance :
    (v : DispatchTarget) (answer : Result String Response)
    → (after_post checked v answer).instance_id ≡ v.instance_id
after_post-instance v (err e) = refl
after_post-instance v (ok response) = checked-instance v response

-- A push answers about the instance that it went to, whatever came of it.
push-instance :
    (network : Network) (secret : String) (params : DispatchJobParams) (v : DispatchTarget)
    → (push network secret params v).instance_id ≡ v.instance_id
unfolding push
push-instance network secret params v =
    elim (Result-cases (network.get_link_pair v.ip v.mac_addr)) [
      | inl (comet_addr, e) ↦ rw (e, push) (after_post-instance v _)
      | inr (e, q) ↦ rw (q, push) refl
    ]

all_sent_iff :
    (results : List DispatchResult)
    → (all_sent results ≡ ok tt) ↔ All (λ v. v.has_err ≡ false) results
all_sent_iff [] = (λ _. tt, λ _. refl)
all_sent_iff (v ∷ results) =
    let (to, from) = all_sent_iff results in
    elim (Bool-cases v.has_err) [
      | inl bad ↦ (λ h. cc (rw bad at h), λ h. cc (bad, h.0))
      | inr fine ↦ rw fine (λ h. (refl, to h), λ h. from h.1)
    ]

or_failed-ok :
    (r : Result String Prepared) (prepared : Prepared) → or_failed r ≡ ok prepared → r ≡ ok prepared
or_failed-ok (ok p) prepared h = cc
or_failed-ok (err e) prepared h = cc

require_targets-ok :
    (found endpoints : List DispatchTarget)
    → require_targets found ≡ ok endpoints
    → endpoints ≡ found
require_targets-ok [] endpoints h = cc
require_targets-ok (v ∷ found) endpoints h = cc

prepare-target :
    (sources : Sources) (req : ScheduleRequest) (prepared : Prepared)
    → prepare sources req ≡ ok prepared
    → prepared.data_.target ≡ sources.find_instances req.instance_ids
unfolding prepare prepare_checked
prepare-target sources req prepared h =
    let (_, _, checked_) =
      >>=-eq-ok (check_schedule_type req.action req.schedule_type)
        (λ _. or_failed (prepare_checked sources req)) h in
    let ready = or_failed-ok (prepare_checked sources req) prepared checked_ in
    let (endpoints, found, rest) =
      >>=-eq-ok (require_targets (sources.find_instances req.instance_ids))
        (λ endpoints.
          job_for sources req req.job_record >>= λ job. ok (prepared_of sources req endpoints job))
        ready in
    let (job, _, same) =
      >>=-eq-ok (job_for sources req req.job_record)
        (λ job. ok (prepared_of sources req endpoints job)) rest in
    let e : prepared_of sources req endpoints job ≡ prepared = cc same in
    ap (λ x. x.data_.target) (sym e)
    ∙ require_targets-ok (sources.find_instances req.instance_ids) endpoints found

unwrap_all-ok : (results : List DispatchResult) → unwrap_all (map (λ v. ok v) results) ≡ ok results
unwrap_all-ok [] = refl
unwrap_all-ok (v ∷ results) = rw (unwrap_all-ok results) refl

-- Of each set of identifiers of instances, as many results as instances have one of them.
abbrev pub OneEach : List DispatchResult → List DispatchTarget → Type 0
OneEach results targets =
    (p : String → Bool)
    → count_if (λ v. p v.instance_id) results ≡ count_if (λ v. p v.instance_id) targets

map-push :
    (network : Network) (secret : String) (params : DispatchJobParams)
    (target : List DispatchTarget)
    → OneEach (map (push network secret params) target) target
map-push network secret params [] p = refl
map-push network secret params (v ∷ target) p =
    let same = push-instance network secret params v in
    let rest = map-push network secret params target p in rw same (omega (arith, rest))

-- Every worker that pushes to these instances ends, whatever it pushes.
abbrev pub WorkersEnd : Network → List DispatchTarget → Type 0
WorkersEnd network targets =
    (handler : DispatchTarget → Result String DispatchResult)
    → has_ended network.schedule targets handler ≡ true

push_all-OneEach :
    (network : Network) (sources : Sources) (secret : String) (data_ : DispatchData)
    → WorkersEnd network data_.target
    → (results : List DispatchResult) × (push_all network sources secret data_ ≡ ok results)
      × OneEach results data_.target
push_all-OneEach network sources secret data_ ends =
    let f = push network secret data_.params in
    let (results, e, counted) =
      async_batch_do-values network.schedule data_.target f (ends (always f)) in
    (
      results,
      ap unwrap_all e ∙ unwrap_all-ok results,
      λ p. counted (λ v. p v.instance_id) ∙ map-push network secret data_.params data_.target p,
    )

-- The history of the request: one result for each instance that was found; and the request has
-- succeeded exactly when every result has.
abbrev pub IsScheduled :
    Sources → ScheduleRequest → Records → Result Fault (Unit {0}) × Records → Type 0
IsScheduled sources req s (r, t) =
    (history : JobScheduleHistory) × (t.histories ≡ s.histories ++ history ∷ [])
    × (history.schedule_id ≡ req.schedule_id)
    × OneEach history.dispatch_result (sources.find_instances req.instance_ids)
    × ((r ≡ ok tt) ↔ All (λ v. v.has_err ≡ false) history.dispatch_result)

-- Nothing is written, and the request fails as its preparation did.
abbrev pub IsRefused :
    Sources → ScheduleRequest → Records → Result Fault (Unit {0}) × Records → Type 0
IsRefused sources req s (r, t) = (e : Fault) × (prepare sources req ≡ err e) × (r ≡ err e) × (t ≡ s)

save_parent-histories :
    (sources : Sources) (req : ScheduleRequest) (args : Option (HashMap String)) (pid : Option ℕ)
    (s : Records)
    → (save_parent sources req args pid s).1.histories ≡ s.histories
unfolding save_parent
save_parent-histories sources req args none s = refl
save_parent-histories sources req args (some pid) s = refl

schedule_prepared-IsScheduled :
    (network : Network) (sources : Sources) (req : ScheduleRequest) (prepared : Prepared)
    (s : Records)
    → WorkersEnd network (sources.find_instances req.instance_ids)
    → prepare sources req ≡ ok prepared
    → IsScheduled sources req s (schedule_prepared network sources req prepared s)
unfolding schedule_prepared schedule_pushed new_history
schedule_prepared-IsScheduled network sources req prepared s ends h =
    let found = prepare-target sources req prepared h in
    let (results, pushed, each) =
      push_all-OneEach network sources req.secret prepared.data_
        (subst (WorkersEnd network) (sym found) ends) in
    let saved = save_parent sources req prepared.job_actual_args req.schedule_pid s in
    let history = new_history sources req prepared results saved.0 in
    rw (pushed, schedule_prepared, schedule_pushed)
      (
        history,
        ap (λ hs. hs ++ history ∷ [])
            (save_parent-histories sources req prepared.job_actual_args req.schedule_pid s),
        refl,
        subst (OneEach results) found each,
        all_sent_iff results,
      )

-- If the workers that push to the instances that are found end: a request to schedule a job is
-- refused before anything is sent, and then nothing is written, or it adds one row to the history,
-- also when some pushes have failed. The row has one result for each instance, in whatever order
-- they were answered, and the request succeeds exactly when none of the results has an error.
pub schedule_job-Outcome :
    (network : Network) (sources : Sources) (req : ScheduleRequest) (s : Records)
    → WorkersEnd network (sources.find_instances req.instance_ids)
    → IsRefused sources req s (schedule_job network sources req s)
      ⊎ IsScheduled sources req s (schedule_job network sources req s)
unfolding schedule_job schedule_from
schedule_job-Outcome network sources req s ends = elim (Result-cases (prepare sources req)) [
  | inl (prepared, e) ↦ inr (
      rw (e, schedule_job, schedule_from)
        (schedule_prepared-IsScheduled network sources req prepared s ends e))
  | inr (e, q) ↦
      inl (e, q, rw (q, schedule_job, schedule_from) refl, rw (q, schedule_job, schedule_from) refl)
]
