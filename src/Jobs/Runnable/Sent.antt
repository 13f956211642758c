-- ===== src/Jobs/Runnable/Sent.antt =====
-- Which dispatches are sent again (crates/service/src/logic/job/schedule.rs,
-- `dispatch_runnable_job_to_endpoint`).
use jiascheduler.Base.{
  ◌≡◌, ◌⊎◌, eq_iff, subst, inl, inr, String, true, Option, none, some, List, [], ◌∷◌, Result, ok,
  err, >>=-eq-ok, filter, Member, Member-append, Member-cons, filter_iff,
}
use jiascheduler.Jobs.Tables.{
  Records, JobRunningStatus, JobScheduleHistory, DispatchData, DispatchTarget,
}
use jiascheduler.Jobs.Callback.{has_schedule}
use jiascheduler.Jobs.Push.{Network, DispatchJobRequest}
use jiascheduler.Jobs.Runnable.{
  is_runnable, data_of, joined, decoded, runnable_request, linked, send_all,
  dispatch_runnable_job_to_endpoint,
}

data_of-Member :
    (histories : List JobScheduleHistory) (data_ : DispatchData)
    → Member (some data_) (data_of histories)
    → (h : JobScheduleHistory) × Member h histories × (h.dispatch_data ≡ some data_)
data_of-Member [] data_ m = elim (Member-cons none [] (some data_) m) [
  | inl e ↦ cc e
  | inr r ↦ elim r [ ]
]
data_of-Member (h ∷ []) data_ m = elim (Member-cons h.dispatch_data [] (some data_) m) [
  | inl e ↦ (h, Member.here, e)
  | inr r ↦ elim r [ ]
]
data_of-Member (h ∷ g ∷ histories) data_ m =
    elim (Member-cons h.dispatch_data (data_of (g ∷ histories)) (some data_) m) [
      | inl e ↦ (h, Member.here, e)
      | inr r ↦ let (k, mk, e) = data_of-Member (g ∷ histories) data_ r in (k, Member.there mk, e)
    ]

decoded-Member :
    (values : List (Option DispatchData)) (all_data : List DispatchData) (data_ : DispatchData)
    → decoded values ≡ ok all_data
    → Member data_ all_data
    → Member (some data_) values
unfolding decoded
decoded-Member [] all_data data_ h m =
    let e : all_data ≡ [] = cc h in elim (subst (λ xs. Member data_ xs) e m) [ ]
decoded-Member (none ∷ values) all_data data_ h m = cc h
decoded-Member (some v ∷ values) all_data data_ h m =
    let (rest, decoded_rest, built) =
      >>=-eq-ok (decoded values) (λ (rest : List DispatchData). ok (v ∷ rest)) h in
    let e : all_data ≡ v ∷ rest = cc built in
    elim (Member-cons v rest data_ (subst (λ xs. Member data_ xs) e m)) [
      | inl same ↦ subst (λ x. Member (some x) (some v ∷ values)) same Member.here
      | inr r ↦ Member.there (decoded-Member values rest data_ decoded_rest r)
    ]

-- A dispatch of a schedule that a runnable row of the instance is about.
abbrev pub IsDispatch :
    String → List JobRunningStatus → List JobScheduleHistory → DispatchData → Type 0
IsDispatch instance_id rows histories data_ =
    (row : JobRunningStatus) × Member row rows
    × (is_runnable instance_id row ≡ true)
    × ((h : JobScheduleHistory) × Member h histories
        × (h.schedule_id ≡ row.schedule_id)
        × (h.dispatch_data ≡ some data_))

joined-Member :
    (instance_id : String) (histories : List JobScheduleHistory) (rows : List JobRunningStatus)
    (data_ : DispatchData)
    → ((row : JobRunningStatus) → Member row rows → is_runnable instance_id row ≡ true)
    → Member (some data_) (joined histories rows)
    → IsDispatch instance_id rows histories data_
unfolding joined
joined-Member instance_id histories [] data_ all_runnable m = elim m [ ]
joined-Member instance_id histories (row ∷ rows) data_ all_runnable m =
    let own = filter (has_schedule row.schedule_id) histories in
    elim (Member-append (data_of own) (joined histories rows) (some data_) m) [
      | inl l ↦
          let (h, mh, e) = data_of-Member own data_ l in
          let (there_, same) = (filter_iff (has_schedule row.schedule_id) histories h).0 mh in
          (
            row,
            Member.here,
            all_runnable row Member.here,
            (h, there_, (eq_iff h.schedule_id row.schedule_id).0 same, e),
          )
      | inr r ↦
          let (other, mo, is_one, rest) =
            joined-Member instance_id histories rows data_
              (λ q mq. all_runnable q (Member.there mq)) r in
          (other, Member.there mo, is_one, rest)
    ]

module _ (network : Network) where
  linked-Member :
      (link : Result String String) (first request : DispatchJobRequest)
      (rest : List DispatchJobRequest)
      → Member request (linked network link first rest)
      → (first ≡ request) ⊎ Member request rest
  linked-Member (err e) first request rest m = inr m
  linked-Member (ok addr) first request rest m = Member-cons first rest request m

  send_all-Member :
      (bind_ip : String) (ins : DispatchTarget) (runnable : List DispatchData)
      (request : DispatchJobRequest)
      → Member request (send_all network bind_ip ins runnable)
      → (data_ : DispatchData) × Member data_ runnable
        × (runnable_request bind_ip ins data_ ≡ request)
  unfolding send_all
  send_all-Member bind_ip ins [] request m = elim m [ ]
  send_all-Member bind_ip ins (v ∷ runnable) request m =
      elim (linked-Member (network.get_link_pair bind_ip ins.mac_addr)
        (runnable_request bind_ip ins v) request (send_all network bind_ip ins runnable) m) [
          | inl e ↦ (v, Member.here, e)
          | inr r ↦
              let (data_, md, e) = send_all-Member bind_ip ins runnable request r in
              (data_, Member.there md, e)
        ]

  -- An instance that comes online is only sent dispatches again that are its own: each request is,
  -- with the instance put in, one of a schedule whose row says of this instance that its timer is
  -- set up or about to be.
  pub dispatch_runnable_job_to_endpoint-IsDispatch :
      (ins : DispatchTarget) (bind_ip : String) (s : Records) (sent : List DispatchJobRequest)
      (request : DispatchJobRequest)
      → dispatch_runnable_job_to_endpoint network (some ins) bind_ip s ≡ ok sent
      → Member request sent
      → (data_ : DispatchData) × (runnable_request bind_ip ins data_ ≡ request)
        × IsDispatch ins.instance_id
            (filter (is_runnable ins.instance_id) s.running)
            s.histories
            data_
  unfolding dispatch_runnable_job_to_endpoint
  dispatch_runnable_job_to_endpoint-IsDispatch ins bind_ip s sent request h m =
      let rows = filter (is_runnable ins.instance_id) s.running in
      let (runnable, e, posted) =
        >>=-eq-ok (decoded (joined s.histories rows))
          (λ runnable. ok (send_all network bind_ip ins runnable)) h in
      let same : sent ≡ send_all network bind_ip ins runnable = cc posted in
      let (data_, md, is_it) =
        send_all-Member bind_ip ins runnable request (subst (λ xs. Member request xs) same m) in
      (
        data_,
        is_it,
        joined-Member ins.instance_id s.histories rows data_
            (λ row mr. ((filter_iff (is_runnable ins.instance_id) s.running row).0 mr).1)
            (decoded-Member (joined s.histories rows) runnable data_ e md),
      )
