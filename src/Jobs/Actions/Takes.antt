-- ===== src/Jobs/Actions/Takes.antt =====
-- When an action is allowed, and when the agent takes it (crates/service/src/logic/job/schedule.rs,
-- `action`).
use jiascheduler.Base.{
  ℕ, ◌≡◌, ◌⊎◌, ◌↔◌, ◌∙◌, ap, refl, sym, subst, [], ◌∷◌, inl, inr, String, Bool, true, false, Option,
  none, some, List, Result, ok, err, ok_or, >>=-eq-ok, find, format, Result-cases, Bool-cases,
  arith,
}
use jiascheduler.Agent.ScheduleType
use jiascheduler.Agent.EnumTexts.{schedule_type_read}
use jiascheduler.Jobs.Tables.{JobScheduleHistory, DispatchTarget}
use jiascheduler.Jobs.Running.{Key}
use jiascheduler.Jobs.Callback.{has_schedule}
use jiascheduler.Jobs.Push.{Network, Response, Reply, DispatchJobRequest, is_ok_code, url_of}
use jiascheduler.Jobs.Actions.{
  Caller, Prepared, can_dispatch_job, allowed, prepare_action, read_reply, read_response,
  send_action,
}

-- The body of the answer can be read and has the code of success.
abbrev pub TakesBody : Result String Reply → String → Type 0
TakesBody body answer =
    (reply : Reply) × (body ≡ ok reply) × (reply.code ≡ some 20000) × (answer ≡ reply.json)

abbrev pub TakesResponse : Result String Response → String → Type 0
TakesResponse posted answer =
    (response : Response) × (posted ≡ ok response) × TakesBody response.body answer

-- The agent has a link, answers, and its answer says that it takes the action.
abbrev pub Takes : Network → DispatchJobRequest → DispatchTarget → String → Type 0
Takes network request ins answer =
    (addr : String) × (network.get_link_pair ins.ip ins.mac_addr ≡ ok addr)
    × TakesResponse (network.post (url_of none addr) request) answer

-- A result is the answer that is described, or it is an error and there is none.
abbrev pub Decides : Result String String → (String → Type 0) → Type 0
Decides r Answer =
    ((answer : String) × (r ≡ ok answer) × Answer answer)
    ⊎ ((e : String) × (r ≡ err e) × ((answer : String) → ¬ Answer answer))

ok_code_iff : (code : Option ℕ) → (is_ok_code code ≡ true) ↔ (code ≡ some 20000)
ok_code_iff none = (λ h. cc h, λ h. cc h)
ok_code_iff (some c) = (
  λ h. let e : c ≡ 20000 = ground arith in ap some e,
  λ h. let e : c ≡ 20000 = cc h in ground (arith, e),
)

read_reply-Decides : (body : Result String Reply) → Decides (read_reply body) (TakesBody body)
read_reply-Decides (err e) = inr (_, refl, λ answer takes. cc takes.1)
read_reply-Decides (ok reply) = elim (Bool-cases (is_ok_code reply.code)) [
  | inl good ↦
      inl (
        reply.json,
        rw (good, read_reply) refl,
        (reply, refl, (ok_code_iff reply.code).0 good, refl),
      )
  | inr bad ↦ inr (
    format ("failed to dispatch job, " ∷ reply.msg ∷ []),
    rw (bad, read_reply) refl,
    λ answer takes.
        let (other, same, code, _) = takes in
        let e : reply ≡ other = cc same in
        let good = (ok_code_iff reply.code).1 (ap (λ (x : Reply). x.code) e ∙ code) in
        cc (good, bad),
  )
]

read_response-Decides :
    (posted : Result String Response) → Decides (read_response posted) (TakesResponse posted)
read_response-Decides (err e) = inr (_, refl, λ answer takes. cc takes.1)
read_response-Decides (ok response) = elim (read_reply-Decides response.body) [
  | inl (answer, e, takes) ↦ inl (answer, e, (response, refl, takes))
  | inr (e, failed, never) ↦ inr (
    e,
    failed,
    λ answer takes.
        let (other, same, told) = takes in
        let same' : other ≡ response = cc same in
        never answer (subst (λ (x : Response). TakesBody x.body answer) same' told),
  )
]

pub send_action-Decides :
    (network : Network) (request : DispatchJobRequest) (ins : DispatchTarget)
    → Decides (send_action network request ins) (Takes network request ins)
send_action-Decides network request ins =
    elim (Result-cases (network.get_link_pair ins.ip ins.mac_addr)) [
      | inr (e, q) ↦ inr (
        "Unable to find agent registration information.",
        rw (q, send_action) refl,
        λ answer takes. cc (q, takes.1),
      )
      | inl (addr, q) ↦ elim (read_response-Decides (network.post (url_of none addr) request)) [
        | inl (answer, e, takes) ↦ inl (answer, rw (q, send_action) e, (addr, q, takes))
        | inr (e, failed, never) ↦ inr (
          e,
          rw (q, send_action) failed,
          λ answer takes.
              let (other, linked, told) = takes in
              let same : other ≡ addr = cc (q, linked) in
              never answer (
                subst (λ a. TakesResponse (network.post (url_of none a) request) answer) same told),
        )
      ]
    ]

-- The dispatch is in the history, the user may ask for it, and the action is about its job, kind of
-- schedule and instance.
abbrev pub IsAllowed : Caller → String → String → List JobScheduleHistory → Prepared → Type 0
IsAllowed caller schedule_id instance_id histories prepared =
    (caller.find_instance instance_id ≡ some prepared.ins)
    × ((h : JobScheduleHistory) × (find (has_schedule schedule_id) histories ≡ some h)
        × (can_dispatch_job caller (some h.created_user) h.eid ≡ ok true)
        × (h.dispatch_data ≡ some prepared.data_)
        × (prepared.key
            ≡ record { eid = h.eid; schedule_type = h.schedule_type; instance_id = instance_id }))

ok_or-some {ℓ} : {A : Type ℓ} (o : Option A) (e : String) (a : A) → ok_or o e ≡ ok a → o ≡ some a
ok_or-some none e a h = cc h
ok_or-some (some b) e a h = cc h

allowed-true : (b : Bool) → allowed b ≡ ok tt → b ≡ true
allowed-true true h = refl
allowed-true false h = cc h

pub prepare_action-IsAllowed :
    (caller : Caller) (schedule_id instance_id : String) (histories : List JobScheduleHistory)
    (prepared : Prepared)
    → prepare_action caller schedule_id instance_id histories ≡ ok prepared
    → IsAllowed caller schedule_id instance_id histories prepared
unfolding prepare_action
prepare_action-IsAllowed caller schedule_id instance_id histories prepared h =
    let (ins, found_ins, h1) =
      >>=-eq-ok (ok_or (caller.find_instance instance_id) "cannot found instance") _ h in
    let (record_, found, h2) =
      >>=-eq-ok
        (ok_or (find (has_schedule schedule_id) histories)
          (format ("cannot get shedule by " ∷ schedule_id ∷ [])))
        _ h1 in
    let (can, asked, h3) =
      >>=-eq-ok (can_dispatch_job caller (some record_.created_user) record_.eid) _ h2 in
    let (_, permitted, h4) = >>=-eq-ok (allowed can) _ h3 in
    let (data_, has_data, h5) =
      >>=-eq-ok (ok_or record_.dispatch_data "cannot get dispatch data") _ h4 in
    let (kind, read, built) = >>=-eq-ok (ScheduleType.try_from record_.schedule_type) _ h5 in
    let key : Key = record {
      eid = record_.eid;
      schedule_type = ScheduleType.to_string kind;
      instance_id = instance_id;
    } in
    let made : Prepared = record { ins = ins; key = key; data_ = data_ } in
    let same : made ≡ prepared = cc built in
    let named : ScheduleType.to_string kind ≡ record_.schedule_type =
      sym ((schedule_type_read record_.schedule_type kind).0 read) in
    subst (IsAllowed caller schedule_id instance_id histories) same (
      ok_or-some (caller.find_instance instance_id) "cannot found instance" ins found_ins,
      (
        record_,
        ok_or-some (find (has_schedule schedule_id) histories) _ record_ found,
        asked ∙ ap ok (allowed-true can permitted),
        ok_or-some record_.dispatch_data "cannot get dispatch data" data_ has_data,
        λ i. record { eid = record_.eid; schedule_type = named i; instance_id = instance_id },
      ),
    )
