-- ===== src/Jobs/Callback/Due.antt =====
-- When a callback is sent (crates/service/src/logic/job/schedule.rs, `completed_callback`).
use jiascheduler.Base.{
  ℕ, ◌≡◌, ◌≢◌, ◌⊎◌, ◌↔◌, ◌∙◌, sym, inl, inr, refl, ap, nat_eq, String, true, Option, none, some, [],
  ◌∷◌, ◌++◌, Result, ok, err, find, length, length-append, Bool-cases, Result-cases, arith,
}
use jiascheduler.Agent.RunStatus.{RunStatus}
use jiascheduler.Agent.Messages.{UpdateJobParams}
use jiascheduler.Jobs.Tables.{Records, Post}
use jiascheduler.Jobs.Services.{Services, Job, CompletedCallbackOpts, CompletedCallbackTriggerType}
use jiascheduler.Jobs.Callback.{
  header_map, callback_of, is_stop, is_wanted, is_triggered, has_schedule, post, call_back,
  with_callback, completed_callback,
}

module _ (services : Services) where
  abbrev request : CompletedCallbackOpts → String → Post
  request opts body = record {
    url = opts.url;
    headers = header_map services opts.header;
    body = body;
  }

  -- The callback can be written and is enabled, the run has stopped, and if only errors are to be
  -- told, its exit code is not known to be 0.
  abbrev pub Applies : UpdateJobParams → CompletedCallbackOpts → Job → Type 0
  Applies params opts job =
      (body : String) × (services.callback_body params job ≡ ok body)
      × (opts.enable ≡ true)
      × (params.run_status ≡ some RunStatus.stop)
      × (opts.trigger_on ≡ CompletedCallbackTriggerType.error → params.exit_code ≢ some 0)

  abbrev pub DueBy : UpdateJobParams → Result String (Option (CompletedCallbackOpts × Job)) → Type 0
  DueBy params (err e) = ⊥
  DueBy params (ok none) = ⊥
  DueBy params (ok (some (opts, job))) = Applies params opts job

  stop-of : (status : Option RunStatus) → is_stop status ≡ true → status ≡ some RunStatus.stop
  stop-of none h = cc
  stop-of (some RunStatus.stop) h = refl
  stop-of (some RunStatus.running) h = cc
  stop-of (some RunStatus.prepare) h = cc

  triggered-of :
      (trigger : CompletedCallbackTriggerType) (code : Option ℕ)
      → is_triggered trigger code ≡ true
      → trigger ≡ CompletedCallbackTriggerType.error
      → code ≢ some 0
  triggered-of CompletedCallbackTriggerType.all code h e = cc
  triggered-of CompletedCallbackTriggerType.error none h e = λ k. cc
  triggered-of CompletedCallbackTriggerType.error (some c) h e = λ k. ground arith

  of-triggered :
      (trigger : CompletedCallbackTriggerType) (code : Option ℕ)
      → (trigger ≡ CompletedCallbackTriggerType.error → code ≢ some 0)
      → is_triggered trigger code ≡ true
  of-triggered CompletedCallbackTriggerType.all code h = refl
  of-triggered CompletedCallbackTriggerType.error none h = refl
  of-triggered CompletedCallbackTriggerType.error (some c) h = elim (Bool-cases (nat_eq c 0)) [
    | inl e ↦ let z : c ≡ 0 = ground arith in absurd (h refl (ap some z))
    | inr e ↦ rw e refl
  ]

  -- Nothing happens, or the request of a callback that is due is sent.
  abbrev Outcome :
      UpdateJobParams
      → Result String (Option (CompletedCallbackOpts × Job))
      → Records
      → Records
      → Type 0
  Outcome params callback s t =
      ((t ≡ s) × ¬ DueBy params callback)
      ⊎ (DueBy params callback × ((sent : Post) × (t ≡ record s { posts = s.posts ++ sent ∷ [] })))

  call_back-Outcome :
      (params : UpdateJobParams) (opts : CompletedCallbackOpts) (job : Job) (s : Records)
      → opts.enable ≡ true
      → is_stop params.run_status ≡ true
      → is_triggered opts.trigger_on params.exit_code ≡ true
      → Outcome params (ok (some (opts, job))) s (call_back services params opts job s).1
  unfolding call_back post
  call_back-Outcome params opts job s enabled stops triggered =
      let stop = stop-of params.run_status stops in
      let told = triggered-of opts.trigger_on params.exit_code triggered in
      elim (Result-cases (services.callback_body params job)) [
        | inl (body, e) ↦
            inr ((body, e, enabled, stop, told), (request opts body, rw (e, call_back) refl))
        | inr (e, q) ↦ inl (rw (q, call_back) refl, λ due. cc (due.1, q))
      ]

  with_callback-Outcome :
      (params : UpdateJobParams) (callback : Result String (Option (CompletedCallbackOpts × Job)))
      (s : Records)
      → Outcome params callback s (with_callback services params callback s).1
  unfolding with_callback
  with_callback-Outcome params (err e) s = inl (refl, λ due. due)
  with_callback-Outcome params (ok none) s = inl (refl, λ due. due)
  with_callback-Outcome params (ok (some (opts, job))) s =
      elim (Bool-cases (is_wanted params opts)) [
        | inl wanted ↦
            let on : opts.enable ≡ true = ground arith in
            let stops : is_stop params.run_status ≡ true = ground arith in
            let triggered : is_triggered opts.trigger_on params.exit_code ≡ true = ground arith in
            rw (wanted, with_callback) (call_back-Outcome params opts job s on stops triggered)
        | inr unwanted ↦ inl (
          rw (unwanted, with_callback) refl,
          λ due.
              let stops : is_stop params.run_status ≡ true = ap is_stop due.3 in
              let triggered = of-triggered opts.trigger_on params.exit_code due.4 in
              let on = due.2 in ground (arith, on, stops, triggered, unwanted),
        )
      ]

  -- The callback of the job, as it was when the reported schedule was made, is due.
  abbrev pub IsDue : UpdateJobParams → Records → Type 0
  IsDue params s =
      DueBy params (callback_of services (find (has_schedule params.schedule_id) s.histories))

  pub completed_callback-Outcome :
      (params : UpdateJobParams) (s : Records)
      → ((completed_callback services params s).1 ≡ s × ¬ IsDue params s)
        ⊎ (IsDue params s
            × ((sent : Post) × ((completed_callback services params s).1
                  ≡ record s { posts = s.posts ++ sent ∷ [] })))
  unfolding completed_callback
  completed_callback-Outcome params s =
      with_callback-Outcome params
        (callback_of services (find (has_schedule params.schedule_id) s.histories)) s

  -- A request of a callback is sent exactly when the callback is due: the job, as it was when the
  -- reported schedule was made, has one that is enabled and can be written, the run has stopped,
  -- and if only errors are to be told, its exit code is not known to be 0.
  pub completed_callback_iff_IsDue :
      (params : UpdateJobParams) (s : Records)
      → ((completed_callback services params s).1.posts ≢ s.posts) ↔ IsDue params s
  completed_callback_iff_IsDue params s = elim (completed_callback-Outcome params s) [
    | inl (same, never) ↦
        (λ differs. absurd (differs (ap (λ t. t.posts) same)), λ due. absurd (never due))
    | inr (due, (sent, after)) ↦ (
      λ _. due,
      λ _ same.
          let longer : s.posts ++ sent ∷ [] ≡ s.posts = sym (ap (λ t. t.posts) after) ∙ same in
          omega (arith, length-append s.posts (sent ∷ []), ap length longer),
    )
  ]
