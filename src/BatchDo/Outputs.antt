-- ===== src/BatchDo/Outputs.antt =====
-- The outputs of a batch under any schedule (crates/utils/src/lib.rs, `async_batch_do`).
use jiascheduler.Base.{
  ℕ, String, ◌+◌, ◌≡◌, ◌∙◌, ◌<◌, ltb, subst, sym, refl, zero, suc, Bool, true, false, if◌then◌else◌,
  Option, none, some, List, [], ◌∷◌, map, Result, length, all, any, count_if, count_if-append,
  Bool-cases, inl, inr, arith,
}
use jiascheduler.BatchDo.{
  Worker, idle, busy, done, last_or, pop, Pool, taken, move, step, run, idle_workers, queue_len,
  start, is_done,
}

module _ {ℓ κ} {I : Type ℓ} {T : Type κ} (handler : I → Result String T)
    (p : Result String T → Bool) where
  -- The results with the property that are there, or in the making, or still to come.
  abbrev one : Result String T → ℕ
  one r = if p r then 1 else 0

  abbrev in_work : Worker I → ℕ
  in_work idle = 0
  in_work (busy v) = one (handler v)
  in_work done = 0

  abbrev all_in_work : List (Worker I) → ℕ
  all_in_work [] = 0
  all_in_work (w ∷ workers) = in_work w + all_in_work workers

  abbrev to_come : List I → ℕ
  to_come data_ = count_if p (map handler data_)

  abbrev total : Pool I T → ℕ
  total pool = count_if p pool.outputs + all_in_work pool.workers + to_come pool.data_

  abbrev popped : Option (List I × I) → ℕ
  popped none = 0
  popped (some (rest, v)) = to_come rest + one (handler v)

  last_or-popped :
      (x : I) (o : Option (List I × I)) → popped (some (last_or x o)) ≡ one (handler x) + popped o
  last_or-popped x none = omega arith
  last_or-popped x (some (rest, v)) = omega arith

  pop-popped : (xs : List I) → popped (pop xs) ≡ to_come xs
  pop-popped [] = refl
  pop-popped (x ∷ xs) = omega (arith, last_or-popped x (pop xs), pop-popped xs)

  taken-popped :
      (o : Option (List I × I)) (data_ : List I)
      → popped o ≡ to_come data_
      → in_work (taken handler o data_).0 + to_come (taken handler o data_).1 ≡ to_come data_
  taken-popped none data_ h = omega arith
  taken-popped (some (rest, v)) data_ h = omega (arith, h)

  move-total :
      (w : Worker I) (data_ : List I) (outputs : List (Result String T))
      → let m = move handler w data_ outputs in
        count_if p m.2 + in_work m.0 + to_come m.1 ≡ count_if p outputs + in_work w + to_come data_
  move-total idle data_ outputs = omega (arith, taken-popped (pop data_) data_ (pop-popped data_))
  move-total (busy v) data_ outputs = omega (arith, count_if-append p outputs (handler v ∷ []))
  move-total done data_ outputs = refl

  step-total :
      (k : ℕ) (workers : List (Worker I)) (data_ : List I) (outputs : List (Result String T))
      → total (step handler k workers data_ outputs)
        ≡ count_if p outputs + all_in_work workers + to_come data_
  unfolding step
  step-total k [] data_ outputs = refl
  step-total zero (w ∷ workers) data_ outputs = omega (arith, move-total w data_ outputs)
  step-total (suc k) (w ∷ workers) data_ outputs = omega (arith, step-total k workers data_ outputs)

  run-total : (schedule : List ℕ) (pool : Pool I T) → total (run handler schedule pool) ≡ total pool
  unfolding run
  run-total [] pool = refl
  run-total (k ∷ schedule) pool =
      run-total schedule (step handler k pool.workers pool.data_ pool.outputs)
      ∙ step-total k pool.workers pool.data_ pool.outputs

module _ {ℓ κ} {I : Type ℓ} {T : Type κ} (handler : I → Result String T) where
  -- A worker only ends when no value is left.
  abbrev Drained : List (Worker I) → List I → Type ℓ
  Drained workers data_ = any is_done workers ≡ true → data_ ≡ []

  step-empty :
      (k : ℕ) (workers : List (Worker I)) (outputs : List (Result String T))
      → (step handler k workers [] outputs).data_ ≡ []
  unfolding step
  step-empty k [] outputs = refl
  step-empty zero (idle ∷ workers) outputs = refl
  step-empty zero (busy v ∷ workers) outputs = refl
  step-empty zero (done ∷ workers) outputs = refl
  step-empty (suc k) (w ∷ workers) outputs = step-empty k workers outputs

  step-Drained :
      (k : ℕ) (workers : List (Worker I)) (data_ : List I) (outputs : List (Result String T))
      → Drained workers data_
      → let q = step handler k workers data_ outputs in Drained q.workers q.data_
  unfolding step
  step-Drained k [] data_ outputs h = h
  step-Drained zero (idle ∷ workers) [] outputs h = λ e. refl
  step-Drained zero (idle ∷ workers) (x ∷ xs) outputs h =
      λ e. let bad : (x ∷ xs) ≡ [] = h e in cc bad
  step-Drained zero (busy v ∷ workers) data_ outputs h = h
  step-Drained zero (done ∷ workers) data_ outputs h = h
  step-Drained (suc k) (done ∷ workers) data_ outputs h = λ e.
      subst (λ d. (step handler k workers d outputs).data_ ≡ []) (sym (h refl))
        (step-empty k workers outputs)
  step-Drained (suc k) (idle ∷ workers) data_ outputs h = step-Drained k workers data_ outputs h
  step-Drained (suc k) (busy v ∷ workers) data_ outputs h = step-Drained k workers data_ outputs h

  run-Drained :
      (schedule : List ℕ) (pool : Pool I T)
      → Drained pool.workers pool.data_
      → let q = run handler schedule pool in Drained q.workers q.data_
  unfolding run
  run-Drained [] pool h = h
  run-Drained (k ∷ schedule) pool h =
      run-Drained schedule (step handler k pool.workers pool.data_ pool.outputs)
        (step-Drained k pool.workers pool.data_ pool.outputs h)

  step-length :
      (k : ℕ) (workers : List (Worker I)) (data_ : List I) (outputs : List (Result String T))
      → length (step handler k workers data_ outputs).workers ≡ length workers
  unfolding step
  step-length k [] data_ outputs = refl
  step-length zero (w ∷ workers) data_ outputs = refl
  step-length (suc k) (w ∷ workers) data_ outputs =
      omega (arith, step-length k workers data_ outputs)

  run-length :
      (schedule : List ℕ) (pool : Pool I T)
      → length (run handler schedule pool).workers ≡ length pool.workers
  unfolding run
  run-length [] pool = refl
  run-length (k ∷ schedule) pool =
      run-length schedule (step handler k pool.workers pool.data_ pool.outputs)
      ∙ step-length k pool.workers pool.data_ pool.outputs

  idle_workers-length : (n : ℕ) → length (idle_workers {I = I} n) ≡ n
  idle_workers-length zero = refl
  idle_workers-length (suc n) = omega (arith, idle_workers-length n)

  idle_workers-going : (n : ℕ) → any is_done (idle_workers {I = I} n) ≡ false
  idle_workers-going zero = refl
  idle_workers-going (suc n) = idle_workers-going n

  all-any :
      (workers : List (Worker I))
      → all is_done workers ≡ true
      → 0 < length workers
      → any is_done workers ≡ true
  all-any [] h l = ground arith
  all-any (w ∷ workers) h l = ground arith

module _ {ℓ κ} {I : Type ℓ} {T : Type κ} (handler : I → Result String T)
    (p : Result String T → Bool) where
  idle_workers-in_work : (n : ℕ) → all_in_work handler p (idle_workers n) ≡ 0
  idle_workers-in_work zero = refl
  idle_workers-in_work (suc n) = omega (arith, idle_workers-in_work n)

  all_done-in_work :
      (workers : List (Worker I)) → all is_done workers ≡ true → all_in_work handler p workers ≡ 0
  all_done-in_work [] h = refl
  all_done-in_work (idle ∷ workers) h = cc
  all_done-in_work (busy v ∷ workers) h = cc
  all_done-in_work (done ∷ workers) h = omega (arith, all_done-in_work workers h)

  no_values : (values : List I) → length values ≡ 0 → to_come handler p values ≡ 0
  no_values [] h = refl
  no_values (x ∷ xs) h = ground arith

  -- When every worker has ended, whatever the schedule was, the outputs are the handler's results for
  -- the values, in some order: each property of results has as many among the ones as among the
  -- others.
  pub run-outputs :
      (values : List I) (schedule : List ℕ)
      → all is_done (run handler schedule (start values)).workers ≡ true
      → count_if p (run handler schedule (start values)).outputs ≡ count_if p (map handler values)
  run-outputs values schedule ended =
      let first : Pool I T = start values in
      let last : Pool I T = run handler schedule first in
      let n = queue_len (length values) in
      let kept = run-total handler p schedule first in
      let fresh = idle_workers-in_work n in
      let finished = all_done-in_work last.workers ended in
      let same : length last.workers ≡ length first.workers = run-length handler schedule first in
      let all_of : length first.workers ≡ n = idle_workers-length handler n in
      elim (Bool-cases (ltb 0 (length last.workers))) [
        | inl some_ ↦
            let many : 0 < length last.workers = ground arith in
            let drained : last.data_ ≡ [] =
              run-Drained handler schedule first (λ e. cc (idle_workers-going handler n))
                (all-any handler last.workers ended many) in
            let nothing : to_come handler p last.data_ ≡ 0 = rw drained in
            omega (arith, kept, fresh, finished, nothing)
        | inr none_ ↦
            let no_value : length values ≡ 0 = ground (arith, same, all_of) in
            let nothing = no_values values no_value in omega (arith, kept, fresh, finished, nothing)
      ]
