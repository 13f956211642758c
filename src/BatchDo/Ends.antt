-- ===== src/BatchDo/Ends.antt =====
-- The end of a batch (crates/utils/src/lib.rs, `async_batch_do`).
use jiascheduler.Base.{
  ℕ, String, ◌*◌, ◌+◌, ◌≤◌, ◌≡◌, refl, zero, suc, Bool, true, false, not, List, [], ◌∷◌, Result,
  length, all, Bool-cases, inl, inr, arith,
}
use jiascheduler.BatchDo.{Worker, idle, busy, done, last_or, pop, Pool, step, run, start, is_done}

module _ {ℓ} {I : Type ℓ} where
  abbrev weight : Worker I → ℕ
  weight idle = 1
  weight (busy v) = 2
  weight done = 0

  abbrev weights : List (Worker I) → ℕ
  weights [] = 0
  weights (w ∷ workers) = weight w + weights workers

  -- The steps that are left: two for each value, and those of the workers.
  abbrev pub work {κ} : {T : Type κ} → Pool I T → ℕ
  work pool = 2 * length pool.data_ + weights pool.workers

  -- The worker with this number is there and has not ended.
  abbrev pub is_going : ℕ → List (Worker I) → Bool
  is_going k [] = false
  is_going zero (w ∷ workers) = not (is_done w)
  is_going (suc k) (w ∷ workers) = is_going k workers

  find_going :
      (workers : List (Worker I))
      → all is_done workers ≡ false
      → (k : ℕ) × (is_going k workers ≡ true)
  find_going [] h = cc
  find_going (idle ∷ workers) h = (zero, refl)
  find_going (busy v ∷ workers) h = (zero, refl)
  find_going (done ∷ workers) h = let (k, e) = find_going workers h in (suc k, e)

  last_or-length : (x : I) (xs : List I) → length (last_or x (pop xs)).0 ≡ length xs
  last_or-length x [] = refl
  last_or-length x (y ∷ ys) = omega (arith, last_or-length y ys)

module _ {ℓ κ} {I : Type ℓ} {T : Type κ} (handler : I → Result String T) where
  step-work :
      (k : ℕ) (workers : List (Worker I)) (data_ : List I) (outputs : List (Result String T))
      → is_going k workers ≡ true
      → work (step handler k workers data_ outputs) + 1 ≡ 2 * length data_ + weights workers
  unfolding step
  step-work k [] data_ outputs h = cc
  step-work zero (idle ∷ workers) [] outputs h = omega arith
  step-work zero (idle ∷ workers) (x ∷ xs) outputs h = omega (arith, last_or-length x xs)
  step-work zero (busy v ∷ workers) data_ outputs h = omega arith
  step-work zero (done ∷ workers) data_ outputs h = cc
  step-work (suc k) (w ∷ workers) data_ outputs h =
      omega (arith, step-work k workers data_ outputs h)

  -- The step of one worker of the pool.
  abbrev pub step_of : ℕ → Pool I T → Pool I T
  step_of k pool = step handler k pool.workers pool.data_ pool.outputs

  abbrev pub IsFinished : Pool I T → Type 0
  IsFinished pool = all is_done pool.workers ≡ true

  -- There is a schedule that ends every worker.
  abbrev pub CanFinish : Pool I T → Type 0
  CanFinish pool = (schedule : List ℕ) × IsFinished (run handler schedule pool)

  -- The step of a worker that has not ended leaves one step fewer to do.
  pub step_of-work :
      (k : ℕ) (pool : Pool I T)
      → is_going k pool.workers ≡ true
      → work (step_of k pool) + 1 ≡ work pool
  step_of-work k pool h = step-work k pool.workers pool.data_ pool.outputs h

  finishes_within : (n : ℕ) (pool : Pool I T) → work pool ≤ n → CanFinish pool
  unfolding run
  finishes_within zero pool h = elim (Bool-cases (all is_done pool.workers)) [
    | inl ended ↦ ([], ended)
    | inr going ↦
        let (k, e) = find_going pool.workers going in
        let lower = step_of-work k pool e in absurd (omega (arith, lower, h))
  ]
  finishes_within (suc n) pool h = elim (Bool-cases (all is_done pool.workers)) [
    | inl ended ↦ ([], ended)
    | inr going ↦
        let (k, e) = find_going pool.workers going in
        let lower = step_of-work k pool e in
        let (schedule, finished) = finishes_within n (step_of k pool) (omega (arith, lower, h)) in
        (k ∷ schedule, finished)
  ]

  -- From whatever state a schedule has brought the workers to, some schedule ends every worker.
  pub run-CanFinish :
      (values : List I) (schedule : List ℕ) → CanFinish (run handler schedule (start values))
  run-CanFinish values schedule =
      let pool : Pool I T = run handler schedule (start values) in
      finishes_within (work pool) pool (omega arith)
