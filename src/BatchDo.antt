-- ===== src/BatchDo.antt =====
-- crates/utils/src/lib.rs, `async_batch_do`: workers take values from the end of a shared list,
-- handle them, and put the results into another. A schedule is the list of the workers that move,
-- one step each: a step takes a value, or delivers a result, or ends. The handler is a parameter, a
-- function of the value.
pub mod Outputs
pub mod Values
pub mod Ends
mod Tests
use jiascheduler.Base.{
  ℕ, String, ◌+◌, zero, suc, Bool, true, false, ◌&&◌, if◌then◌else◌, Option, none, some, List, [],
  ◌∷◌, ◌++◌, Result, ok, err, length, all, ltb,
}

pub data Worker {ℓ} (I : Type ℓ) : Type ℓ where
  idle : Worker I
  busy : I → Worker I
  done : Worker I

-- `Vec::pop`: the last value, and those before it.
abbrev pub last_or {ℓ} : {I : Type ℓ} → I → Option (List I × I) → List I × I
last_or x none = ([], x)
last_or x (some (rest, v)) = (x ∷ rest, v)

abbrev pub pop {ℓ} : {I : Type ℓ} → List I → Option (List I × I)
pop [] = none
pop (x ∷ xs) = some (last_or x (pop xs))

pub record Pool {ℓ κ} (I : Type ℓ) (T : Type κ) : Type (ℓ ⊔ κ) where
  pub workers : List (Worker I)
  pub data_ : List I
  pub outputs : List (Result String T)

module _ {ℓ κ} {I : Type ℓ} {T : Type κ} (handler : I → Result String T) where
  -- A worker that finds the list empty returns.
  abbrev pub taken : Option (List I × I) → List I → Worker I × List I
  taken none data_ = (done, data_)
  taken (some (rest, v)) data_ = (busy v, rest)

  abbrev pub move :
      Worker I → List I → List (Result String T) → Worker I × List I × List (Result String T)
  move idle data_ outputs = let (w, rest) = taken (pop data_) data_ in (w, rest, outputs)
  move (busy v) data_ outputs = (idle, data_, outputs ++ handler v ∷ [])
  move done data_ outputs = (done, data_, outputs)

  -- The step of the worker with this number.
  unfoldable pub step : ℕ → List (Worker I) → List I → List (Result String T) → Pool I T
  step k [] data_ outputs = record { workers = []; data_ = data_; outputs = outputs }
  step zero (w ∷ workers) data_ outputs =
      let (w', rest, out) = move w data_ outputs in
      record { workers = w' ∷ workers; data_ = rest; outputs = out }
  step (suc k) (w ∷ workers) data_ outputs =
      let p = step k workers data_ outputs in record p { workers = w ∷ p.workers }

  unfoldable pub run : List ℕ → Pool I T → Pool I T
  unfolding step
  run [] p = p
  run (k ∷ schedule) p = run schedule (step k p.workers p.data_ p.outputs)

abbrev pub idle_workers {ℓ} : {I : Type ℓ} → ℕ → List (Worker I)
idle_workers zero = []
idle_workers (suc n) = idle ∷ idle_workers n

-- At most 500 workers.
abbrev pub queue_len : ℕ → ℕ
queue_len n = if ltb 500 n then 500 else n

abbrev pub start {ℓ κ} : {I : Type ℓ} {T : Type κ} → List I → Pool I T
start data_ = record {
  workers = idle_workers (queue_len (length data_));
  data_ = data_;
  outputs = [];
}

abbrev pub is_done {ℓ} : {I : Type ℓ} → Worker I → Bool
is_done done = true
is_done _ = false

-- The outputs, once the schedule is over. The code waits until every worker has ended.
unfoldable pub async_batch_do {ℓ κ} :
    {I : Type ℓ} {T : Type κ} → List ℕ → List I → (I → Result String T) → List (Result String T)
unfolding run
async_batch_do schedule data_ handler = (run handler schedule (start data_)).outputs

-- Every worker has ended when the schedule is over.
abbrev pub has_ended {ℓ κ} :
    {I : Type ℓ} {T : Type κ} → List ℕ → List I → (I → Result String T) → Bool
has_ended schedule data_ handler = all is_done (run handler schedule (start data_)).workers

-- A handler that does not fail.
abbrev pub always {ℓ κ} : {I : Type ℓ} {T : Type κ} → (I → T) → I → Result String T
always f v = ok (f v)
