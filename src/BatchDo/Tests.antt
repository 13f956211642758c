-- ===== src/BatchDo/Tests.antt =====
-- The theorems about `async_batch_do` at concrete inputs.
use jiascheduler.Base.{
  ℕ, String, ◌+◌, ◌≡◌, refl, Bool, true, false, List, [], ◌∷◌, map, Result, ok, err, all, count_if,
  nat_eq, if◌then◌else◌,
}
use jiascheduler.BatchDo.{step, run, start, is_done}
use jiascheduler.BatchDo.Outputs.{run-outputs}
use jiascheduler.BatchDo.Ends.{CanFinish, run-CanFinish}

abbrev handler : ℕ → Result String ℕ
handler v = if nat_eq v 2 then err "two" else ok (v + 10)

abbrev is_err : Result String ℕ → Bool
is_err (ok v) = false
is_err (err e) = true

abbrev values : List ℕ
values = 1 ∷ 2 ∷ []

-- The second worker delivers the result of the first value before the first delivers its own.
abbrev schedule : List ℕ
schedule = 0 ∷ 1 ∷ 1 ∷ 0 ∷ 0 ∷ 1 ∷ []

all_ended : all is_done (run handler schedule (start values)).workers ≡ true
unfolding run step
all_ended = refl

run-outputs_example :
    count_if is_err (run handler schedule (start values)).outputs
    ≡ count_if is_err (map handler values)
run-outputs_example = run-outputs handler is_err values schedule all_ended

abbrev first_moves : List ℕ
first_moves = 0 ∷ 1 ∷ []

run-CanFinish_example : CanFinish handler (run handler first_moves (start values))
run-CanFinish_example = run-CanFinish handler values first_moves
