-- ===== src/BatchDo/Values.antt =====
-- The outputs of a batch whose handler does not fail (crates/utils/src/lib.rs, `async_batch_do`).
use jiascheduler.Base.{
  ℕ, String, ◌+◌, ◌≡◌, ◌∙◌, ap, sym, refl, Bool, true, false, List, [], ◌∷◌, map, Result, ok, err,
  count_if, arith,
}
use jiascheduler.BatchDo.{async_batch_do, has_ended, always}
use jiascheduler.BatchDo.Outputs.{run-outputs}

abbrev is_err {κ} : {T : Type κ} → Result String T → Bool
is_err (ok v) = false
is_err (err e) = true

abbrev on_ok {κ} : {T : Type κ} → (T → Bool) → Result String T → Bool
on_ok q (ok v) = q v
on_ok q (err e) = false

abbrev oks {κ} : {T : Type κ} → List T → List (Result String T)
oks = map (λ v. ok v)

module _ {κ} {T : Type κ} where
  all_ok :
      (outputs : List (Result String T))
      → count_if is_err outputs ≡ 0
      → (values : List T) × (outputs ≡ oks values)
  all_ok [] h = ([], refl)
  all_ok (ok v ∷ outputs) h =
      let (values, e) = all_ok outputs (omega (arith, h)) in (v ∷ values, rw e refl)
  all_ok (err e ∷ outputs) h =
      let no : 1 + count_if is_err outputs ≡ 0 = h in let bad : ⊥ = omega (arith, no) in absurd bad

  count_if-oks :
      (q : T → Bool) (values : List T) → count_if (on_ok q) (oks values) ≡ count_if q values
  count_if-oks q [] = refl
  count_if-oks q (v ∷ values) = omega (arith, count_if-oks q values)

  no_err : (values : List T) → count_if is_err (oks values) ≡ 0
  no_err [] = refl
  no_err (v ∷ values) = omega (arith, no_err values)

map-always {ℓ κ} :
    {I : Type ℓ} {T : Type κ} (f : I → T) (values : List I)
    → map (always f) values ≡ oks (map f values)
map-always f [] = refl
map-always f (v ∷ values) = rw (map-always f values) refl

-- When every worker has ended, the outputs are all there, and have each property as often as the
-- results of the values.
pub async_batch_do-values {ℓ κ} :
    {I : Type ℓ} {T : Type κ} (schedule : List ℕ) (data_ : List I) (f : I → T)
    → has_ended schedule data_ (always f) ≡ true
    → (values : List T) × (async_batch_do schedule data_ (always f) ≡ map (λ v. ok v) values)
      × ((q : T → Bool) → count_if q values ≡ count_if q (map f data_))
unfolding async_batch_do
async_batch_do-values {T = T} schedule data_ f ended =
    let none_failed : count_if is_err (async_batch_do schedule data_ (always f)) ≡ 0 =
      run-outputs (always f) is_err data_ schedule ended
      ∙ ap (count_if is_err) (map-always f data_)
      ∙ no_err (map f data_) in
    let (values, e) = all_ok (async_batch_do schedule data_ (always f)) none_failed in
    (
      values,
      e,
      λ q.
          sym (count_if-oks q values)
          ∙ ap (count_if (on_ok q)) (sym e)
          ∙ run-outputs (always f) (on_ok q) data_ schedule ended
          ∙ ap (count_if (on_ok q)) (map-always f data_)
          ∙ count_if-oks q (map f data_),
    )
