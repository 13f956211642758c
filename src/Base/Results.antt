-- ===== src/Base/Results.antt =====
-- `Result<A, E>`, with its bind and its early return.
use mathlib.Core.Path.{◌≡◌, refl}
use mathlib.Core.Option.{Option, none, some}
use mathlib.Core.Logic.{◌⊎◌, inl, inr}

pub data Result {ℓ κ} (E : Type κ) (A : Type ℓ) : Type (ℓ ⊔ κ) where
  ok : A → Result E A
  err : E → Result E A

infixl 5 ◌>>=◌ ◌>>◌
abbrev pub ◌>>=◌ {ℓ κ ι} :
    {E : Type ι} {A : Type ℓ} {B : Type κ} → Result E A → (A → Result E B) → Result E B
err e >>= rest = err e
ok value >>= rest = rest value

abbrev pub ◌>>◌ {κ ι} : {E : Type ι} {B : Type κ} → Result E (Unit {0}) → Result E B → Result E B
err e >> rest = err e
ok _ >> rest = rest

-- `ok_or`.
abbrev pub ok_or {ℓ ι} : {E : Type ι} {A : Type ℓ} → Option A → E → Result E A
ok_or none e = err e
ok_or (some a) e = ok a

-- A bind that succeeds has run both of its parts.
pub >>=-eq-ok {ℓ κ ι} :
    {E : Type ι} {A : Type ℓ} {B : Type κ} (r : Result E A) (rest : A → Result E B) {out : B}
    → (r >>= rest) ≡ ok out
    → (value : A) × (r ≡ ok value) × (rest value ≡ ok out)
>>=-eq-ok (err _) rest e = cc
>>=-eq-ok (ok value) rest e = (value, refl, e)

pub Result-cases {ℓ κ} :
    {E : Type κ} {A : Type ℓ} (r : Result E A) → ((a : A) × (r ≡ ok a)) ⊎ ((e : E) × (r ≡ err e))
Result-cases (ok a) = inl (a, refl)
Result-cases (err e) = inr (e, refl)
