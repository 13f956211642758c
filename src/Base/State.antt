-- ===== src/Base/State.antt =====
-- A method that changes a state and may fail: what was written before an error stays. A panic
-- ends the task that runs the method, and an error is handed to the caller.

use jiascheduler.Base.Results.{Result, ok, err}

module _ {S E : Type 0} where
  abbrev pub and_then : {A B : Type 0} → Result E A × S → (A → S → Result E B × S) → Result E B × S
  and_then (ok a, s) f = f a s
  and_then (err e, s) f = (err e, s)

  infixl 5 ◌>>=◌ ◌>>◌
  abbrev pub ◌>>=◌ :
      {A B : Type 0} → (S → Result E A × S) → (A → S → Result E B × S) → S → Result E B × S
  ◌>>=◌ m f s = and_then (m s) f

  abbrev pub ◌>>◌ :
      {B : Type 0} → (S → Result E (Unit {0}) × S) → (S → Result E B × S) → S → Result E B × S
  m >> k = m >>= λ _. k

  abbrev pub pure : {A : Type 0} → A → S → Result E A × S
  pure a s = (ok a, s)

  abbrev pub fail : {A : Type 0} → E → S → Result E A × S
  fail e s = (err e, s)

  -- A pure computation that may fail.
  abbrev pub lift : {A : Type 0} → Result E A → S → Result E A × S
  lift r s = (r, s)

-- A relation that holds between the states before and after a method, whatever it returns.
module _ {ℓ} {S E : Type 0} (R : S → S → Type ℓ) where
  abbrev pub Keeps : {A : Type 0} → (S → Result E A × S) → Type ℓ
  Keeps m = (s : S) → R s (m s).1

module _ {ℓ} {S E : Type 0} (R : S → S → Type ℓ) (R_refl : (s : S) → R s s)
    (R_trans : (s t u : S) → R s t → R t u → R s u) where
  and_then-Keeps :
      {A B : Type 0} (s : S) (r : Result E A × S) (f : A → S → Result E B × S)
      → R s r.1
      → ((a : A) → Keeps R (f a))
      → R s (and_then r f).1
  and_then-Keeps s (ok a, t) f h k = R_trans s t (f a t).1 h (k a t)
  and_then-Keeps s (err e, t) f h k = h

  pub bind-Keeps :
      {A B : Type 0} (m : S → Result E A × S) (f : A → S → Result E B × S)
      → Keeps R m
      → ((a : A) → Keeps R (f a))
      → Keeps R (m >>= f)
  bind-Keeps m f h k s = and_then-Keeps s (m s) f (h s) k
