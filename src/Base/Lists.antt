-- ===== src/Base/Lists.antt =====
-- Lists under Boolean tests, as the iterators of Rust take them: `any`, `all`, `find`, `filter`.
use Prim.Native.Nat.{ℕ, suc, ◌+◌}
use mathlib.Core.Path.{◌≡◌, refl, ◌∙◌, subst}
use mathlib.Core.Logic.{◌⊎◌, ◌↔◌, inl, inr}
use mathlib.Core.Bool.{Bool, true, false, ◌&&◌, ◌||◌}
use mathlib.Core.Option.{Option, none, some}
use mathlib.Core.List.{List, [], ◌∷◌, ◌++◌}
use native.Mathlib.Omega.{arith}
use jiascheduler.Base.Tests.{if◌then◌else◌, Bool-cases}

module _ {ℓ} {A : Type ℓ} where
  abbrev pub length : List A → ℕ
  length [] = 0
  length (x ∷ xs) = suc (length xs)

  abbrev pub any : (A → Bool) → List A → Bool
  any p [] = false
  any p (x ∷ xs) = p x || any p xs

  abbrev pub all : (A → Bool) → List A → Bool
  all p [] = true
  all p (x ∷ xs) = p x && all p xs

  -- The first entry that passes.
  abbrev pub find : (A → Bool) → List A → Option A
  find p [] = none
  find p (x ∷ xs) = if p x then some x else find p xs

  -- `filter` on an iterator, `retain` on a vector.
  abbrev pub filter : (A → Bool) → List A → List A
  filter p [] = []
  filter p (x ∷ xs) = let rest = filter p xs in if p x then x ∷ rest else rest

  -- An SQL update: the rows that pass are changed, in place.
  abbrev pub update_where : (A → Bool) → (A → A) → List A → List A
  update_where p f [] = []
  update_where p f (x ∷ xs) = (if p x then f x else x) ∷ update_where p f xs

  abbrev pub count_if : (A → Bool) → List A → ℕ
  count_if p [] = 0
  count_if p (x ∷ xs) = (if p x then 1 else 0) + count_if p xs

  -- Every entry has the property.
  abbrev pub All {κ} : (A → Type κ) → List A → Type κ
  All P [] = Unit
  All P (x ∷ xs) = P x × All P xs

  -- An entry, by position.
  pub data Member (a : A) : List A → Type ℓ where
    here : {xs : List A} → Member a (a ∷ xs)
    there : {x : A} {xs : List A} → Member a xs → Member a (x ∷ xs)

  pub length-append : (xs ys : List A) → length (xs ++ ys) ≡ length xs + length ys
  length-append [] ys = omega arith
  length-append (x ∷ xs) ys = omega (arith, length-append xs ys)

  pub count_if-append :
      (p : A → Bool) (xs ys : List A) → count_if p (xs ++ ys) ≡ count_if p xs + count_if p ys
  count_if-append p [] ys = omega arith
  count_if-append p (x ∷ xs) ys = omega (arith, count_if-append p xs ys)

  pub Member-cons : (x : A) (xs : List A) (a : A) → Member a (x ∷ xs) → (x ≡ a) ⊎ Member a xs
  Member-cons x xs a here = inl refl
  Member-cons x xs a (there m) = inr m

  pub find-some :
      (p : A → Bool) (xs : List A) (a : A) → find p xs ≡ some a → Member a xs × (p a ≡ true)
  find-some p [] a h = cc
  find-some p (x ∷ xs) a h = elim (Bool-cases (p x)) [
    | inl e ↦
        let q : x ≡ a = cc (rw e at h) in
        (subst (λ y. Member y (x ∷ xs)) q here, subst (λ y. p y ≡ true) q e)
    | inr e ↦ let (m, t) = find-some p xs a (rw e at h) in (there m, t)
  ]

  pub find-any : (p : A → Bool) (xs : List A) → find p xs ≡ none → any p xs ≡ false
  find-any p [] h = refl
  find-any p (x ∷ xs) h = ground (arith, find-any p xs)

  filter-Member :
      (p : A → Bool) (xs : List A) (a : A) → Member a (filter p xs) → Member a xs × (p a ≡ true)
  filter-Member p [] a m = elim m [ ]
  filter-Member p (x ∷ xs) a m = elim (Bool-cases (p x)) [
    | inl e ↦ elim (Member-cons x (filter p xs) a (rw e at m)) [
      | inl q ↦ (subst (λ y. Member y (x ∷ xs)) q here, subst (λ y. p y ≡ true) q e)
      | inr r ↦ let (m', t) = filter-Member p xs a r in (there m', t)
    ]
    | inr e ↦ let (m', t) = filter-Member p xs a (rw e at m) in (there m', t)
  ]

  any-intro : (p : A → Bool) (xs : List A) (a : A) → Member a xs → p a ≡ true → any p xs ≡ true
  any-intro p [] a m h = elim m [ ]
  any-intro p (x ∷ xs) a here h = rw h
  any-intro p (x ∷ xs) a (there m) h = elim (Bool-cases (p x)) [
    | inl e ↦ rw e
    | inr e ↦ rw e (any-intro p xs a m h)
  ]

  any-elim : (p : A → Bool) (xs : List A) → any p xs ≡ true → (a : A) × Member a xs × (p a ≡ true)
  any-elim p [] h = cc
  any-elim p (x ∷ xs) h = elim (Bool-cases (p x)) [
    | inl e ↦ (x, here, e)
    | inr e ↦ let (a, m, t) = any-elim p xs (rw e at h) in (a, there m, t)
  ]

  pub any_iff :
      (p : A → Bool) (xs : List A) → (any p xs ≡ true) ↔ ((a : A) × Member a xs × (p a ≡ true))
  any_iff p xs = (any-elim p xs, λ h. any-intro p xs h.0 h.1 h.2)

  filter-intro :
      (p : A → Bool) (xs : List A) (a : A) → Member a xs → p a ≡ true → Member a (filter p xs)
  filter-intro p [] a m h = elim m [ ]
  filter-intro p (x ∷ xs) a here h = rw h here
  filter-intro p (x ∷ xs) a (there m) h = elim (Bool-cases (p x)) [
    | inl e ↦ rw e (there (filter-intro p xs a m h))
    | inr e ↦ rw e (filter-intro p xs a m h)
  ]

  pub filter_iff :
      (p : A → Bool) (xs : List A) (a : A) → Member a (filter p xs) ↔ (Member a xs × (p a ≡ true))
  filter_iff p xs a = (filter-Member p xs a, λ h. filter-intro p xs a h.0 h.1)

  all-elim : (p : A → Bool) (xs : List A) → all p xs ≡ true → (a : A) → Member a xs → p a ≡ true
  all-elim p [] h a m = elim m [ ]
  all-elim p (x ∷ xs) h a here = ground arith
  all-elim p (x ∷ xs) h a (there m) = all-elim p xs (ground arith) a m

  all-intro : (p : A → Bool) (xs : List A) → ((a : A) → Member a xs → p a ≡ true) → all p xs ≡ true
  all-intro p [] h = refl
  all-intro p (x ∷ xs) h = rw (h x here) (all-intro p xs (λ a m. h a (there m)))

  pub all_iff :
      (p : A → Bool) (xs : List A) → (all p xs ≡ true) ↔ ((a : A) → Member a xs → p a ≡ true)
  all_iff p xs = (all-elim p xs, all-intro p xs)

  -- An update that leaves a test as it was leaves the number of rows that pass it.
  pub count_if-update_where :
      (p q : A → Bool) (f : A → A) (xs : List A)
      → ((a : A) → p (f a) ≡ p a)
      → count_if p (update_where q f xs) ≡ count_if p xs
  count_if-update_where p q f [] h = refl
  count_if-update_where p q f (x ∷ xs) h = ground (arith, h x, count_if-update_where p q f xs h)

  pub any-update_where :
      (p q : A → Bool) (f : A → A) (xs : List A)
      → ((a : A) → p (f a) ≡ p a)
      → any p (update_where q f xs) ≡ any p xs
  any-update_where p q f [] h = refl
  any-update_where p q f (x ∷ xs) h = ground (arith, h x, any-update_where p q f xs h)

  pub any-false-count_if : (p : A → Bool) (xs : List A) → any p xs ≡ false → count_if p xs ≡ 0
  any-false-count_if p [] h = refl
  any-false-count_if p (x ∷ xs) h = ground (arith, any-false-count_if p xs)

  pub All-append {κ} : (P : A → Type κ) (xs ys : List A) → All P xs → All P ys → All P (xs ++ ys)
  All-append P [] ys hx hy = hy
  All-append P (x ∷ xs) ys hx hy = (hx.0, All-append P xs ys hx.1 hy)

  -- A change of entries that a filter drops, before and after, is not seen through the filter.
  pub filter-update_where :
      (p q : A → Bool) (f : A → A) (xs : List A)
      → ((a : A) → q a ≡ true → p a ≡ false)
      → ((a : A) → q a ≡ true → p (f a) ≡ false)
      → filter p (update_where q f xs) ≡ filter p xs
  filter-update_where p q f [] h k = refl
  filter-update_where p q f (x ∷ xs) h k =
      ground (arith, h x, k x, filter-update_where p q f xs h k)

  pub Member-append_left : (xs ys : List A) (a : A) → Member a xs → Member a (xs ++ ys)
  Member-append_left [] ys a m = elim m [ ]
  Member-append_left (x ∷ xs) ys a here = here
  Member-append_left (x ∷ xs) ys a (there m) = there (Member-append_left xs ys a m)

  pub Member-append_right : (xs ys : List A) (a : A) → Member a ys → Member a (xs ++ ys)
  Member-append_right [] ys a m = m
  Member-append_right (x ∷ xs) ys a m = there (Member-append_right xs ys a m)

  pub Member-append : (xs ys : List A) (a : A) → Member a (xs ++ ys) → Member a xs ⊎ Member a ys
  Member-append [] ys a m = inr m
  Member-append (x ∷ xs) ys a m = elim (Member-cons x (xs ++ ys) a m) [
    | inl e ↦ inl (subst (λ y. Member y (x ∷ xs)) e here)
    | inr r ↦ elim (Member-append xs ys a r) [ inl l ↦ inl (there l) | inr q ↦ inr q ]
  ]

  -- The row that an update leaves of a row.
  abbrev pub changed : (A → Bool) → (A → A) → A → A
  changed p f a = if p a then f a else a

  pub Member-update_where :
      (p : A → Bool) (f : A → A) (xs : List A) (a : A)
      → Member a xs
      → Member (changed p f a) (update_where p f xs)
  Member-update_where p f [] a m = elim m [ ]
  Member-update_where p f (x ∷ xs) a here = here
  Member-update_where p f (x ∷ xs) a (there m) = there (Member-update_where p f xs a m)

  pub update_where-Member :
      (p : A → Bool) (f : A → A) (xs : List A) (b : A)
      → Member b (update_where p f xs)
      → (a : A) × Member a xs × (changed p f a ≡ b)
  update_where-Member p f [] b m = elim m [ ]
  update_where-Member p f (x ∷ xs) b m =
      elim (Member-cons (changed p f x) (update_where p f xs) b m) [
        | inl e ↦ (x, here, e)
        | inr r ↦ let (a, m', e) = update_where-Member p f xs b r in (a, there m', e)
      ]

  pub any-find : (p : A → Bool) (xs : List A) → any p xs ≡ false → find p xs ≡ none
  any-find p [] h = refl
  any-find p (x ∷ xs) h = ground (arith, any-find p xs)

  -- The first found in a list, or else in the next.
  abbrev pub or_in : Option A → Option A → Option A
  or_in none later = later
  or_in (some a) later = some a

  pub find-append :
      (p : A → Bool) (xs ys : List A) → find p (xs ++ ys) ≡ or_in (find p xs) (find p ys)
  find-append p [] ys = refl
  find-append p (x ∷ xs) ys = elim (Bool-cases (p x)) [
    | inl e ↦ rw e refl
    | inr e ↦ rw e (find-append p xs ys)
  ]

  abbrev pub change_found : (A → A) → Option A → Option A
  change_found f none = none
  change_found f (some a) = some (f a)

  pub find-update_where :
      (p q : A → Bool) (f : A → A) (xs : List A)
      → ((a : A) → p (changed q f a) ≡ p a)
      → find p (update_where q f xs) ≡ change_found (changed q f) (find p xs)
  find-update_where p q f [] h = refl
  find-update_where p q f (x ∷ xs) h = elim (Bool-cases (p x)) [
    | inl e ↦ let k = h x ∙ e in rw (e, k) refl
    | inr e ↦ let k = h x ∙ e in rw (e, k) (find-update_where p q f xs h)
  ]
