-- ===== src/Service/Keys.antt =====
-- Tables whose rows have a number that the database gives out. A row that repeats a number repeats
-- what the number stands for, and the numbers are below the next one.
use jiascheduler.Base.{
  ℕ, ◌+◌, ◌<◌, ◌≡◌, sym, ap, ◌∙◌, inl, inr, Bool, List, [], ◌∷◌, ◌++◌, filter, update_where,
  changed, Member, Member-cons, Member-append, filter_iff, update_where-Member, arith,
}

module _ {A K : Type 0} (id : A → ℕ) (key : A → K) where
  abbrev pub Keyed : List A → ℕ → Type 0
  Keyed rows next =
      ((a b : A) → Member a rows → Member b rows → id a ≡ id b → key a ≡ key b)
      × ((a : A) → Member a rows → id a < next)

  Member-single : (row a : A) → Member a (row ∷ []) → row ≡ a
  Member-single row a m = elim (Member-cons row [] a m) [
    | inl e ↦ e
    | inr nothing ↦ elim nothing [ ]
  ]

  pub Keyed-new :
      (rows : List A) (next : ℕ) (row : A)
      → Keyed rows next
      → id row ≡ next
      → Keyed (rows ++ row ∷ []) (next + 1)
  Keyed-new rows next row (same, bound) e = (
    λ a b ma mb h. elim (Member-append rows (row ∷ []) a ma) [
      | inl a_old ↦ elim (Member-append rows (row ∷ []) b mb) [
        | inl b_old ↦ same a b a_old b_old h
        | inr b_new ↦ absurd (omega (arith, bound a a_old, ap id (Member-single row b b_new)))
      ]
      | inr a_new ↦ elim (Member-append rows (row ∷ []) b mb) [
        | inl b_old ↦ absurd (omega (arith, bound b b_old, ap id (Member-single row a a_new)))
        | inr b_new ↦ sym (ap key (Member-single row a a_new)) ∙ ap key (Member-single row b b_new)
      ]
    ],
    λ a ma. elim (Member-append rows (row ∷ []) a ma) [
      | inl old ↦ omega (arith, bound a old)
      | inr new ↦ omega (arith, ap id (Member-single row a new))
    ],
  )

  pub Keyed-filter :
      (p : A → Bool) (rows : List A) (next : ℕ) → Keyed rows next → Keyed (filter p rows) next
  Keyed-filter p rows next (same, bound) = (
    λ a b ma mb. same a b ((filter_iff p rows a).0 ma).0 ((filter_iff p rows b).0 mb).0,
    λ a ma. bound a ((filter_iff p rows a).0 ma).0,
  )

  -- A change that keeps the numbers and treats rows of one number alike.
  pub Keyed-update_where :
      (p : A → Bool) (f : A → A) (rows : List A) (next : ℕ)
      → ((a : A) → id (changed p f a) ≡ id a)
      → ((a b : A)
          → Member a rows
          → Member b rows
          → id a ≡ id b
          → key a ≡ key b
          → key (changed p f a) ≡ key (changed p f b))
      → Keyed rows next
      → Keyed (update_where p f rows) next
  Keyed-update_where p f rows next ids alike (same, bound) = (
    λ a b ma mb h.
        let (a0, ra, ea) = update_where-Member p f rows a ma in
        let (b0, rb, eb) = update_where-Member p f rows b mb in
        let e : id a0 ≡ id b0 = sym (ids a0) ∙ ap id ea ∙ h ∙ sym (ap id eb) ∙ ids b0 in
        sym (ap key ea) ∙ alike a0 b0 ra rb e (same a0 b0 ra rb e) ∙ ap key eb,
    λ a ma.
        let (a0, ra, ea) = update_where-Member p f rows a ma in
        omega (arith, bound a0 ra, ids a0, ap id ea),
  )
