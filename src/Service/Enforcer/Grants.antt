-- ===== src/Service/Enforcer/Grants.antt =====
-- What a role may do once its permissions are set (crates/service/src/state.rs, `set_permissions`).
use jiascheduler.Base.{
  ◌≡◌, ◌↔◌, ◌∙◌, ap, sym, refl, inl, inr, String, ◌==◌, eq_iff, Bool, true, false, ◌&&◌, ◌||◌,
  Option, none, some, List, [], ◌∷◌, ok, any, all, Bool-cases, Option-cases, arith, if◌then◌else◌,
}
use jiascheduler.Service.Enforcer.{
  Policy, same_policy, Casbin, is_permission, split_key, set_policy, of_pair, set_keys,
  set_permissions,
}

-- The key names a permission of the list.
abbrev pub pair_valid : Option (String × String) → Bool
pair_valid none = false
pair_valid (some pair) = is_permission pair

abbrev pub is_valid : String → Bool
is_valid key = pair_valid (split_key key)

-- The keys before the first that names none.
abbrev pub valid_keys : List String → List String
valid_keys [] = []
valid_keys (key ∷ keys) = let rest = valid_keys keys in if is_valid key then key ∷ rest else []

-- The key names the object and the action of the policy.
abbrev pub pair_grants : Policy → Option (String × String) → Bool
pair_grants p none = false
pair_grants p (some pair) = (p.object == pair.0) && (p.action == pair.1)

abbrev pub grants : Policy → String → Bool
grants p key = pair_grants p (split_key key)

policy-path : (p q : Policy) → same_policy p q ≡ true → p ≡ q
policy-path p q h =
    let r : p.role ≡ q.role =
      ground (arith, eq_iff p.role q.role, eq_iff p.object q.object, eq_iff p.action q.action) in
    let o : p.object ≡ q.object =
      ground (arith, eq_iff p.role q.role, eq_iff p.object q.object, eq_iff p.action q.action) in
    let a : p.action ≡ q.action =
      ground (arith, eq_iff p.role q.role, eq_iff p.object q.object, eq_iff p.action q.action) in
    λ j. record { role = r j; object = o j; action = a j }

or_shuffle : (r g h rest : Bool) → ((r && g) || h) || (r && rest) ≡ h || (r && (g || rest))
or_shuffle true true true rest = refl
or_shuffle true true false rest = refl
or_shuffle true false h rest = refl
or_shuffle false g true rest = refl
or_shuffle false g false rest = refl

or-false : (h r : Bool) → h ≡ h || (r && false)
or-false true r = refl
or-false false true = refl
or-false false false = refl

module _ {Policies : Type 0} (casbin : Casbin Policies) where
  set_policy-has :
      (p q : Policy) (s : Policies)
      → casbin.has_policy p (set_policy casbin q s) ≡ (same_policy p q || casbin.has_policy p s)
  unfolding set_policy
  set_policy-has p q s = elim (Bool-cases (casbin.has_policy q s)) [
    | inl there_ ↦ elim (Bool-cases (same_policy p q)) [
      | inl same ↦
          let has = ap (λ x. casbin.has_policy x s) (policy-path p q same) ∙ there_ in
          rw (there_, same, set_policy) has
      | inr other ↦ rw (there_, other, set_policy) refl
    ]
    | inr new ↦ elim (Bool-cases (same_policy p q)) [
      | inl same ↦ rw (new, casbin.has-add p q s, same, set_policy) refl
      | inr other ↦ rw (new, casbin.has-add p q s, other, set_policy) refl
    ]
  ]

  set_keys-has :
      (role : String) (keys : List String) (s : Policies) (p : Policy)
      → casbin.has_policy p (set_keys casbin role keys s).1
        ≡ casbin.has_policy p s || ((p.role == role) && any (grants p) (valid_keys keys))
  unfolding set_keys
  set_keys-has role [] s p = casbin.has-load p s ∙ or-false (casbin.has_policy p s) (p.role == role)
  set_keys-has role (key ∷ keys) s p = elim (Option-cases (split_key key)) [
    | inl bare ↦ rw (bare, set_keys) (or-false (casbin.has_policy p s) (p.role == role))
    | inr (pair, e) ↦ elim (Bool-cases (is_permission pair)) [
      | inl valid ↦
          let q = of_pair casbin role pair in
          let after = set_policy casbin q s in
          let rest = any (grants p) (valid_keys keys) in
          rw (e, valid, set_keys)
            (set_keys-has role keys after p
              ∙ ap (λ h. h || ((p.role == role) && rest)) (set_policy-has p q s)
              ∙ ap
                  (λ o.
                    (((p.role == role) && pair_grants p o) || casbin.has_policy p s)
                    || ((p.role == role) && rest))
                  (sym e)
              ∙ or_shuffle (p.role == role) (grants p key) (casbin.has_policy p s) rest)
      | inr unknown ↦ rw (e, unknown, set_keys) (or-false (casbin.has_policy p s) (p.role == role))
    ]
  ]

  set_keys-ok :
      (role : String) (keys : List String) (s : Policies)
      → ((set_keys casbin role keys s).0 ≡ ok tt) ↔ (all is_valid keys ≡ true)
  unfolding set_keys
  set_keys-ok role [] s = (λ _. refl, λ _. refl)
  set_keys-ok role (key ∷ keys) s = elim (Option-cases (split_key key)) [
    | inl bare ↦ rw (bare, set_keys) (λ h. cc, λ h. cc)
    | inr (pair, e) ↦ elim (Bool-cases (is_permission pair)) [
      | inl valid ↦
          rw (e, valid, set_keys)
            (set_keys-ok role keys (set_policy casbin (of_pair casbin role pair) s))
      | inr unknown ↦ rw (e, unknown, set_keys) (λ h. cc, λ h. cc)
    ]
  ]

  -- The permissions of a role are set: its policies are the ones that these keys name, and those of
  -- other roles are as they were.
  abbrev pub Grants : String → List String → Policies → Policies → Type 0
  Grants role keys s t =
      (p : Policy)
      → casbin.has_policy p t
        ≡ (if p.role == role then any (grants p) keys else casbin.has_policy p s)

  cleared-or :
      (own : Bool) (before granted : Bool)
      → (if own then false else before) || (own && granted) ≡ (if own then granted else before)
  cleared-or true before granted = refl
  cleared-or false true granted = refl
  cleared-or false false granted = refl

  -- Setting the permissions of a role succeeds exactly when every key names a permission, and
  -- whatever it answers, the role then has the policies that the keys name before the first one that
  -- names none, and no others; the policies of other roles are as they were.
  pub set_permissions-Grants :
      (role : String) (keys : List String) (s : Policies)
      → (((set_permissions casbin role keys s).0 ≡ ok tt) ↔ (all is_valid keys ≡ true))
        × Grants role (valid_keys keys) s (set_permissions casbin role keys s).1
  unfolding set_permissions
  set_permissions-Grants role keys s = (
    set_keys-ok role keys (casbin.remove_role role s),
    λ p.
        set_keys-has role keys (casbin.remove_role role s) p
        ∙ ap (λ h. h || ((p.role == role) && any (grants p) (valid_keys keys)))
            (casbin.has-remove p role s)
        ∙ cleared-or (p.role == role) (casbin.has_policy p s) (any (grants p) (valid_keys keys)),
  )
