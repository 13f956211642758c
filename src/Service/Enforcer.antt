-- ===== src/Service/Enforcer.antt =====
-- The permissions of the roles (crates/service/src/state.rs and logic/role.rs) over the policies of
-- casbin, whose documented operations are the record `Casbin`.
pub mod Grants
use Prim.Native.Char.{code}
use jiascheduler.Base.{
  nat_eq, String, ◌==◌, Bool, true, false, ◌&&◌, Option, none, some, List, [], ◌∷◌, Result, ok, err,
  any, format, ◌≡◌, if◌then◌else◌,
}

pub data Fault : Type 0 where
  failed : String → Fault
  panicked : Fault

-- A policy: a role may do an action to an object.
pub record Policy : Type 0 where
  pub role : String
  pub object : String
  pub action : String

abbrev pub same_policy : Policy → Policy → Bool
same_policy p q = (p.role == q.role) && ((p.object == q.object) && (p.action == q.action))

-- What the code uses of casbin, and what its documentation says of it. `Policies` is the state of
-- the enforcer; what it saves it loads again.
pub record Casbin (Policies : Type 0) : Type 0 where
  pub has_policy : Policy → Policies → Bool
  pub add_policy : Policy → Policies → Policies
  -- `remove_filtered_policy(0, [role])`.
  pub remove_role : String → Policies → Policies
  pub load_policy : Policies → Policies
  pub has-add :
      (p q : Policy) (s : Policies)
      → has_policy p (add_policy q s) ≡ (if same_policy p q then true else has_policy p s)
  pub has-remove :
      (p : Policy) (role : String) (s : Policies)
      → has_policy p (remove_role role s) ≡ (if p.role == role then false else has_policy p s)
  pub has-load : (p : Policy) (s : Policies) → has_policy p (load_policy s) ≡ has_policy p s

-- logic/role.rs, `PERMISSIONS`: the object and the action of each.
abbrev pub permissions : List (String × String)
permissions =
    ("instance", "manage")
    ∷ ("user", "manage")
    ∷ ("change", "forbid")
    ∷ ("job", "manage")
    ∷ ("file", "upload")
    ∷ []

abbrev pub is_permission : String × String → Bool
is_permission pair = any (λ (v : String × String). (v.0 == pair.0) && (v.1 == pair.1)) permissions

abbrev longer : Option (String × String) → String → Option (String × String)
longer none c = none
longer (some (object, action)) c = some (format (c ∷ object ∷ []), action)

-- `splitn(2, "_")`: the parts before and after the first underscore, if there is one.
unfoldable pub split_key : String → Option (String × String)
unfolding format
split_key String.[] = none
split_key (String.◌∷◌ c s) =
    let rest = split_key s in
    if nat_eq (code c) 95 then some ("", s) else longer rest (String.◌∷◌ c "")

module _ {Policies : Type 0} (casbin : Casbin Policies) where
  unfoldable pub set_policy : Policy → Policies → Policies
  set_policy p s = if casbin.has_policy p s then s else casbin.add_policy p s

  abbrev pub of_pair : String → String × String → Policy
  of_pair role pair = record { role = role; object = pair.0; action = pair.1 }

  -- The keys one after the other, up to one that is no permission; a key without an underscore is a
  -- panic of the index.
  unfoldable pub set_keys : String → List String → Policies → Result Fault (Unit {0}) × Policies
  set_keys role [] s = (ok tt, casbin.load_policy s)
  set_keys role (key ∷ keys) s = elim (split_key key) [
    | none ↦ (err panicked, s)
    | some pair ↦
        let rest = set_keys role keys (set_policy (of_pair role pair) s) in
        if is_permission pair then rest else (err (failed "invalid permission key"), s)
  ]

  unfoldable pub set_permissions :
      String → List String → Policies → Result Fault (Unit {0}) × Policies
  set_permissions role_id keys s = set_keys role_id keys (casbin.remove_role role_id s)

-- `check_permissions`, with the enforcer's answers.
unfoldable pub check_permissions :
    (String × String → Result Fault Bool) → List (String × String) → Result Fault Bool
check_permissions enforce [] = ok true
check_permissions enforce (p ∷ val) =
    let rest = check_permissions enforce val in
    elim (enforce p) [ err e ↦ err e | ok false ↦ ok false | ok true ↦ rest ]
