-- ===== src/Service/Tests.antt =====
-- The theorems about crates/service/src at concrete inputs.
use jiascheduler.Base.{
  ℕ, ◌+◌, ◌-◌, ◌*◌, ◌≤◌, ◌≡◌, ◌↔◌, refl, String, ◌==◌, eq_iff, Bool, true, false, not, none, some,
  ok, List, [], ◌∷◌, length, any, all, filter, arith, if◌then◌else◌,
}
use jiascheduler.Service.Teams.{Tables, TeamModel}
use jiascheduler.Service.Teams.Admins.{IsAdministered}
use jiascheduler.Service.Teams.Creators.{save, remove, perform, perform-IsAdministered}
use jiascheduler.Service.RateLimiter.{RateLimiter, from_secs, new, granted}
use jiascheduler.Service.RateLimiter.Grants.{new-granted-bounded}
use jiascheduler.Service.Enforcer.{Policy, Casbin, same_policy, set_permissions}
use jiascheduler.Service.Enforcer.Grants.{is_valid, valid_keys, Grants, set_permissions-Grants}

abbrev no_teams : Tables
no_teams = record {
  teams = [];
  members = [];
  users = record { user_id = "u1"; username = "ann" } ∷ [];
  job_teams = [];
  next_team = 1;
  next_member = 1;
}

no_teams-IsAdministered : IsAdministered no_teams
no_teams-IsAdministered = (
  λ team user row named. elim row [ ],
  (λ a b ma mb e. elim ma [ ], λ a ma. elim ma [ ]),
  (λ a b ma mb e. elim ma [ ], λ a ma. elim ma [ ]),
)

abbrev crew : TeamModel
crew = record {
  id = none;
  name = "crew";
  info = none;
  created_user = some "ann";
  updated_user = "ann";
}

perform-IsAdministered_example :
    IsAdministered (perform (remove 1 (some ("u1" ∷ []))) (perform (save crew) no_teams).1).1
perform-IsAdministered_example =
    perform-IsAdministered (remove 1 (some ("u1" ∷ []))) (perform (save crew) no_teams).1
      (perform-IsAdministered (save crew) no_teams no_teams-IsAdministered)

abbrev limiter : RateLimiter
limiter = record { last_executed = 4000000000; interval = 1000000000 }

made : new 1 5000000000 ≡ some limiter
unfolding new
made = refl

abbrev calls : List ℕ
calls = 5000000000 ∷ 5500000000 ∷ 6000000000 ∷ []

new-granted-bounded_example :
    length (granted calls limiter) * from_secs 1 ≤ (7000000000 - 5000000000) + from_secs 1
new-granted-bounded_example =
    new-granted-bounded 1 5000000000 7000000000 limiter calls made
      (omega arith, (omega arith, (omega arith, omega arith)))

-- Casbin over a list of policies.
abbrev has : Policy → List Policy → Bool
has p s = any (same_policy p) s

abbrev without_role : String → List Policy → List Policy
without_role role = filter λ q. not (q.role == role)

has-cons :
    (p q : Policy) (s : List Policy) → has p (q ∷ s) ≡ (if same_policy p q then true else has p s)
has-cons p q s = ground arith

has-without_role :
    (p : Policy) (role : String) (s : List Policy)
    → has p (without_role role s) ≡ (if p.role == role then false else has p s)
has-without_role p role [] = ground arith
has-without_role p role (q ∷ s) =
    ground (
      arith,
      has-without_role p role s,
      eq_iff p.role q.role,
      eq_iff p.role role,
      eq_iff q.role role,
    )

abbrev lists : Casbin (List Policy)
lists = record {
  has_policy = has;
  add_policy = λ p s. p ∷ s;
  remove_role = without_role;
  load_policy = λ s. s;
  has-add = has-cons;
  has-remove = has-without_role;
  has-load = λ p s. refl;
}

abbrev old_policies : List Policy
old_policies = record { role = "3"; object = "job"; action = "manage" } ∷ []

set_permissions-Grants_example :
    (((set_permissions lists "3" ("file_upload" ∷ "typo" ∷ []) old_policies).0 ≡ ok tt)
      ↔ (all is_valid ("file_upload" ∷ "typo" ∷ []) ≡ true))
    × Grants lists "3"
        (valid_keys ("file_upload" ∷ "typo" ∷ []))
        old_policies
        (set_permissions lists "3" ("file_upload" ∷ "typo" ∷ []) old_policies).1
set_permissions-Grants_example =
    set_permissions-Grants lists "3" ("file_upload" ∷ "typo" ∷ []) old_policies
