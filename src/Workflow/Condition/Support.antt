-- ===== src/Workflow/Condition/Support.antt =====
-- Which comparisons a condition supports (crates/service/src/logic/workflow/condition.rs).
use jiascheduler.Base.{String, ◌≡◌, ◌↔◌, refl, Bool, true, false, ◌&&◌, List, ok, HashMap}
use jiascheduler.Workflow.Tables.{NodeTask, Json}
use jiascheduler.Workflow.Condition.{
  Rule, ConditionValType, user_variables, custom, exit_code, output, rule_text, rule_text_by,
}

-- A value that is read off the tasks of a node.
abbrev pub from_tasks : ConditionValType → Bool
from_tasks exit_code = true
from_tasks output = true
from_tasks _ = false

abbrev pub IsSupported : Rule → Type 0
IsSupported rule = (from_tasks rule.left_val.val_type && from_tasks rule.right_val.val_type) ≡ false

module _ (find : String → List NodeTask) where
  rule_text_by-supported :
      (l r : ConditionValType) (rule : Rule) (ctx : HashMap Json)
      → (from_tasks l && from_tasks r) ≡ false
      → (d : String × HashMap Json) × (rule_text_by find l r rule ctx ≡ ok d)
  rule_text_by-supported user_variables user_variables rule ctx h = (_, refl)
  rule_text_by-supported user_variables custom rule ctx h = (_, refl)
  rule_text_by-supported user_variables exit_code rule ctx h = (_, refl)
  rule_text_by-supported user_variables output rule ctx h = (_, refl)
  rule_text_by-supported custom user_variables rule ctx h = (_, refl)
  rule_text_by-supported custom custom rule ctx h = (_, refl)
  rule_text_by-supported custom exit_code rule ctx h = (_, refl)
  rule_text_by-supported custom output rule ctx h = (_, refl)
  rule_text_by-supported exit_code user_variables rule ctx h = (_, refl)
  rule_text_by-supported exit_code custom rule ctx h = (_, refl)
  rule_text_by-supported exit_code exit_code rule ctx h = cc
  rule_text_by-supported exit_code output rule ctx h = cc
  rule_text_by-supported output user_variables rule ctx h = (_, refl)
  rule_text_by-supported output custom rule ctx h = (_, refl)
  rule_text_by-supported output exit_code rule ctx h = cc
  rule_text_by-supported output output rule ctx h = cc

  supported-rule_text_by :
      (l r : ConditionValType) (rule : Rule) (ctx : HashMap Json) (d : String × HashMap Json)
      → rule_text_by find l r rule ctx ≡ ok d
      → (from_tasks l && from_tasks r) ≡ false
  supported-rule_text_by user_variables r rule ctx d h = refl
  supported-rule_text_by custom r rule ctx d h = refl
  supported-rule_text_by exit_code user_variables rule ctx d h = refl
  supported-rule_text_by exit_code custom rule ctx d h = refl
  supported-rule_text_by exit_code exit_code rule ctx d h = cc
  supported-rule_text_by exit_code output rule ctx d h = cc
  supported-rule_text_by output user_variables rule ctx d h = refl
  supported-rule_text_by output custom rule ctx d h = refl
  supported-rule_text_by output exit_code rule ctx d h = cc
  supported-rule_text_by output output rule ctx d h = cc

  -- A rule has an expression exactly when at most one of its values is read off a node's tasks.
  pub rule_text_iff_IsSupported :
      (rule : Rule) (ctx : HashMap Json)
      → ((d : String × HashMap Json) × (rule_text find rule ctx ≡ ok d)) ↔ IsSupported rule
  unfolding rule_text
  rule_text_iff_IsSupported rule ctx = (
    λ d. supported-rule_text_by rule.left_val.val_type rule.right_val.val_type rule ctx d.0 d.1,
    λ h. rule_text_by-supported rule.left_val.val_type rule.right_val.val_type rule ctx h,
  )
