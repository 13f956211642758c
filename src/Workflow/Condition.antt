-- ===== src/Workflow/Condition.antt =====
-- crates/service/src/logic/workflow/condition.rs: the condition on an edge that leaves a gateway.
-- The expression engine is the vendored crate crates/expr.rs, a parameter here.
pub mod Support
use jiascheduler.Base.{
  String, ◌==◌, Bool, true, false, ◌&&◌, ◌||◌, if◌then◌else◌, Option, none, some, List, [], ◌∷◌,
  Result, ok, err, ◌>>=◌, ok_or, HashMap, insert, format,
}
use jiascheduler.Workflow.Tables.{NodeTask, Json, text, rows, truth}

pub data ConditionValType : Type 0 where
  user_variables custom exit_code output : ConditionValType

pub record ConditionVal : Type 0 where
  pub val_type : ConditionValType
  pub val : String

pub record Rule : Type 0 where
  pub name : String
  pub left_val : ConditionVal
  pub op : String
  pub right_val : ConditionVal

pub record Condition : Type 0 where
  pub expr : String
  pub logical_op : String
  pub rules : List Rule

pub record UserVariables : Type 0 where
  pub name : String
  pub val : String
  pub info : String

unfoldable pub get_wrap_val : String → String → Bool → String
get_wrap_val op var is_number =
    if (op == ">") || ((op == "<") || ((op == ">=") || (op == "<=")))
    then format ("float(" ∷ var ∷ ")" ∷ [])
    else (if ((op == "==") || (op == "!=")) && is_number
        then format ("float(" ∷ var ∷ ")" ∷ [])
        else var)

-- `format!("{} {} {}", wrap(left), op, wrap(right))`.
abbrev compare_text : String → String → String → Bool → String
compare_text op left right is_number =
    format (get_wrap_val op left is_number ∷ " " ∷ op ∷ " " ∷ get_wrap_val op right is_number ∷ [])

abbrev contains_text : String → String → String
contains_text left right = format ("indexOf(" ∷ left ∷ ", " ∷ right ∷ ") > 0" ∷ [])

-- The variables that a rule adds, and the expression to evaluate, by the types of its two values.
-- `find` selects the tasks of a node of the process.
module _ (find : String → List NodeTask) where
  abbrev rule_text_by :
      ConditionValType
      → ConditionValType
      → Rule
      → HashMap Json
      → Result String (String × HashMap Json)
  rule_text_by user_variables user_variables rule ctx = ok (
    if rule.op == "contains"
        then contains_text rule.left_val.val rule.right_val.val
        else compare_text rule.op rule.left_val.val rule.right_val.val false,
    ctx,
  )
  rule_text_by user_variables custom rule ctx = ok (
    if rule.op == "contains"
        then contains_text rule.left_val.val "right_val"
        else compare_text rule.op rule.left_val.val "right_val" false,
    insert "right_val" (text rule.right_val.val) ctx,
  )
  rule_text_by user_variables exit_code rule ctx = ok (
    if rule.op == "contains"
        then format
            ("all(right_val,{indexOf(" ∷ rule.left_val.val ∷ ", string(#.exit_code)) > 0})" ∷ [])
        else format (
            "all(right_val,{ "
            ∷ get_wrap_val rule.op rule.left_val.val true
            ∷ " "
            ∷ rule.op
            ∷ " "
            ∷ get_wrap_val rule.op "#.exit_code" true
            ∷ "})"
            ∷ []),
    insert "right_val" (rows (find rule.right_val.val)) ctx,
  )
  rule_text_by user_variables output rule ctx = ok (
    if rule.op == "contains"
        then format ("all(right_val,{indexOf(" ∷ rule.left_val.val ∷ ", #.output,) > 0})" ∷ [])
        else format (
            "all(right_val,{"
            ∷ get_wrap_val rule.op rule.left_val.val false
            ∷ " "
            ∷ rule.op
            ∷ " "
            ∷ get_wrap_val rule.op "#.output" false
            ∷ "})"
            ∷ []),
    insert "right_val" (rows (find rule.right_val.val)) ctx,
  )
  rule_text_by custom user_variables rule ctx = ok (
    if rule.op == "contains"
        then contains_text "left_val" rule.right_val.val
        else compare_text rule.op "left_val" rule.right_val.val false,
    insert "left_val" (text rule.left_val.val) ctx,
  )
  rule_text_by custom custom rule ctx = ok (
    if rule.op == "contains"
        then "indexOf(left_val, right_val) > 0"
        else compare_text rule.op "left_val" "right_val" false,
    insert "right_val" (text rule.right_val.val) (insert "left_val" (text rule.left_val.val) ctx),
  )
  rule_text_by custom exit_code rule ctx = ok (
    if rule.op == "contains"
        then "all(right_val,{indexOf(left_val, string(.exit_code)) > 0})"
        else format ("all(right_val,{float(left_val) " ∷ rule.op ∷ " float(.exit_code)})" ∷ []),
    insert "right_val" (rows (find rule.right_val.val))
        (insert "left_val" (text rule.left_val.val) ctx),
  )
  rule_text_by custom output rule ctx = ok (
    if rule.op == "contains"
        then "all(right_val,{indexOf(left_val, .output) > 0})"
        else format (
            "all(right_val,{"
            ∷ get_wrap_val rule.op "left_val" false
            ∷ " "
            ∷ rule.op
            ∷ " "
            ∷ get_wrap_val rule.op ".output" false
            ∷ "})"
            ∷ []),
    insert "right_val" (rows (find rule.right_val.val))
        (insert "left_val" (text rule.left_val.val) ctx),
  )
  rule_text_by exit_code user_variables rule ctx = ok (
    if rule.op == "contains"
        then format
            ("all(left_val,{indexOf(string(#.exit_code), " ∷ rule.right_val.val ∷ ") > 0})" ∷ [])
        else format (
            "all(left_val,{float(#.exit_code) "
            ∷ rule.op
            ∷ " "
            ∷ get_wrap_val rule.op rule.right_val.val true
            ∷ "})"
            ∷ []),
    insert "left_val" (rows (find rule.left_val.val)) ctx,
  )
  rule_text_by exit_code custom rule ctx = ok (
    if rule.op == "contains"
        then "all(left_val,{indexOf(string(#.exit_code), right_val) > 0})"
        else format (
            "all(left_val,{float(#.exit_code) "
            ∷ rule.op
            ∷ " "
            ∷ get_wrap_val rule.op "right_val" true
            ∷ "})"
            ∷ []),
    insert "right_val" (text rule.right_val.val)
        (insert "left_val" (rows (find rule.left_val.val)) ctx),
  )
  rule_text_by exit_code exit_code rule ctx = err "not support exit code compare to exit code"
  rule_text_by exit_code output rule ctx = err "not support exit code compare to output"
  rule_text_by output user_variables rule ctx = ok (
    if rule.op == "contains"
        then format ("all(left_val,{indexOf(#.output, " ∷ rule.right_val.val ∷ ") > 0})" ∷ [])
        else format (
            "all(left_val,{"
            ∷ get_wrap_val rule.op "#.output" false
            ∷ " "
            ∷ rule.op
            ∷ " "
            ∷ get_wrap_val rule.op rule.right_val.val false
            ∷ "})"
            ∷ []),
    insert "left_val" (rows (find rule.left_val.val)) ctx,
  )
  rule_text_by output custom rule ctx = ok (
    if rule.op == "contains"
        then "all(left_val,{indexOf(#.output, right_val) > 0})"
        else format (
            "all(left_val,{"
            ∷ get_wrap_val rule.op "#.output" false
            ∷ " "
            ∷ rule.op
            ∷ " "
            ∷ get_wrap_val rule.op "right_val" false
            ∷ "})"
            ∷ []),
    insert "right_val" (text rule.right_val.val)
        (insert "left_val" (rows (find rule.left_val.val)) ctx),
  )
  rule_text_by output exit_code rule ctx = err "not support output compare to exit code"
  rule_text_by output output rule ctx = err "not support output compare to output"

  unfoldable pub rule_text : Rule → HashMap Json → Result String (String × HashMap Json)
  unfolding get_wrap_val
  rule_text rule ctx = rule_text_by rule.left_val.val_type rule.right_val.val_type rule ctx

abbrev global_vars : List UserVariables → HashMap Json → HashMap Json
global_vars [] ctx = ctx
global_vars (v ∷ vars) ctx = global_vars vars (insert v.name (text v.val) ctx)

abbrev vars_or_none : Option (List UserVariables) → List UserVariables
vars_or_none none = []
vars_or_none (some vars) = vars

abbrev pub global_ctx : Option (List UserVariables) → HashMap Json
global_ctx vars = global_vars (vars_or_none vars) []

-- `evaluate` is the engine: an error, or the value as a truth value, if it is one.
module _ (evaluate : String → HashMap Json → Result String (Option Bool)) where
  abbrev pub eval_bool : String → HashMap Json → Result String Bool
  eval_bool d ctx = evaluate d ctx >>= λ v. ok_or v "invalid express compare result"

  module _ (find : String → List NodeTask) (vars : Option (List UserVariables)) where
    unfoldable pub eval_rules : List Rule → HashMap Json → Result String (HashMap Json)
    unfolding rule_text
    eval_rules [] outer_ctx = ok outer_ctx
    eval_rules (rule ∷ rules) outer_ctx = rule_text find rule (global_ctx vars) >>= λ d.
        eval_bool d.0 d.1 >>= λ val. eval_rules rules (insert rule.name (truth val) outer_ctx)

    unfoldable pub eval : Condition → Result String Bool
    unfolding eval_rules
    eval self = do outer_ctx ← eval_rules self.rules []; eval_bool self.expr outer_ctx
