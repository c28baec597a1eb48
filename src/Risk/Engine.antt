-- ===== src/Risk/Engine.antt =====
-- `class RiskEngine` of src/hqmts/risk/engine.py. An engine is the list of its registered rules.
pub mod Verdict
pub mod Registration
pub mod Triggered
use hqmts.Prelude.{
  ℕ, String, Bool, true, false, Option, none, some, List, [], ◌∷◌, ◌++◌, if◌then◌else◌, keep, ltb,
}
use hqmts.Risk.Types.{
  RiskResultType, allow, reject, resize, delay, force_flatten, RiskLayer, market, account, strategy,
  instrument, order, RiskContext, RiskRuleResult, RiskRule, RiskCheckResult,
}

abbrev pub priority_value : RiskResultType → ℕ
priority_value force_flatten = 5
priority_value reject = 4
priority_value resize = 3
priority_value delay = 2
priority_value allow = 1

unfoldable pub register_rule : RiskRule → List RiskRule → List RiskRule
register_rule rule rules = rules ++ rule ∷ []

abbrev pub same_layer : RiskLayer → RiskLayer → Bool
same_layer market market = true
same_layer account account = true
same_layer strategy strategy = true
same_layer instrument instrument = true
same_layer order order = true
same_layer _ _ = false

unfoldable pub get_rules_by_layer : RiskLayer → List RiskRule → List RiskRule
get_rules_by_layer layer rules = keep (λ r. same_layer r.layer layer) rules

-- `triggered_rules` and `most_restrictive`, and whether the loops were left by `return`.
pub record Progress : Type 0 where
  pub triggered_rules : List String
  pub most_restrictive : Option RiskRuleResult
  pub returned : Bool

abbrev pub more_restrictive : RiskRuleResult → Option RiskRuleResult → Bool
more_restrictive r none = true
more_restrictive r (some m) = ltb (priority_value m.result_type) (priority_value r.result_type)

abbrev pub is_force_flatten : RiskResultType → Bool
is_force_flatten force_flatten = true
is_force_flatten _ = false

-- The body of the inner loop, for the answer of one rule.
abbrev pub note_result : Option RiskRuleResult → Progress → Progress
note_result none p = p
note_result (some r) p = record {
  triggered_rules = p.triggered_rules ++ r.rule_name ∷ [];
  most_restrictive = if more_restrictive r p.most_restrictive then some r else p.most_restrictive;
  returned = is_force_flatten r.result_type;
}

unfoldable pub check_rules : RiskContext → List RiskRule → Progress → Progress
check_rules context [] p = p
check_rules context (rule ∷ rules) p =
    let p' = note_result (rule.check context) p in
    let rest = check_rules context rules p' in if p'.returned then p' else rest

abbrev pub layer_order : List RiskLayer
layer_order = market ∷ account ∷ strategy ∷ instrument ∷ order ∷ []

unfoldable pub check_layers : RiskContext → List RiskRule → List RiskLayer → Progress → Progress
unfolding check_rules get_rules_by_layer
check_layers context rules [] p = p
check_layers context rules (layer ∷ layers) p =
    let p' = check_rules context (get_rules_by_layer layer rules) p in
    let rest = check_layers context rules layers p' in if p'.returned then p' else rest

unfoldable pub build_result : RiskContext → Option RiskRuleResult → List String → RiskCheckResult
build_result context none triggered_rules = record {
  signal_id = context.signal_id;
  order_request_id = context.order_request_id;
  result_type = allow;
  resized_quantity = none;
  triggered_rules = [];
  check_time = context.check_time;
}
build_result context (some r) triggered_rules = record {
  signal_id = context.signal_id;
  order_request_id = context.order_request_id;
  result_type = r.result_type;
  resized_quantity = r.resized_quantity;
  triggered_rules = triggered_rules;
  check_time = context.check_time;
}

abbrev pub no_progress : Progress
no_progress = record { triggered_rules = []; most_restrictive = none; returned = false }

unfoldable pub evaluate : RiskContext → List RiskRule → RiskCheckResult
unfolding check_layers build_result
evaluate context rules =
    let p = check_layers context rules layer_order no_progress in
    build_result context p.most_restrictive p.triggered_rules
