-- ===== src/Risk/Examples.antt =====
-- The theorems on the risk engine, the rules and the final check at concrete contexts.
use mathlib.Core.List.Permᴰ.{refl as permuted_refl}
use hqmts.Prelude.{◌≡◌, ◌≢◌, ◌↔◌, refl, sym, ◌∙◌, true, false, none, some, List, [], ◌∷◌}
use hqmts.Prelude.Int.{pos, ◌*ℤ◌}
use hqmts.Fsm.Strategy.{live_running}
use hqmts.Risk.Types.{RiskResultType, resize, force_flatten, RiskContext, RiskRuleResult, RiskRule}
use hqmts.Risk.Engine.{
  priority_value, layer_order, evaluate, check_layers, check_rules, get_rules_by_layer,
  build_result,
}
use hqmts.Risk.Engine.Verdict.{worst, evaluate-worst}
use hqmts.Risk.Engine.Triggered.{answers_by_layer, evaluate-triggered}
use hqmts.Risk.Rules.Account.{min_available_cash}
use hqmts.Risk.Rules.Order.{min_lot_size_check, lot_answer}
use hqmts.Risk.Rules.Flatten.{exempting_rules, flatten_passes}
use hqmts.Risk.FinalContext.{FinalCheckResult, FinalCheckContext}
use hqmts.Risk.FinalCheck.{execute}
use hqmts.Risk.FinalCheck.Verdict.{Cleared, execute-allow_iff}

-- A purchase of 250 shares at 10 with 2,000 in cash.
abbrev context : RiskContext
context = record {
  signal_id = some "s";
  order_request_id = none;
  strategy_instance_id = some "S";
  account_id = some "A";
  instrument_id = some "600000.SH";
  side = some "buy";
  quantity = pos 250;
  price = pos 1_000_000_000;
  account_total_asset = pos 1_000_000_000_000;
  account_available_cash = pos 200_000_000_000;
  account_market_value = pos 0;
  account_pnl_intraday = pos 0;
  account_drawdown_intraday = pos 0;
  strategy_status = "live_running";
  strategy_position_ratio = pos 0;
  strategy_daily_loss = pos 0;
  strategy_consecutive_losses = pos 0;
  instrument_is_st = true;
  instrument_avg_daily_amount = pos 0;
  instrument_position_ratio = pos 0;
  instrument_daily_pnl = pos 0;
  existing_order_count_last_min = pos 0;
  is_flatten = false;
  check_time = 36_000_000_000;
  index_drop_pct = pos 0;
  market_volatility = pos 0;
  recent_same_side_orders = pos 0;
  strategy_last_trade_time = none;
}

abbrev lot_rule : RiskRule
lot_rule = min_lot_size_check 100

abbrev cash_rule : RiskRule
cash_rule = min_available_cash (pos 0)

abbrev rules : List RiskRule
rules = lot_rule ∷ cash_rule ∷ []

abbrev rules_swapped : List RiskRule
rules_swapped = cash_rule ∷ lot_rule ∷ []

evaluate-worst_example : priority_value (evaluate context rules).result_type ≡ worst context rules
evaluate-worst_example = evaluate-worst context rules

resized : (evaluate context (lot_rule ∷ [])).result_type ≡ resize
unfolding evaluate check_layers check_rules get_rules_by_layer build_result min_lot_size_check
    lot_answer ◌*ℤ◌
resized = refl

resize_ne : resize ≢ force_flatten
resize_ne e = cc e

evaluate-triggered_example :
    (evaluate context (lot_rule ∷ [])).triggered_rules
    ≡ answers_by_layer context (lot_rule ∷ []) layer_order
evaluate-triggered_example =
    evaluate-triggered context (lot_rule ∷ []) (λ e. resize_ne (sym resized ∙ e))

abbrev flattening : RiskContext
flattening = record context { is_flatten = true }

flatten_passes_example :
    (evaluate flattening
      (exempting_rules (pos 1) (pos 2) (pos 3) (pos 4) (pos 5) (pos 6) (pos 7) (pos 8))).result_type
    ≡ RiskResultType.allow
flatten_passes_example =
    flatten_passes (pos 1) (pos 2) (pos 3) (pos 4) (pos 5) (pos 6) (pos 7) (pos 8)
      (exempting_rules (pos 1) (pos 2) (pos 3) (pos 4) (pos 5) (pos 6) (pos 7) (pos 8)) flattening
      ∣ permuted_refl _ ∣₁ refl

abbrev cut : RiskRuleResult
cut = record {
  result_type = resize;
  rule_name = "min_lot_size_check";
  resized_quantity = some (pos 200);
}

abbrev affordable : RiskRuleResult
affordable = record {
  result_type = resize;
  rule_name = "min_available_cash";
  resized_quantity = some (pos 200);
}

abbrev submission : FinalCheckContext
submission = record {
  strategy_status = some live_running;
  signal_valid_until = some 50;
  intent_created_at = none;
  qmt_adapter_available = some true;
  account_risk_status = some "normal";
  account_available_cash = pos 0;
  available_quantity = pos 300;
  required_quantity = pos 0;
  today_bought_quantity = pos 100;
  side = "sell";
  reservation_status = none;
  reservation_expires_at = none;
  has_conflicting_inflight = some false;
  kill_switch_active = some false;
  close_only_mode = false;
  pause_open_mode = false;
  orders_last_minute = pos 0;
  max_orders_per_minute = pos 60;
  price = pos 1_000_000_000;
  quantity = pos 200;
  instrument_id = "600000.SH";
  source_is_deterministic = true;
  request_from_execution_service = true;
  is_flatten = false;
  check_time = 40;
  stale_price_threshold_seconds = pos 0;
  reference_price_age_seconds = pos 0;
}

execute-allow_iff_example :
    ((execute submission).result ≡ FinalCheckResult.allow) ↔ Cleared submission
execute-allow_iff_example = execute-allow_iff submission

abbrev killed : FinalCheckContext
killed = record submission { kill_switch_active = some true }
