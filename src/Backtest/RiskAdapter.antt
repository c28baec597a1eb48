-- ===== src/Backtest/RiskAdapter.antt =====
-- src/hqmts/backtest/risk_adapter.py. The engine of the adapter is its list of rules, or none. A
-- ratio is cut to eight places.
use hqmts.Prelude.{String, false, ◌&&◌, Option, none, some, List, [], if◌then◌else◌}
use hqmts.Prelude.Int.{pos, ◌*ℤ◌, ltb_ℤ, trunc_div, pos_part}
use hqmts.Prelude.Decimal.{Decimal, Datetime, unit}
use text.Mathlib.Text.{◌==◌ as str_eq}
use hqmts.Backtest.Types.{Side, buy, sell, BacktestOrder}
use hqmts.Backtest.Portfolio.{
  Position, PortfolioState, lookup, calculate_total_asset, positions_value,
}
use hqmts.Risk.Types.{RiskContext, RiskRule, RiskCheckResult, allow}
use hqmts.Risk.Engine.{evaluate}

abbrev pub side_name : Side → String
side_name buy = "buy"
side_name sell = "sell"

abbrev position_ratio : Option Position → Decimal → Decimal
position_ratio none total_asset = pos 0
position_ratio (some p) total_asset =
    if ltb_ℤ (pos 0) total_asset && ltb_ℤ (pos 0) p.market_value
    then trunc_div (p.market_value *ℤ pos unit) (pos_part total_asset)
    else pos 0

-- `limit_price or Decimal("0")`
abbrev price_or_zero : Option Decimal → Decimal
price_or_zero none = pos 0
price_or_zero (some price) = price

unfoldable pub build_risk_context : Datetime → BacktestOrder → PortfolioState → String → RiskContext
unfolding calculate_total_asset positions_value
build_risk_context now order portfolio instrument_id = record {
  signal_id = if str_eq order.signal_id "" then none else some order.signal_id;
  order_request_id = none;
  strategy_instance_id = none;
  account_id = none;
  instrument_id = some instrument_id;
  side = some (side_name order.side);
  quantity = order.quantity;
  price = price_or_zero order.limit_price;
  account_total_asset = calculate_total_asset portfolio;
  account_available_cash = portfolio.cash;
  account_market_value = positions_value portfolio.positions;
  account_pnl_intraday = pos 0;
  account_drawdown_intraday = pos 0;
  strategy_status = "paper_running";
  strategy_position_ratio = pos 0;
  strategy_daily_loss = pos 0;
  strategy_consecutive_losses = pos 0;
  instrument_is_st = false;
  instrument_avg_daily_amount = pos 0;
  instrument_position_ratio =
      position_ratio (lookup instrument_id portfolio.positions) (calculate_total_asset portfolio);
  instrument_daily_pnl = pos 0;
  existing_order_count_last_min = pos 0;
  is_flatten = false;
  check_time = now;
  index_drop_pct = pos 0;
  market_volatility = pos 0;
  recent_same_side_orders = pos 0;
  strategy_last_trade_time = none;
}

abbrev pub allow_result : RiskContext → RiskCheckResult
allow_result context = record {
  signal_id = none;
  order_request_id = none;
  result_type = allow;
  resized_quantity = none;
  triggered_rules = [];
  check_time = context.check_time;
}

unfoldable pub adapter_evaluate : Option (List RiskRule) → RiskContext → RiskCheckResult
adapter_evaluate none context = allow_result context
adapter_evaluate (some rules) context = evaluate context rules
