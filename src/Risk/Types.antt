-- ===== src/Risk/Types.antt =====
-- What the rules are given and what they answer: `RiskContext`, `RiskRuleResult` and `RiskRule` of
-- src/hqmts/risk/engine.py, `RiskCheckResult` of src/hqmts/domain/risk.py. The message texts are
-- left out, since no code reads them.
use hqmts.Prelude.{String, Bool, Option, List}
use hqmts.Prelude.Int.{ℤ, pos, ◌*ℤ◌, leb_ℤ}
use hqmts.Prelude.Decimal.{Decimal, Datetime, unit}

pub data RiskResultType : Type 0 where
  allow reject resize delay force_flatten : RiskResultType

pub data RiskLayer : Type 0 where
  market account strategy instrument order : RiskLayer

pub record RiskContext : Type 0 where
  pub signal_id : Option String
  pub order_request_id : Option String
  pub strategy_instance_id : Option String
  pub account_id : Option String
  pub instrument_id : Option String
  pub side : Option String
  pub quantity : ℤ
  pub price : Decimal
  pub account_total_asset : Decimal
  pub account_available_cash : Decimal
  pub account_market_value : Decimal
  pub account_pnl_intraday : Decimal
  pub account_drawdown_intraday : Decimal
  pub strategy_status : String
  pub strategy_position_ratio : Decimal
  pub strategy_daily_loss : Decimal
  pub strategy_consecutive_losses : ℤ
  pub instrument_is_st : Bool
  pub instrument_avg_daily_amount : Decimal
  pub instrument_position_ratio : Decimal
  pub instrument_daily_pnl : Decimal
  pub existing_order_count_last_min : ℤ
  pub is_flatten : Bool
  pub check_time : Datetime
  pub index_drop_pct : Decimal
  pub market_volatility : Decimal
  pub recent_same_side_orders : ℤ
  pub strategy_last_trade_time : Option Datetime

pub record RiskRuleResult : Type 0 where
  pub result_type : RiskResultType
  pub rule_name : String
  pub resized_quantity : Option ℤ

-- A subclass is the value of its two properties and its `check`.
pub record RiskRule : Type 0 where
  pub layer : RiskLayer
  pub name : String
  pub check : RiskContext → Option RiskRuleResult

-- `risk_check_id` is a fresh uuid, which the model leaves out.
pub record RiskCheckResult : Type 0 where
  pub signal_id : Option String
  pub order_request_id : Option String
  pub result_type : RiskResultType
  pub resized_quantity : Option ℤ
  pub triggered_rules : List String
  pub check_time : Datetime

-- `num / den >= limit` for den > 0, with the exact quotient.
abbrev pub ratio_at_least : Decimal → Decimal → Decimal → Bool
ratio_at_least num den limit = leb_ℤ (limit *ℤ den) (num *ℤ pos unit)
