-- ===== src/Risk/Rules/Strategy.antt =====
-- src/hqmts/risk/rules/strategy.py
use hqmts.Prelude.{Bool, false, ◌&&◌, not, Option, none, some, if◌then◌else◌}
use hqmts.Prelude.Int.{ℤ, pos, ◌*ℤ◌, leb_ℤ, ltb_ℤ, abs_ℤ, sub_ℕ}
use hqmts.Prelude.Decimal.{Decimal, Datetime}
use hqmts.Risk.Types.{RiskResultType, RiskLayer, RiskRule, ratio_at_least}

unfoldable pub strategy_position_limit : Decimal → RiskRule
strategy_position_limit max_ratio = record {
  layer = RiskLayer.strategy;
  name = "strategy_position_limit";
  check = λ context.
      if leb_ℤ max_ratio context.strategy_position_ratio
      then if not context.is_flatten
        then some (record {
          result_type = RiskResultType.reject;
          rule_name = "strategy_position_limit";
          resized_quantity = none;
        })
        else none
      else none;
}

unfoldable pub consecutive_loss_halt : ℤ → RiskRule
consecutive_loss_halt max_consecutive_losses = record {
  layer = RiskLayer.strategy;
  name = "consecutive_loss_halt";
  check = λ context.
      if leb_ℤ max_consecutive_losses context.strategy_consecutive_losses
      then if not context.is_flatten
        then some (record {
          result_type = RiskResultType.reject;
          rule_name = "consecutive_loss_halt";
          resized_quantity = none;
        })
        else none
      else none;
}

-- `(check_time - last).total_seconds() < cooldown_seconds`
abbrev pub cooling : Option Datetime → Datetime → ℤ → Bool
cooling none check_time cooldown_seconds = false
cooling (some last) check_time cooldown_seconds =
    ltb_ℤ (sub_ℕ check_time last) (cooldown_seconds *ℤ pos 1_000_000)

unfoldable pub cooldown_period : ℤ → RiskRule
cooldown_period cooldown_seconds = record {
  layer = RiskLayer.strategy;
  name = "cooldown_period";
  check = λ context.
      if cooling context.strategy_last_trade_time context.check_time cooldown_seconds
      then if not context.is_flatten
        then some (record {
          result_type = RiskResultType.delay;
          rule_name = "cooldown_period";
          resized_quantity = none;
        })
        else none
      else none;
}

unfoldable pub strategy_daily_loss_limit : Decimal → RiskRule
strategy_daily_loss_limit max_daily_loss = record {
  layer = RiskLayer.strategy;
  name = "strategy_daily_loss_limit";
  check = λ context.
      if leb_ℤ context.account_total_asset (pos 0)
      then none
      else if ltb_ℤ context.strategy_daily_loss (pos 0)
          && ratio_at_least (abs_ℤ context.strategy_daily_loss) context.account_total_asset
              max_daily_loss
      then if not context.is_flatten
        then some (record {
          result_type = RiskResultType.reject;
          rule_name = "strategy_daily_loss_limit";
          resized_quantity = none;
        })
        else none
      else none;
}
