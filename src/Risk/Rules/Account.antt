-- ===== src/Risk/Rules/Account.antt =====
-- src/hqmts/risk/rules/account.py
use hqmts.Prelude.{Bool, false, ◌&&◌, Option, none, some, if◌then◌else◌, String}
use hqmts.Prelude.Int.{pos, ◌-ℤ◌, ◌*ℤ◌, leb_ℤ, ltb_ℤ, abs_ℤ, max_ℤ}
use hqmts.Prelude.Decimal.{Decimal, int_quotient}
use text.Mathlib.Text.{◌==◌ as str_eq}
use hqmts.Risk.Types.{RiskResultType, RiskLayer, RiskRule, ratio_at_least}

unfoldable pub total_position_limit : Decimal → RiskRule
total_position_limit max_ratio = record {
  layer = RiskLayer.account;
  name = "total_position_limit";
  check = λ context.
      if leb_ℤ context.account_total_asset (pos 0)
      then none
      else if ratio_at_least context.account_market_value context.account_total_asset max_ratio
      then some (record {
        result_type = RiskResultType.reject;
        rule_name = "total_position_limit";
        resized_quantity = none;
      })
      else none;
}

unfoldable pub daily_loss_limit : Decimal → RiskRule
daily_loss_limit loss_limit = record {
  layer = RiskLayer.account;
  name = "daily_loss_limit";
  check = λ context.
      if leb_ℤ context.account_total_asset (pos 0)
      then none
      else if ltb_ℤ context.account_pnl_intraday (pos 0)
          && ratio_at_least (abs_ℤ context.account_pnl_intraday) context.account_total_asset
              loss_limit
      then some (record {
        result_type = RiskResultType.force_flatten;
        rule_name = "daily_loss_limit";
        resized_quantity = none;
      })
      else none;
}

unfoldable pub intraday_drawdown : Decimal → RiskRule
intraday_drawdown drawdown_limit = record {
  layer = RiskLayer.account;
  name = "intraday_drawdown";
  check = λ context.
      if leb_ℤ context.account_total_asset (pos 0)
      then none
      else if ltb_ℤ context.account_drawdown_intraday (pos 0)
          && ratio_at_least (abs_ℤ context.account_drawdown_intraday) context.account_total_asset
              drawdown_limit
      then some (record {
        result_type = RiskResultType.reject;
        rule_name = "intraday_drawdown";
        resized_quantity = none;
      })
      else none;
}

-- `context.side == text`
abbrev pub side_is : Option String → String → Bool
side_is none text = false
side_is (some s) text = str_eq s text

unfoldable pub min_available_cash : Decimal → RiskRule
min_available_cash min_cash = record {
  layer = RiskLayer.account;
  name = "min_available_cash";
  check = λ context.
      if side_is context.side "buy"
        && (ltb_ℤ (pos 0) context.price && ltb_ℤ (pos 0) context.quantity)
      then if ltb_ℤ (context.account_available_cash -ℤ context.price *ℤ context.quantity) min_cash
        then some (record {
          result_type = RiskResultType.resize;
          rule_name = "min_available_cash";
          resized_quantity = some (
              max_ℤ (pos 0)
                (int_quotient (context.account_available_cash -ℤ min_cash) context.price));
        })
        else none
      else none;
}
