-- ===== src/Risk/Rules/Instrument.antt =====
-- src/hqmts/risk/rules/instrument.py. A blacklist is the list of its members;
-- `update_blacklist` puts `blacklist new` in the place of the rule.
use hqmts.Prelude.{Bool, false, ◌&&◌, not, Option, none, some, List, if◌then◌else◌, any, String}
use hqmts.Prelude.Int.{pos, leb_ℤ, ltb_ℤ}
use hqmts.Prelude.Decimal.{Decimal}
use text.Mathlib.Text.{◌==◌ as str_eq}
use hqmts.Risk.Types.{RiskResultType, RiskLayer, RiskRule}

unfoldable pub single_instrument_max_exposure : Decimal → RiskRule
single_instrument_max_exposure max_ratio = record {
  layer = RiskLayer.instrument;
  name = "single_instrument_max_exposure";
  check = λ context.
      if leb_ℤ max_ratio context.instrument_position_ratio
      then if not context.is_flatten
        then some (record {
          result_type = RiskResultType.resize;
          rule_name = "single_instrument_max_exposure";
          resized_quantity = some (pos 0);
        })
        else none
      else none;
}

unfoldable pub liquidity_filter : Decimal → RiskRule
liquidity_filter min_daily_amount = record {
  layer = RiskLayer.instrument;
  name = "liquidity_filter";
  check = λ context.
      if ltb_ℤ context.instrument_avg_daily_amount min_daily_amount
      then if not context.is_flatten
        then some (record {
          result_type = RiskResultType.reject;
          rule_name = "liquidity_filter";
          resized_quantity = none;
        })
        else none
      else none;
}

-- `instrument_id and instrument_id in blacklist`: the empty text is false.
abbrev pub listed : Option String → List String → Bool
listed none names = false
listed (some s) names = not (str_eq s "") && any (str_eq s) names

unfoldable pub blacklist : List String → RiskRule
blacklist names = record {
  layer = RiskLayer.instrument;
  name = "blacklist";
  check = λ context.
      if listed context.instrument_id names
      then some (record {
        result_type = RiskResultType.reject;
        rule_name = "blacklist";
        resized_quantity = none;
      })
      else none;
}

unfoldable pub st_filter : RiskRule
st_filter = record {
  layer = RiskLayer.instrument;
  name = "st_filter";
  check = λ context.
      if context.instrument_is_st && not context.is_flatten
      then some (record {
        result_type = RiskResultType.reject;
        rule_name = "st_filter";
        resized_quantity = none;
      })
      else none;
}
