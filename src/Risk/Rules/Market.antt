-- ===== src/Risk/Rules/Market.antt =====
-- src/hqmts/risk/rules/market.py
use hqmts.Prelude.{ℕ, ◌*◌, ◌+◌, ◌%◌, Bool, ◌&&◌, not, Option, none, some, if◌then◌else◌, leb}
use hqmts.Prelude.Int.{leb_ℤ}
use hqmts.Prelude.Decimal.{Decimal, Datetime}
use hqmts.Risk.Types.{RiskResultType, RiskLayer, RiskRuleResult, RiskRule}

unfoldable pub index_drop_halt : Decimal → RiskRule
index_drop_halt threshold = record {
  layer = RiskLayer.market;
  name = "index_drop_halt";
  check = λ context.
      if leb_ℤ context.index_drop_pct threshold
      then if not context.is_flatten
        then some (record {
          result_type = RiskResultType.reject;
          rule_name = "index_drop_halt";
          resized_quantity = none;
        })
        else none
      else none;
}

unfoldable pub extreme_volatility_halt : Decimal → RiskRule
extreme_volatility_halt threshold = record {
  layer = RiskLayer.market;
  name = "extreme_volatility_halt";
  check = λ context.
      if leb_ℤ threshold context.market_volatility
      then if not context.is_flatten
        then some (record {
          result_type = RiskResultType.reject;
          rule_name = "extreme_volatility_halt";
          resized_quantity = none;
        })
        else none
      else none;
}

-- `time(h, m)`, in microseconds since midnight
abbrev pub time_of_day : ℕ → ℕ → ℕ
time_of_day h m = (h * 60 + m) * 60_000_000

abbrev pub market_time : Datetime → ℕ
market_time t = t % 86_400_000_000

abbrev pub within : ℕ → ℕ → ℕ → Bool
within a t b = leb a t && leb t b

unfoldable pub special_time_restriction : RiskRule
special_time_restriction = record {
  layer = RiskLayer.market;
  name = "special_time_restriction";
  check = λ context.
      let now : ℕ = market_time context.check_time in
      let delayed : Option RiskRuleResult = some (record {
        result_type = RiskResultType.delay;
        rule_name = "special_time_restriction";
        resized_quantity = none;
      }) in
      let near_close : Option RiskRuleResult =
        if within (time_of_day 14 55) now (time_of_day 15 0)
        then if not context.is_flatten then delayed else none
        else none in
      if within (time_of_day 9 30) now (time_of_day 9 32)
      then if not context.is_flatten then delayed else near_close
      else near_close;
}
