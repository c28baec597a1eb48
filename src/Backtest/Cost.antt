-- ===== src/Backtest/Cost.antt =====
-- src/hqmts/backtest/cost.py
use hqmts.Prelude.{String, Bool, true, ◌&&◌, ◌||◌, if◌then◌else◌}
use hqmts.Prelude.Int.{ℤ, pos, ◌+ℤ◌, ◌-ℤ◌, ◌*ℤ◌, leb_ℤ, max_ℤ}
use hqmts.Prelude.Decimal.{Decimal, unit, mul}
use text.Mathlib.Text.{◌==◌ as str_eq}
use hqmts.Backtest.Types.{Side, buy, sell}

pub record CostModel : Type 0 where
  pub commission_rate : Decimal
  pub commission_min : Decimal
  pub stamp_tax_rate : Decimal
  pub slippage : Decimal

unfoldable pub calculate_commission : CostModel → Decimal → Decimal
calculate_commission m trade_amount = max_ℤ (mul trade_amount m.commission_rate) m.commission_min

unfoldable pub calculate_stamp_tax : CostModel → Decimal → Side → Decimal
calculate_stamp_tax m trade_amount sell = mul trade_amount m.stamp_tax_rate
calculate_stamp_tax m trade_amount buy = pos 0

unfoldable pub calculate_total_cost : CostModel → Decimal → Side → ℤ → Decimal
unfolding calculate_commission calculate_stamp_tax
calculate_total_cost m trade_amount side quantity =
    calculate_commission m trade_amount
    +ℤ calculate_stamp_tax m trade_amount side
    +ℤ m.slippage *ℤ quantity

pub record PriceLimitRule : Type 0 where
  pub normal_limit : Decimal
  pub st_limit : Decimal
  pub registration_limit : Decimal

abbrev registration_board : String → Bool
registration_board b = str_eq b "创业板" || str_eq b "科创板" || str_eq b "gem" || str_eq b "star"

unfoldable pub get_limit : PriceLimitRule → Bool → String → Decimal
get_limit r is_st board_type =
    if is_st
    then r.st_limit
    else if registration_board board_type
    then r.registration_limit
    else r.normal_limit

abbrev is_zero : Decimal → Bool
is_zero a = leb_ℤ a (pos 0) && leb_ℤ (pos 0) a

-- `prev_close * (1 - limit) <= price <= prev_close * (1 + limit)`, both sides times 10^8.
unfoldable pub is_within_limit : PriceLimitRule → Decimal → Decimal → Bool → String → Bool
unfolding get_limit
is_within_limit r price prev_close is_st board_type =
    let band : Decimal = get_limit r is_st board_type in
    if is_zero prev_close
    then true
    else leb_ℤ (prev_close *ℤ (pos unit -ℤ band)) (price *ℤ pos unit)
      && leb_ℤ (price *ℤ pos unit) (prev_close *ℤ (pos unit +ℤ band))
