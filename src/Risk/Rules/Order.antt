-- ===== src/Risk/Rules/Order.antt =====
-- src/hqmts/risk/rules/order.py. The lot size is positive.
use hqmts.Prelude.{ℕ, Bool, ◌&&◌, not, Option, none, some, if◌then◌else◌, ◌==◌}
use hqmts.Prelude.Int.{ℤ, pos, ◌*ℤ◌, leb_ℤ, floor_div, floor_mod}
use hqmts.Risk.Types.{RiskResultType, RiskLayer, RiskRuleResult, RiskRule}

unfoldable pub invalid_price_check : RiskRule
invalid_price_check = record {
  layer = RiskLayer.order;
  name = "invalid_price_check";
  check = λ context.
      if leb_ℤ context.price (pos 0)
      then some (record {
        result_type = RiskResultType.reject;
        rule_name = "invalid_price_check";
        resized_quantity = none;
      })
      else none;
}

abbrev pub is_zero : ℤ → Bool
is_zero a = leb_ℤ a (pos 0) && leb_ℤ (pos 0) a

-- `(quantity // lot_size) * lot_size`
abbrev pub whole_lots : ℕ → ℤ → ℤ
whole_lots lot_size quantity = floor_div quantity lot_size *ℤ pos lot_size

-- The body of `MinLotSizeCheckRule.check`, which reads only the quantity.
unfoldable pub lot_answer : ℕ → ℤ → Option RiskRuleResult
lot_answer lot_size quantity =
    let refused : Option RiskRuleResult = some (record {
      result_type = RiskResultType.reject;
      rule_name = "min_lot_size_check";
      resized_quantity = none;
    }) in
    let resized : ℤ = whole_lots lot_size quantity in
    if leb_ℤ quantity (pos 0)
    then refused
    else if not (floor_mod quantity lot_size == 0)
    then if is_zero resized
      then refused
      else some (record {
        result_type = RiskResultType.resize;
        rule_name = "min_lot_size_check";
        resized_quantity = some resized;
      })
    else none

unfoldable pub min_lot_size_check : ℕ → RiskRule
unfolding lot_answer
min_lot_size_check lot_size = record {
  layer = RiskLayer.order;
  name = "min_lot_size_check";
  check = λ context. lot_answer lot_size context.quantity;
}

unfoldable pub duplicate_order_check : ℤ → RiskRule
duplicate_order_check max_same_side_orders = record {
  layer = RiskLayer.order;
  name = "duplicate_order_check";
  check = λ context.
      if leb_ℤ max_same_side_orders context.recent_same_side_orders
      then some (record {
        result_type = RiskResultType.reject;
        rule_name = "duplicate_order_check";
        resized_quantity = none;
      })
      else none;
}

unfoldable pub frequent_cancel_limit : ℤ → RiskRule
frequent_cancel_limit max_orders_per_min = record {
  layer = RiskLayer.order;
  name = "frequent_cancel_limit";
  check = λ context.
      if leb_ℤ max_orders_per_min context.existing_order_count_last_min
      then some (record {
        result_type = RiskResultType.delay;
        rule_name = "frequent_cancel_limit";
        resized_quantity = none;
      })
      else none;
}
