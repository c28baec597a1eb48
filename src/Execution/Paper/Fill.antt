-- ===== src/Execution/Paper/Fill.antt =====
-- `fill_order`, its helpers, and the other methods of src/hqmts/execution/paper_trading.py.
use hqmts.Prelude.{
  Option, String, Bool, true, false, ◌&&◌, not, none, some, List, [], ◌∷◌, ◌++◌, map, if◌then◌else◌,
  suc,
}
use hqmts.Prelude.Int.{ℤ, pos, negsuc, ◌+ℤ◌, ◌-ℤ◌, ◌*ℤ◌, leb_ℤ, ltb_ℤ, max_ℤ, trunc_div}
use hqmts.Prelude.Decimal.{Decimal, Datetime, mul}
use text.Mathlib.Text.{◌==◌ as str_eq}
use hqmts.Backtest.Types.{Side, buy, sell}
use hqmts.Backtest.Portfolio.{lookup, insert}
use hqmts.Reservation.Manager.{release, consume}
use hqmts.Execution.Paper.{
  PaperOrderStatus, pending, filled, rejected, PaperOrder, PaperPosition, PaperTradingState,
  PaperConfig,
}

-- `d.pop(k, None)`, and `del d[k]`
abbrev pub remove {ℓ} : {V : Type ℓ} → String → List (String × V) → List (String × V)
remove k [] = []
remove k ((j, v) ∷ d) = let rest = remove k d in if str_eq j k then rest else (j, v) ∷ rest

-- A quotient by a divisor that is not 0, cut to eight places.
abbrev pub cut_div : Decimal → ℤ → Decimal
cut_div a (pos n) = trunc_div a n
cut_div a (negsuc n) = trunc_div (pos 0 -ℤ a) (suc n)

abbrev pub first_bought : String → ℤ → Decimal → PaperPosition
first_bought iid quantity price = record {
  instrument_id = iid;
  quantity = quantity;
  available_quantity = pos 0;
  cost_price = price;
  today_bought = quantity;
}

abbrev pub bought_more : ℤ → Decimal → PaperPosition → PaperPosition
bought_more quantity price p = record p {
  quantity = p.quantity +ℤ quantity;
  cost_price = cut_div (p.cost_price *ℤ p.quantity +ℤ price *ℤ quantity) (p.quantity +ℤ quantity);
  today_bought = p.today_bought +ℤ quantity;
}

-- `_update_position_buy`; `none` is the exception of a division by a total of 0.
unfoldable pub update_position_buy :
    String → ℤ → Decimal → List (String × PaperPosition) → Option (List (String × PaperPosition))
update_position_buy iid quantity price positions = elim (lookup iid positions) [
  | none ↦ some (insert iid (first_bought iid quantity price) positions)
  | some p ↦
      if leb_ℤ (p.quantity +ℤ quantity) (pos 0) && leb_ℤ (pos 0) (p.quantity +ℤ quantity)
      then none
      else some (insert iid (bought_more quantity price p) positions)
]

abbrev pub sold_position : ℤ → PaperPosition → PaperPosition
sold_position quantity p = record p {
  quantity = max_ℤ (pos 0) (p.quantity -ℤ quantity);
  available_quantity = max_ℤ (pos 0) (p.available_quantity -ℤ quantity);
}

-- `_update_position_sell`
unfoldable pub update_position_sell :
    String → ℤ → List (String × PaperPosition) → List (String × PaperPosition)
update_position_sell iid quantity positions = elim (lookup iid positions) [
  | none ↦ positions
  | some p ↦
      if leb_ℤ (sold_position quantity p).quantity (pos 0)
      then remove iid positions
      else insert iid (sold_position quantity p) positions
]

-- `_consume_reservation`; what the manager raises is logged and dropped.
unfoldable pub consume_reservation :
    PaperConfig → Datetime → String → Decimal → PaperTradingState → PaperTradingState
consume_reservation c now order_id amount s =
    let s' = record s { active_reservations = remove order_id s.active_reservations } in
    elim (lookup order_id s.active_reservations) [
      | none ↦ s'
      | some key ↦
          if c.has_manager && not (str_eq key "")
          then record s' { reservations = (consume now key amount s.reservations).1 }
          else s'
    ]

-- `_release_reservation`
unfoldable pub release_reservation :
    PaperConfig → Datetime → String → String → PaperTradingState → PaperTradingState
release_reservation c now order_id reason s =
    let s' = record s { active_reservations = remove order_id s.active_reservations } in
    elim (lookup order_id s.active_reservations) [
      | none ↦ s'
      | some key ↦
          if c.has_manager && not (str_eq key "")
          then record s' { reservations = (release now key reason s.reservations).1 }
          else s'
    ]

-- The order object in the list of orders.
abbrev pub write_order : PaperOrder → PaperTradingState → PaperTradingState
write_order o s = record s {
  orders = map (λ x. if str_eq x.order_id o.order_id then o else x) s.orders;
}

unfoldable pub paper_commission : PaperConfig → PaperOrder → Decimal → Decimal
paper_commission c o price =
    max_ℤ (mul (price *ℤ o.quantity) (pos c.commission_rate)) c.commission_min

abbrev pub paper_tax : PaperConfig → PaperOrder → Decimal → Decimal
paper_tax c o price = elim o.side [
  | some sell ↦ mul (price *ℤ o.quantity) c.stamp_tax_rate
  | _ ↦ pos 0
]

abbrev pub filled_order : PaperConfig → PaperOrder → Decimal → PaperOrder
filled_order c o price = record o {
  status = filled;
  fill_price = price;
  fill_quantity = o.quantity;
  commission = paper_commission c o price;
  stamp_tax = paper_tax c o price;
}

-- After the position was changed.
abbrev pub settled_order :
    PaperConfig
    → Datetime
    → PaperOrder
    → Decimal
    → PaperTradingState
    → Option PaperOrder × PaperTradingState
settled_order c now o price s =
    let o' = filled_order c o price in
    (some o', consume_reservation c now o.order_id (price *ℤ o.quantity) (write_order o' s))

abbrev pub buy_cost : PaperConfig → PaperOrder → Decimal → Decimal
buy_cost c o price = price *ℤ o.quantity +ℤ paper_commission c o price +ℤ paper_tax c o price

-- After the cash was paid.
abbrev pub settled_buy :
    PaperConfig
    → Datetime
    → PaperOrder
    → Decimal
    → PaperTradingState
    → Option (List (String × PaperPosition))
    → Option PaperOrder × PaperTradingState
settled_buy c now o price s none = (none, s)
settled_buy c now o price s (some positions) =
    settled_order c now o price (record s { positions = positions })

abbrev pub fill_buy :
    PaperConfig
    → Datetime
    → PaperOrder
    → Decimal
    → PaperTradingState
    → Option PaperOrder × PaperTradingState
fill_buy c now o price s =
    if ltb_ℤ s.cash (buy_cost c o price)
    then (
      some (record o { status = rejected }),
      release_reservation c now o.order_id "Insufficient cash on fill"
          (write_order (record o { status = rejected }) s),
    )
    else settled_buy c now o price (record s { cash = s.cash -ℤ buy_cost c o price })
        (update_position_buy o.instrument_id o.quantity price s.positions)

abbrev pub fill_sell :
    PaperConfig
    → Datetime
    → PaperOrder
    → Decimal
    → PaperTradingState
    → Option PaperOrder × PaperTradingState
fill_sell c now o price s = settled_order c now o price (record s {
  cash = s.cash +ℤ (price *ℤ o.quantity -ℤ paper_commission c o price -ℤ paper_tax c o price);
  positions = update_position_sell o.instrument_id o.quantity s.positions;
})

abbrev pub is_pending : PaperOrderStatus → Bool
is_pending pending = true
is_pending _ = false

-- A side that is not "buy" is sold.
abbrev pub fill_side :
    PaperConfig
    → Datetime
    → PaperOrder
    → Decimal
    → PaperTradingState
    → Option Side
    → Option PaperOrder × PaperTradingState
fill_side c now o price s (some buy) = fill_buy c now o price s
fill_side c now o price s (some sell) = fill_sell c now o price s
fill_side c now o price s none = fill_sell c now o price s

-- The order that comes back, `none` where an exception leaves the method, and the state.
unfoldable pub fill_order :
    PaperConfig
    → Datetime
    → PaperOrder
    → Decimal
    → PaperTradingState
    → Option PaperOrder × PaperTradingState
unfolding paper_commission update_position_buy update_position_sell consume_reservation
    release_reservation
fill_order c now o price s =
    if is_pending o.status then fill_side c now o price s o.side else (some o, s)

abbrev pub cost_value : List (String × PaperPosition) → Decimal
cost_value [] = pos 0
cost_value ((iid, p) ∷ positions) = p.cost_price *ℤ p.quantity +ℤ cost_value positions

abbrev pub all_available : String × PaperPosition → String × PaperPosition
all_available (iid, p) = (iid, record p { available_quantity = p.quantity; today_bought = pos 0 })

unfoldable pub end_of_day_reset : PaperTradingState → PaperTradingState
end_of_day_reset s =
    let positions = map all_available s.positions in
    record s {
      positions = positions;
      daily_snapshots =
          s.daily_snapshots
          ++ record {
            cash = s.cash;
            total_asset = s.cash +ℤ cost_value positions;
            positions = positions;
          }
            ∷ [];
    }

abbrev priced_value : List (String × Decimal) → List (String × PaperPosition) → Decimal
priced_value prices [] = pos 0
priced_value prices ((iid, p) ∷ positions) =
    (elim (lookup iid prices) [
      | none ↦ p.cost_price *ℤ p.quantity
      | some price ↦ price *ℤ p.quantity
    ])
    +ℤ priced_value prices positions

-- Without a dict of prices, the empty one.
unfoldable pub get_total_asset : List (String × Decimal) → PaperTradingState → Decimal
get_total_asset prices s = s.cash +ℤ priced_value prices s.positions

unfoldable pub stop : PaperTradingState → PaperTradingState
stop s = record s { is_active = false }
