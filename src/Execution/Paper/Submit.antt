-- ===== src/Execution/Paper/Submit.antt =====
-- `submit_signal` of src/hqmts/execution/paper_trading.py.
use hqmts.Prelude.{
  ◌+◌, ◌*◌, String, Bool, ◌&&◌, Option, none, some, List, [], ◌∷◌, ◌++◌, if◌then◌else◌,
}
use hqmts.Prelude.Int.{ℤ, pos, ◌*ℤ◌, leb_ℤ, ltb_ℤ, min_ℤ, trunc_div, pos_part}
use hqmts.Prelude.Decimal.{Decimal, Datetime, unit}
use hqmts.Backtest.Types.{Side, buy, sell}
use hqmts.Backtest.Portfolio.{lookup, insert}
use hqmts.Risk.Types.{
  RiskResultType, RiskContext, RiskRule, allow, reject, resize, delay, force_flatten,
}
use hqmts.Risk.Engine.{evaluate}
use hqmts.Reservation.Store.{Store}
use hqmts.Reservation.Manager.{Result, ok, err, CashReservation, Request, reserve}
use hqmts.Execution.Types.{Signal}
use hqmts.Execution.Converter.{determine_side}
use hqmts.Execution.Service.{is_opening}
use hqmts.Execution.Paper.{
  PaperOrderStatus, pending, rejected, PaperOrder, PaperPosition, PaperTradingState, PaperConfig,
}

abbrev pub new_order : String → Signal → Option Side → Decimal → ℤ → PaperOrderStatus → PaperOrder
new_order new_id signal side price quantity status = record {
  order_id = new_id;
  signal_id = signal.signal_id;
  instrument_id = signal.instrument_id;
  side = side;
  price = price;
  quantity = quantity;
  status = status;
  fill_price = pos 0;
  fill_quantity = pos 0;
  commission = pos 0;
  stamp_tax = pos 0;
}

-- `int(cash / (1 + rate) / (price * lot_size)) * lot_size`, for a price above 0
unfoldable pub affordable_quantity : PaperConfig → Decimal → Decimal → ℤ
affordable_quantity c cash price =
    if ltb_ℤ (pos 0) price
    then trunc_div (cash *ℤ pos unit) ((unit + c.commission_rate) * (pos_part price * c.lot_size))
      *ℤ pos c.lot_size
    else pos 0

abbrev pub available_of : Option PaperPosition → ℤ
available_of none = pos 0
available_of (some p) = p.available_quantity

unfoldable pub order_quantity_of : PaperConfig → Side → Signal → Decimal → PaperTradingState → ℤ
unfolding affordable_quantity
order_quantity_of c buy signal price s = affordable_quantity c s.cash price
order_quantity_of c sell signal price s = available_of (lookup signal.instrument_id s.positions)

-- The quantity after a verdict of the risk engine; `none` is a rejected order.
abbrev pub after_verdict : RiskResultType → Option ℤ → ℤ → Option ℤ
after_verdict reject r quantity = none
after_verdict delay r quantity = none
after_verdict resize (some r) quantity = some (min_ℤ quantity r)
after_verdict resize none quantity = some quantity
after_verdict allow r quantity = some quantity
after_verdict force_flatten r quantity = some quantity

-- The check is made where both an engine and a context are given.
abbrev pub risk_checked : Option (List RiskRule) → Option RiskContext → ℤ → Option ℤ
risk_checked (some rules) (some context) quantity =
    let r = evaluate context rules in after_verdict r.result_type r.resized_quantity quantity
risk_checked (some rules) none quantity = some quantity
risk_checked none context quantity = some quantity

-- The clock and the fresh ids of one call.
pub record PaperIds : Type 0 where
  pub order_id : String
  pub reservation_id : String
  pub reservation_clock : Datetime

abbrev pub paper_request : PaperConfig → String → Signal → Decimal → ℤ → Decimal → Request
paper_request c account signal price quantity cash = record {
  account_id = account;
  strategy_instance_id = signal.strategy_instance_id;
  amount = price *ℤ quantity;
  signal_id = some signal.signal_id;
  execution_intent_id = none;
  available_cash = some cash;
  ttl_seconds = c.ttl_seconds;
}

abbrev pub placed : PaperIds → PaperOrder → PaperTradingState → PaperOrder × PaperTradingState
placed w o s = (o, record s { orders = s.orders ++ o ∷ [] })

abbrev pub refused :
    PaperIds → Signal → Option Side → Decimal → PaperTradingState → PaperOrder × PaperTradingState
refused w signal side price s = (new_order w.order_id signal side price (pos 0) rejected, s)

abbrev pub after_reserve :
    PaperIds
    → Signal
    → Side
    → Decimal
    → ℤ
    → PaperTradingState
    → Result CashReservation × Store
    → PaperOrder × PaperTradingState
after_reserve w signal side price quantity s (err e, table) =
    refused w signal (some side) price (record s { reservations = table })
after_reserve w signal side price quantity s (ok r, table) =
    let (o, s') = placed w (new_order w.order_id signal (some side) price quantity pending) s in
    (
      o,
      record s' {
        reservations = table;
        active_reservations = insert w.order_id r.reservation_id s.active_reservations;
      },
    )

abbrev pub reserves_cash : PaperConfig → Signal → Decimal → Bool
reserves_cash c signal price = c.has_manager && is_opening signal.signal_type && ltb_ℤ (pos 0) price

-- From the reservation on.
abbrev pub place_signal :
    PaperConfig
    → PaperIds
    → Signal
    → Side
    → Decimal
    → ℤ
    → Option String
    → PaperTradingState
    → PaperOrder × PaperTradingState
place_signal c w signal side price quantity none s =
    placed w (new_order w.order_id signal (some side) price quantity pending) s
place_signal c w signal side price quantity (some account) s =
    if reserves_cash c signal price
    then after_reserve w signal side price quantity s (
        reserve w.reservation_id w.reservation_clock
          (paper_request c account signal price quantity s.cash) s.reservations)
    else placed w (new_order w.order_id signal (some side) price quantity pending) s

abbrev pub judged :
    PaperConfig
    → PaperIds
    → Signal
    → Side
    → Decimal
    → Option ℤ
    → PaperTradingState
    → PaperOrder × PaperTradingState
judged c w signal side price none s = refused w signal (some side) price s
judged c w signal side price (some quantity) s =
    place_signal c w signal side price quantity c.account_id s

abbrev pub submit_side :
    PaperConfig
    → PaperIds
    → Signal
    → Side
    → Decimal
    → Option RiskContext
    → PaperTradingState
    → PaperOrder × PaperTradingState
submit_side c w signal side price context s =
    let quantity : ℤ = order_quantity_of c side signal price s in
    if leb_ℤ quantity (pos 0)
    then refused w signal (some side) price s
    else judged c w signal side price (risk_checked c.risk_engine context quantity) s

unfoldable pub submit_signal :
    PaperConfig
    → PaperIds
    → Signal
    → Decimal
    → Option RiskContext
    → PaperTradingState
    → PaperOrder × PaperTradingState
unfolding order_quantity_of
submit_signal c w signal price context s = elim (determine_side signal.signal_type) [
  | none ↦ refused w signal none price s
  | some side ↦ submit_side c w signal side price context s
]
