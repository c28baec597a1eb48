-- ===== src/Execution/Paper/Sessions.antt =====
-- A session of the paper account: any sequence of its calls.
use hqmts.Prelude.{
  String, inl, inr, refl, Option, none, some, List, [], ◌∷◌, map, arith, All, Bool-cases,
  Option-cases,
}
use hqmts.Prelude.Int.{ℤ, pos, ◌-ℤ◌, ◌≤ℤ◌, ltb_ℤ, leb_ℤ}
use hqmts.Prelude.Decimal.{Decimal, Datetime}
use hqmts.Backtest.Types.{Side, buy, sell}
use hqmts.Risk.Types.{RiskContext}
use hqmts.Reservation.Store.{Store}
use hqmts.Reservation.Manager
use hqmts.Reservation.Manager.{Result, CashReservation, reserve}
use hqmts.Execution.Types.{Signal}
use hqmts.Execution.Converter.{determine_side}
use hqmts.Execution.Paper.{PaperOrder, PaperPosition, PaperTradingState, PaperConfig, rejected}
use hqmts.Execution.Paper.Submit.{
  PaperIds, submit_signal, submit_side, judged, place_signal, after_reserve, reserves_cash,
  order_quantity_of,
}
use hqmts.Execution.Paper.Fill.{
  fill_order, fill_side, is_pending, buy_cost, settled_buy, update_position_buy, write_order,
  end_of_day_reset, all_available, stop,
}
use hqmts.Execution.Paper.Account.{
  AllSellable, IfSome, buy-AllSellable, sell-AllSellable, Same, settled-Same,
  release_reservation-Same,
}

pub data PaperCall : Type 0 where
  submit_call : PaperIds → Signal → Decimal → Option RiskContext → PaperCall
  fill_call : Datetime → PaperOrder → Decimal → PaperCall
  reset_call stop_call : PaperCall

-- The state after a call, also where an exception has left it.
abbrev pub perform : PaperConfig → PaperCall → PaperTradingState → PaperTradingState
perform c (submit_call w signal price context) s = (submit_signal c w signal price context s).1
perform c (fill_call now o price) s = (fill_order c now o price s).1
perform c reset_call s = end_of_day_reset s
perform c stop_call s = stop s

abbrev pub perform_calls : PaperConfig → List PaperCall → PaperTradingState → PaperTradingState
perform_calls c [] s = s
perform_calls c (call ∷ calls) s = perform_calls c calls (perform c call s)

-- No order that is filled asks for a negative quantity.
abbrev pub Sensible : PaperCall → Type 0
Sensible (fill_call now o price) = pos 0 ≤ℤ o.quantity
Sensible _ = Unit

-- Submitting a signal touches neither cash nor positions.
module _ (c : PaperConfig) (w : PaperIds) (signal : Signal) (price : Decimal) where
  after_reserve-Same :
      (side : Side) (quantity : ℤ) (s : PaperTradingState) (r : Result CashReservation × Store)
      → Same s (after_reserve w signal side price quantity s r).1
  after_reserve-Same side quantity s (Manager.err e, table) = (refl, refl)
  after_reserve-Same side quantity s (Manager.ok d, table) = (refl, refl)

  place_signal-Same :
      (side : Side) (quantity : ℤ) (account : Option String) (s : PaperTradingState)
      → Same s (place_signal c w signal side price quantity account s).1
  place_signal-Same side quantity none s = (refl, refl)
  place_signal-Same side quantity (some account) s =
      elim (Bool-cases (reserves_cash c signal price)) [
        | inl e ↦ rw e (after_reserve-Same side quantity s _)
        | inr e ↦ rw e (refl, refl)
      ]

  judged-Same :
      (side : Side) (quantity : Option ℤ) (s : PaperTradingState)
      → Same s (judged c w signal side price quantity s).1
  judged-Same side none s = (refl, refl)
  judged-Same side (some quantity) s = place_signal-Same side quantity c.account_id s

  submit_side-Same :
      (side : Side) (context : Option RiskContext) (s : PaperTradingState)
      → Same s (submit_side c w signal side price context s).1
  submit_side-Same side context s =
      elim (Bool-cases (leb_ℤ (order_quantity_of c side signal price s) (pos 0))) [
        | inl e ↦ rw e (refl, refl)
        | inr e ↦ rw e (judged-Same side _ s)
      ]

  submit_signal-Same :
      (context : Option RiskContext) (s : PaperTradingState)
      → Same s (submit_signal c w signal price context s).1
  unfolding submit_signal
  submit_signal-Same context s = elim (Option-cases (determine_side signal.signal_type)) [
    | inl e ↦ rw (submit_signal, e) (refl, refl)
    | inr (side, e) ↦ rw (submit_signal, e) (submit_side-Same side context s)
  ]

settled_buy-AllSellable :
    (c : PaperConfig) (now : Datetime) (o : PaperOrder) (price : Decimal) (s : PaperTradingState)
    (positions : Option (List (String × PaperPosition)))
    → AllSellable s.positions
    → IfSome AllSellable positions
    → AllSellable (settled_buy c now o price s positions).1.positions
settled_buy-AllSellable c now o price s none h k = h
settled_buy-AllSellable c now o price s (some positions) h k =
    rw (settled-Same c now o price (record s { positions = positions })).1 k

fill_side-AllSellable :
    (c : PaperConfig) (now : Datetime) (o : PaperOrder) (price : Decimal) (s : PaperTradingState)
    (side : Option Side)
    → pos 0 ≤ℤ o.quantity
    → AllSellable s.positions
    → AllSellable (fill_side c now o price s side).1.positions
fill_side-AllSellable c now o price s (some buy) n h =
    elim (Bool-cases (ltb_ℤ s.cash (buy_cost c o price))) [
      | inl x ↦
          let o' : PaperOrder = record o { status = rejected } in
          rw
            (
              x,
              (release_reservation-Same c now o.order_id "Insufficient cash on fill"
                  (write_order o' s)).1,
            )
            h
      | inr x ↦ rw x (
          settled_buy-AllSellable c now o price (record s { cash = s.cash -ℤ buy_cost c o price })
            (update_position_buy o.instrument_id o.quantity price s.positions) h
            (buy-AllSellable o.instrument_id o.quantity price s.positions n h))
    ]
fill_side-AllSellable c now o price s (some sell) n h =
    rw (settled-Same c now o price _).1 (sell-AllSellable o.instrument_id o.quantity s.positions h)
fill_side-AllSellable c now o price s none n h =
    rw (settled-Same c now o price _).1 (sell-AllSellable o.instrument_id o.quantity s.positions h)

fill_order-AllSellable :
    (c : PaperConfig) (now : Datetime) (o : PaperOrder) (price : Decimal) (s : PaperTradingState)
    → pos 0 ≤ℤ o.quantity
    → AllSellable s.positions
    → AllSellable (fill_order c now o price s).1.positions
unfolding fill_order
fill_order-AllSellable c now o price s n h = elim (Bool-cases (is_pending o.status)) [
  | inl e ↦ rw (fill_order, e) (fill_side-AllSellable c now o price s o.side n h)
  | inr e ↦ rw (fill_order, e) h
]

reset-AllSellable :
    (d : List (String × PaperPosition)) → AllSellable d → AllSellable (map all_available d)
reset-AllSellable [] h = tt
reset-AllSellable ((j, p) ∷ d) h = ((omega (arith, h.0), omega arith), reset-AllSellable d h.1)

perform-AllSellable :
    (c : PaperConfig) (call : PaperCall) (s : PaperTradingState)
    → Sensible call
    → AllSellable s.positions
    → AllSellable (perform c call s).positions
unfolding end_of_day_reset stop
perform-AllSellable c (submit_call w signal price context) s n h =
    rw (submit_signal-Same c w signal price context s).1 h
perform-AllSellable c (fill_call now o price) s n h = fill_order-AllSellable c now o price s n h
perform-AllSellable c reset_call s n h = reset-AllSellable s.positions h
perform-AllSellable c stop_call s n h = h

-- Any sequence of submissions, fills of orders with no negative quantity, resets and stops keeps
-- 0 <= available_quantity <= quantity in every position, also where a fill ends in an exception.
pub perform_calls-AllSellable :
    (c : PaperConfig) (calls : List PaperCall) (s : PaperTradingState)
    → All Sensible calls
    → AllSellable s.positions
    → AllSellable (perform_calls c calls s).positions
perform_calls-AllSellable c [] s n h = h
perform_calls-AllSellable c (call ∷ calls) s n h =
    perform_calls-AllSellable c calls (perform c call s) n.1 (perform-AllSellable c call s n.0 h)
