-- ===== src/Execution/PaperExamples.antt =====
-- The theorems on the paper account at a small session.
use hqmts.Prelude.{◌≡◌, refl, true, false, Option, none, some, List, [], ◌∷◌, arith}
use hqmts.Prelude.Int.{pos, ◌+ℤ◌, ◌-ℤ◌, ◌*ℤ◌}
use hqmts.Prelude.Decimal.{mul}
use hqmts.Backtest.Types.{Side, buy, sell}
use hqmts.Execution.Types.{Signal}
use hqmts.Backtest.Types.{open_long}
use hqmts.Execution.Paper.{PaperOrder, PaperTradingState, PaperConfig, pending, filled}
use hqmts.Execution.Paper.Fill.{
  fill_order, paper_commission, update_position_buy, consume_reservation,
}
use hqmts.Execution.Paper.Account.{AllSellable}
use hqmts.Execution.Paper.Trades.{held_of, Bought, fill_order-Bought, fill_order_pays_unheld}
use hqmts.Execution.Paper.Sessions.{
  PaperCall, submit_call, fill_call, reset_call, perform_calls, perform_calls-AllSellable,
}

abbrev config : PaperConfig
config = record {
  commission_rate = 30_000;
  commission_min = pos 5;
  stamp_tax_rate = pos 100_000;
  lot_size = 100;
  risk_engine = none;
  has_manager = false;
  account_id = none;
  ttl_seconds = 60;
}

abbrev session : PaperTradingState
session = record {
  initial_cash = pos 100_000;
  cash = pos 100_000;
  positions = [];
  orders = [];
  daily_snapshots = [];
  is_active = true;
  active_reservations = [];
  reservations = [];
}

abbrev signal : Signal
signal = record {
  signal_id = "s";
  strategy_instance_id = "S";
  instrument_id = "600000.SH";
  signal_type = open_long;
  valid_until = 50;
  decision_snapshot_id = none;
}

abbrev order : Side → PaperOrder
order side = record {
  order_id = "o";
  signal_id = "s";
  instrument_id = "600000.SH";
  side = some side;
  price = pos 10;
  quantity = pos 100;
  status = pending;
  fill_price = pos 0;
  fill_quantity = pos 0;
  commission = pos 0;
  stamp_tax = pos 0;
}

abbrev calls : List PaperCall
calls =
    submit_call (record { order_id = "o"; reservation_id = "R"; reservation_clock = 10 }) signal
      (pos 10) none
    ∷ fill_call 20 (order buy) (pos 10)
    ∷ reset_call
    ∷ fill_call 30 (order sell) (pos 10)
    ∷ []

perform_calls-AllSellable_example : AllSellable (perform_calls config calls session).positions
perform_calls-AllSellable_example =
    perform_calls-AllSellable config calls session (tt, (omega arith, (tt, (omega arith, tt)))) tt

fill_order-Bought_example :
    Bought (order buy) (pos 10) session (fill_order config 20 (order buy) (pos 10) session)
fill_order-Bought_example =
    fill_order-Bought config 20 (order buy) (pos 10) session refl refl (omega arith) tt

-- The account holds 40 shares, and an order for 100 is paid.
abbrev small_holding : PaperTradingState
small_holding = record session {
  positions =
      (
        "600000.SH",
        record {
          instrument_id = "600000.SH";
          quantity = pos 40;
          available_quantity = pos 40;
          cost_price = pos 9;
          today_bought = pos 0;
        },
      )
      ∷ [];
}

abbrev oversold : Option PaperOrder × PaperTradingState
oversold = fill_order config 20 (order sell) (pos 10) small_holding

fill_order_pays_unheld_example :
    (o' : PaperOrder) × (oversold.0 ≡ some o')
    × (o'.status ≡ filled)
    × (held_of "600000.SH" oversold.1.positions ≡ pos 0)
    × (oversold.1.cash +ℤ (o'.commission +ℤ o'.stamp_tax)
        ≡ pos 100_000 +ℤ pos 10 *ℤ pos 40 +ℤ pos 10 *ℤ (pos 100 -ℤ pos 40))
fill_order_pays_unheld_example =
    fill_order_pays_unheld config 20 (order sell) (pos 10) small_holding refl refl (omega arith)

-- A second buy of no shares raises, with the least commission paid.
abbrev empty_order : PaperOrder
empty_order = record (order buy) { quantity = pos 0 }

abbrev twice_nothing : Option PaperOrder × PaperTradingState
twice_nothing =
    fill_order config 30 empty_order (pos 10) (fill_order config 20 empty_order (pos 10) session).1

empty_order_raises : (twice_nothing.0 ≡ none) × (twice_nothing.1.cash ≡ pos 99_990)
unfolding fill_order paper_commission mul ◌*ℤ◌ ◌+ℤ◌ ◌-ℤ◌ update_position_buy consume_reservation
empty_order_raises = (refl, refl)
