-- ===== src/Backtest/Examples.antt =====
-- The theorems on the matcher and the portfolio at a concrete bar and position.
use hqmts.Prelude.{◌≡◌, refl, false, true, none, [], ◌∷◌, arith}
use hqmts.Prelude.Int.{ℤ, pos, ◌+ℤ◌, ◌-ℤ◌, ◌*ℤ◌, ◌≤ℤ◌}
use hqmts.Prelude.Decimal.{mul}
use hqmts.Backtest.Types.{Side, buy, sell, close_long, market, BacktestOrder}
use hqmts.Backtest.Cost.{calculate_commission, calculate_stamp_tax, is_within_limit}
use hqmts.Backtest.Matcher.{
  BacktestMatcher, Market, Fill, filled, fill_price_of, raw_quantity, order_quantity, round_to_lot,
  signal_to_side, match_order, match_order_from_bt,
}
use hqmts.Backtest.Matcher.Bounds.{fill_paid, fill_owned}
use hqmts.Backtest.Matcher.Agreement.{match_order_from_bt-iff-match_order}
use hqmts.Backtest.Matcher.Greatest.{Greatest}
use hqmts.Prelude.{◌↔◌}
use hqmts.Backtest.Portfolio.{
  Position, PortfolioState, get_or_create_position, empty_position, apply_fill,
}
use hqmts.Backtest.Portfolio.Conservation.{worth, apply_fill-worth}
use hqmts.Backtest.Portfolio.Holdings.{AllHeld, apply_fill-AllHeld}

-- Lots of 100, no costs but a commission of at least 5, a quarter of a bar's volume.
abbrev matcher : BacktestMatcher
matcher = record {
  cost_model = record {
    commission_rate = pos 30_000;
    commission_min = pos 500_000_000;
    stamp_tax_rate = pos 100_000;
    slippage = pos 1_000_000;
  };
  price_limit = record {
    normal_limit = pos 10_000_000;
    st_limit = pos 5_000_000;
    registration_limit = pos 20_000_000;
  };
  lot_size = 100;
  participation_rate = 25_000_000;
}

abbrev order : Side → ℤ → BacktestOrder
order side quantity = record {
  instrument_id = "600000.SH";
  side = side;
  quantity = quantity;
  order_type = market;
  limit_price = none;
  stop_loss = none;
  take_profit = none;
  signal_id = "s";
  reason_code = "";
}

-- A bar that opens at 10 after a close of 10, with 1,000 shares of volume.
abbrev bar_market : ℤ → ℤ → Market
bar_market held bought_today = record {
  target_bar = record {
    instrument_id = "600000.SH";
    bar_start_time = 0;
    open_price = 1_000_000_000;
    high_price = 1_000_000_000;
    low_price = 1_000_000_000;
    close_price = 1_000_000_000;
    volume = 1_000;
    is_completed = true;
  };
  prev_close = pos 1_000_000_000;
  instrument = record { instrument_id = "600000.SH"; is_st = false; board_type = "main" };
  current_position = held;
  today_bought = bought_today;
  available_cash = pos 1_000_000_000_000;
}

abbrev purchase : Fill
purchase = record {
  fill_price = pos 1_001_000_000;
  fill_quantity = pos 100;
  commission = pos 500_000_000;
  stamp_tax = pos 0;
}

abbrev sale : Fill
sale = record {
  fill_price = pos 999_000_000;
  fill_quantity = pos 200;
  commission = pos 500_000_000;
  stamp_tax = pos 199_800_000;
}

bought_one :
    match_order_from_bt matcher (order buy (pos 150)) (bar_market (pos 0) (pos 0)) ≡ filled purchase
unfolding match_order_from_bt is_within_limit ◌*ℤ◌ ◌-ℤ◌ fill_price_of ◌+ℤ◌ round_to_lot
    order_quantity raw_quantity calculate_commission calculate_stamp_tax mul
bought_one = refl

sold_all :
    match_order_from_bt matcher (order sell (pos 0)) (bar_market (pos 300) (pos 50)) ≡ filled sale
unfolding match_order_from_bt is_within_limit ◌*ℤ◌ ◌-ℤ◌ fill_price_of ◌+ℤ◌ round_to_lot
    order_quantity raw_quantity calculate_commission calculate_stamp_tax mul
sold_all = refl

fill_paid_example : pos 1_001_000_000 *ℤ pos 100 ≤ℤ pos 1_000_000_000_000
fill_paid_example =
    fill_paid matcher (order buy (pos 150)) (bar_market (pos 0) (pos 0)) purchase (omega arith) refl
      bought_one

fill_owned_example : sale.fill_quantity ≤ℤ pos 300 -ℤ pos 50
fill_owned_example =
    fill_owned matcher (order sell (pos 0)) (bar_market (pos 300) (pos 50)) sale (omega arith) refl
      sold_all

match_order_from_bt-iff-match_order_example :
    (match_order_from_bt matcher (order sell (pos 0)) (bar_market (pos 300) (pos 50)) ≡ filled sale)
    ↔ (match_order matcher close_long (bar_market (pos 300) (pos 50)) ≡ filled sale)
unfolding signal_to_side
match_order_from_bt-iff-match_order_example =
    match_order_from_bt-iff-match_order matcher close_long (order sell (pos 0))
      (bar_market (pos 300) (pos 50)) sale (omega arith) refl
      (record { market_order = refl; all = refl })

abbrev held : Position
held = record (empty_position "600000.SH") { quantity = pos 300; today_bought = pos 50 }

abbrev portfolio : PortfolioState
portfolio = record {
  cash = pos 1_000_000_000_000;
  initial_cash = pos 1_000_000_000_000;
  positions = ("600000.SH", held) ∷ ("000001.SZ", empty_position "000001.SZ") ∷ [];
  trades = [];
  daily_values = [];
}

portfolio-AllHeld : AllHeld portfolio.positions
portfolio-AllHeld = ((omega arith, omega arith), ((omega arith, omega arith), tt))

apply_fill-worth_example :
    worth "600000.SH" (pos 999_000_000) (apply_fill "600000.SH" sell sale 0 "s" portfolio)
      +ℤ (sale.commission +ℤ sale.stamp_tax)
    ≡ worth "600000.SH" (pos 999_000_000) portfolio
apply_fill-worth_example = apply_fill-worth "600000.SH" sell sale 0 "s" portfolio

apply_fill-AllHeld_example : AllHeld (apply_fill "600000.SH" sell sale 0 "s" portfolio).positions
unfolding get_or_create_position
apply_fill-AllHeld_example =
    apply_fill-AllHeld matcher (order sell (pos 0)) (bar_market (pos 300) (pos 50)) sale 0 "s"
      portfolio (omega arith) sold_all (refl, refl) portfolio-AllHeld
