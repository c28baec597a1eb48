-- ===== src/Backtest/RunExamples.antt =====
-- The theorems on a whole run at two bars and a strategy that always buys.
use hqmts.Prelude.{ℕ, ◌+◌, String, ◌≡◌, refl, true, false, none, some, List, [], ◌∷◌, arith}
use hqmts.Prelude.Int.{pos}
use hqmts.Prelude.Decimal.{Datetime}
use hqmts.Backtest.Types.{buy, market, BacktestOrder, Bar}
use hqmts.Backtest.Portfolio.{PortfolioState}
use hqmts.Backtest.Portfolio.Holdings.{AllHeld}
use hqmts.Backtest.Strategy.{StrategyTemplate}
use hqmts.Backtest.Engine.{BacktestConfig}
use hqmts.Backtest.Engine.Stream.{run, insert_bar, sort_bars, merge, backtest}
use hqmts.Backtest.Engine.Invariants.{last_time}
use hqmts.Backtest.Engine.Holdings.{run-AllHeld}
use hqmts.Backtest.Engine.Ledger.{Ledger, run-Ledger}
use hqmts.Backtest.Engine.Chronology.{Chronological, run-Chronological}
use hqmts.Backtest.Engine.LastDay.{single_day_unvalued, unvalued_snapshot}

abbrev purchase : String → BacktestOrder
purchase iid = record {
  instrument_id = iid;
  side = buy;
  quantity = pos 100;
  order_type = market;
  limit_price = none;
  stop_loss = none;
  take_profit = none;
  signal_id = "s";
  reason_code = "";
}

-- The state counts the bars.
abbrev buyer : StrategyTemplate ℕ
buyer = record {
  initial = 0;
  on_bar = λ bar ctx n. n + 1;
  generate_orders = λ ctx n. (purchase ctx.instrument_id ∷ [], n);
}

abbrev config : BacktestConfig ℕ
config = record {
  strategy = buyer;
  instruments = record { instrument_id = "600000.SH"; is_st = false; board_type = "main" } ∷ [];
  initial_cash = pos 1_000_000_000_000;
  cost_model = record {
    commission_rate = pos 30_000;
    commission_min = pos 500_000_000;
    stamp_tax_rate = pos 100_000;
    slippage = pos 0;
  };
  price_limit = record {
    normal_limit = pos 10_000_000;
    st_limit = pos 5_000_000;
    registration_limit = pos 20_000_000;
  };
  lot_size = 100;
  participation_rate = 25_000_000;
  reject_on_bad_data = true;
  risk_engine = none;
  enable_risk = false;
  risk_clock = 0;
}

abbrev bar_at : Datetime → Bar
bar_at t = record {
  instrument_id = "600000.SH";
  bar_start_time = t;
  open_price = 1_000_000_000;
  high_price = 1_000_000_000;
  low_price = 1_000_000_000;
  close_price = 1_000_000_000;
  volume = 1_000;
  is_completed = true;
}

abbrev bars : List (String × List Bar)
bars = ("600000.SH", bar_at 60_000_000 ∷ bar_at 0 ∷ []) ∷ []

abbrev final : PortfolioState
final = backtest config (sort_bars (merge bars))

completes : run config bars ≡ some final
unfolding run sort_bars insert_bar
completes = refl

run-AllHeld_example : AllHeld final.positions
run-AllHeld_example = run-AllHeld config bars final (omega arith) completes

run-Ledger_example : Ledger (pos 1_000_000_000_000) final
run-Ledger_example = run-Ledger config bars final completes

run-Chronological_example : Chronological (last_time 0 (sort_bars (merge bars))) final.trades
run-Chronological_example = run-Chronological config bars final completes

single_day_unvalued_example : final.daily_values ≡ unvalued_snapshot 0 final.cash ∷ []
single_day_unvalued_example = single_day_unvalued config 0 bars final (refl, (refl, tt)) completes
