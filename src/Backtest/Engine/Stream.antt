-- ===== src/Backtest/Engine/Stream.antt =====
-- The body of the loop over the bars, the stream of bars, and `run`.
use hqmts.Prelude.{
  ℕ, String, Bool, ◌&&◌, ◌||◌, Option, none, some, List, [], ◌∷◌, ◌++◌, any, if◌then◌else◌, leb,
  ◌==◌, is_some,
}
use hqmts.Prelude.Int.{pos}
use hqmts.Backtest.Types.{BacktestOrder, Bar, Instrument}
use hqmts.Backtest.Portfolio.{
  PortfolioState, lookup, insert, get_or_create_position, snapshot_daily,
  update_stop_loss_take_profit, calculate_total_asset,
}
use hqmts.Backtest.Strategy.{StrategyContext}
use hqmts.Backtest.Engine.{BacktestConfig, with_position}
use hqmts.Backtest.Engine.Loop.{Queue, Run, process_buffer, change_day, check_triggers}

-- The position of the context is created if it was not there.
unfoldable pub build_context : String → Bar → PortfolioState → StrategyContext
unfolding calculate_total_asset
build_context iid bar s = record {
  instrument_id = iid;
  decision_time = bar.bar_start_time;
  current_position = (get_or_create_position iid s.positions).quantity;
  available_cash = s.cash;
  total_asset = calculate_total_asset s;
}

abbrev has_exit : BacktestOrder → Bool
has_exit o = is_some o.stop_loss || is_some o.take_profit

-- `for order in orders: ...`
unfoldable pub accept_orders : List BacktestOrder → Queue × PortfolioState → Queue × PortfolioState
accept_orders [] (queue, s) = (queue, s)
accept_orders (o ∷ orders) (queue, s) = accept_orders orders (
  queue ++ (o, 0) ∷ [],
  if has_exit o
      then update_stop_loss_take_profit o.instrument_id o.stop_loss o.take_profit s
      else s,
)

unfoldable pub feed_strategy :
    {S : Type 0} → BacktestConfig S → List (String × Instrument) → Bar → Run S → Run S
unfolding with_position build_context accept_orders
feed_strategy c inst_map bar run =
    let s = with_position bar.instrument_id run.portfolio in
    let ctx = build_context bar.instrument_id bar s in
    let (orders, strategy) =
      c.strategy.generate_orders ctx (c.strategy.on_bar bar ctx run.strategy) in
    let (queue, s') = accept_orders orders (run.orders_buffer, s) in
    if is_some (lookup bar.instrument_id inst_map)
    then record run { portfolio = s'; orders_buffer = queue; strategy = strategy }
    else run

-- The part of the body that the first bar of an instrument skips.
unfoldable pub trade_bar :
    {S : Type 0} → BacktestConfig S → List (String × Instrument) → Bar → Run S → Run S
unfolding feed_strategy process_buffer
trade_bar c inst_map bar run =
    let run' = feed_strategy c inst_map bar run in
    let (queue, s) =
      process_buffer c run'.prev_close bar inst_map run'.orders_buffer run'.portfolio in
    record run' { portfolio = s; orders_buffer = queue }

abbrev pub closed : {S : Type 0} → Bar → Run S → Run S
closed bar run = record run {
  prev_close = insert bar.instrument_id (pos bar.close_price) run.prev_close;
}

abbrev pub priced : {S : Type 0} → Bar → Run S → Run S
priced bar run = record run {
  latest_prices = insert bar.instrument_id (pos bar.close_price) run.latest_prices;
}

-- The body after the change of day.
unfoldable pub after_day :
    {S : Type 0} → BacktestConfig S → List (String × Instrument) → Bar → Run S → Run S
unfolding check_triggers trade_bar
after_day c inst_map bar run =
    let run' = check_triggers c inst_map bar (priced bar run) in
    closed bar (
      if is_some (lookup bar.instrument_id run'.prev_close)
      then trade_bar c inst_map bar run'
      else run')

unfoldable pub process_bar :
    {S : Type 0} → BacktestConfig S → List (String × Instrument) → Bar → Run S → Run S
unfolding change_day after_day
process_bar c inst_map bar run = after_day c inst_map bar (change_day bar run)

unfoldable pub process_bars :
    {S : Type 0} → BacktestConfig S → List (String × Instrument) → List Bar → Run S → Run S
unfolding process_bar
process_bars c inst_map [] run = run
process_bars c inst_map (bar ∷ bars) run =
    process_bars c inst_map bars (process_bar c inst_map bar run)

-- `all_bars.sort(key=...)`, which is stable.
unfoldable pub insert_bar : Bar → List Bar → List Bar
insert_bar b [] = b ∷ []
insert_bar b (c ∷ bars) =
    let rest = insert_bar b bars in
    if leb b.bar_start_time c.bar_start_time then b ∷ c ∷ bars else c ∷ rest

unfoldable pub sort_bars : List Bar → List Bar
unfolding insert_bar
sort_bars [] = []
sort_bars (b ∷ bars) = insert_bar b (sort_bars bars)

abbrev pub merge : List (String × List Bar) → List Bar
merge [] = []
merge ((iid, bars) ∷ rest) = bars ++ merge rest

abbrev pub inst_map_of : List Instrument → List (String × Instrument) → List (String × Instrument)
inst_map_of [] d = d
inst_map_of (i ∷ instruments) d = inst_map_of instruments (insert i.instrument_id i d)

abbrev pub zero_price : Bar → Bool
zero_price b = b.open_price == 0 || b.high_price == 0 || b.low_price == 0 || b.close_price == 0

abbrev pub start : {S : Type 0} → BacktestConfig S → Run S
start c = record {
  portfolio = record {
    cash = c.initial_cash;
    initial_cash = c.initial_cash;
    positions = [];
    trades = [];
    daily_values = [];
  };
  prev_close = [];
  latest_prices = [];
  prev_trade_date = none;
  orders_buffer = [];
  strategy = c.strategy.initial;
}

abbrev pub final_snapshot : Option ℕ → PortfolioState → PortfolioState
final_snapshot none s = s
final_snapshot (some d) s = snapshot_daily d s

-- The run over the stream.
abbrev pub backtest : {S : Type 0} → BacktestConfig S → List Bar → PortfolioState
backtest c bars =
    let end = process_bars c (inst_map_of c.instruments []) bars (start c) in
    final_snapshot end.prev_trade_date end.portfolio

abbrev pub run_stream : {S : Type 0} → BacktestConfig S → List Bar → Option PortfolioState
run_stream c [] = none
run_stream c (bar ∷ bars) =
    if c.reject_on_bad_data && any zero_price (bar ∷ bars)
    then none
    else some (backtest c (bar ∷ bars))

unfoldable pub run :
    {S : Type 0} → BacktestConfig S → List (String × List Bar) → Option PortfolioState
unfolding process_bars sort_bars snapshot_daily
run c bars_by_instrument = run_stream c (sort_bars (merge bars_by_instrument))
