-- ===== src/Backtest/Engine/Loop.antt =====
-- `_process_order`, `_build_context` and the loop of `run` over the bars.
use hqmts.Prelude.{
  ℕ, ◌+◌, ◌/◌, String, Bool, false, ◌&&◌, Option, none, some, List, [], ◌∷◌, ◌++◌, if◌then◌else◌,
  ltb, ◌==◌,
}
use hqmts.Prelude.Int.{ℤ}
use hqmts.Prelude.Decimal.{Datetime}
use text.Mathlib.Text.{◌==◌ as str_eq}
use hqmts.Backtest.Types.{BacktestOrder, Bar, Instrument}
use hqmts.Backtest.Matcher.{match_order_from_bt}
use hqmts.Backtest.Portfolio.{
  PortfolioState, lookup, update_market_value_from_prices, snapshot_daily, reset_daily_state,
  check_stop_loss_triggers, check_take_profit_triggers,
}
use hqmts.Backtest.RiskAdapter.{build_risk_context, adapter_evaluate}
use hqmts.Risk.Types.{RiskResultType, RiskCheckResult, allow, reject, resize, delay, force_flatten}
use hqmts.Backtest.Engine.{
  BacktestConfig, matcher_of, risk_adapter, Prices, with_position, market_for, applied,
  process_sl_tp, force_flatten_all, OrderOutcome, was_filled, was_delayed, was_rejected,
  was_skipped, outcome_of,
}

-- From the matching on.
abbrev pub match_and_apply :
    {S : Type 0}
    → BacktestConfig S
    → Prices
    → Bar
    → Instrument
    → BacktestOrder
    → PortfolioState
    → OrderOutcome × PortfolioState
match_and_apply c prev bar instrument o s =
    let result =
      match_order_from_bt (matcher_of c) o (market_for prev o.instrument_id bar instrument s) in
    (outcome_of result, applied result o bar s)

abbrev resized_order : Option ℤ → BacktestOrder → BacktestOrder
resized_order none o = o
resized_order (some q) o = record o { quantity = q }

abbrev pub with_verdict :
    {S : Type 0}
    → BacktestConfig S
    → Prices
    → Bar
    → Instrument
    → BacktestOrder
    → PortfolioState
    → RiskResultType
    → RiskCheckResult
    → OrderOutcome × PortfolioState
with_verdict c prev bar instrument o s reject r = (was_rejected, s)
with_verdict c prev bar instrument o s resize r =
    match_and_apply c prev bar instrument (resized_order r.resized_quantity o) s
with_verdict c prev bar instrument o s delay r = (was_delayed, s)
with_verdict c prev bar instrument o s force_flatten r =
    (was_filled, force_flatten_all (matcher_of c) c.instruments prev bar s)
with_verdict c prev bar instrument o s allow r = match_and_apply c prev bar instrument o s

unfoldable pub process_order :
    {S : Type 0}
    → BacktestConfig S
    → Prices
    → BacktestOrder
    → Bar
    → Option Instrument
    → PortfolioState
    → OrderOutcome × PortfolioState
unfolding with_position build_risk_context
process_order c prev o bar none s = (was_skipped, s)
process_order c prev o bar (some instrument) s =
    let s' = with_position o.instrument_id s in
    let r =
      adapter_evaluate (risk_adapter c) (build_risk_context c.risk_clock o s' o.instrument_id) in
    if c.enable_risk
    then with_verdict c prev bar instrument o s' r.result_type r
    else match_and_apply c prev bar instrument o s'

abbrev pub max_delay_attempts : ℕ
max_delay_attempts = 3

abbrev pub Queue : Type 0
Queue = List (BacktestOrder × ℕ)

-- What becomes of an order of the buffer after it was processed.
abbrev pub requeued : OrderOutcome → BacktestOrder → ℕ → Queue
requeued was_delayed o n = if ltb n max_delay_attempts then (o, n + 1) ∷ [] else []
requeued _ o n = []

-- The body of the loop over `orders_buffer`: what it appends to `remaining`, and the portfolio.
unfoldable pub process_entry :
    {S : Type 0}
    → BacktestConfig S
    → Prices
    → Bar
    → List (String × Instrument)
    → BacktestOrder × ℕ
    → PortfolioState
    → Queue × PortfolioState
unfolding process_order
process_entry c prev bar inst_map (o, n) s =
    let (r, s') = process_order c prev o bar (lookup o.instrument_id inst_map) s in
    if str_eq o.instrument_id bar.instrument_id && bar.is_completed
    then (requeued r o n, s')
    else ((o, n) ∷ [], s)

unfoldable pub process_buffer :
    {S : Type 0}
    → BacktestConfig S
    → Prices
    → Bar
    → List (String × Instrument)
    → Queue
    → PortfolioState
    → Queue × PortfolioState
process_buffer c prev bar inst_map [] s = ([], s)
process_buffer c prev bar inst_map (entry ∷ queue) s =
    let (kept, s') = process_entry c prev bar inst_map entry s in
    let (rest, s'') = process_buffer c prev bar inst_map queue s' in (kept ++ rest, s'')

-- The variables of the loop.
pub record Run (S : Type 0) : Type 0 where
  pub portfolio : PortfolioState
  pub prev_close : Prices
  pub latest_prices : Prices
  pub prev_trade_date : Option ℕ
  pub orders_buffer : Queue
  pub strategy : S

-- `bar_start_time.date()`, as the number of the day
abbrev pub date_of : Datetime → ℕ
date_of t = t / 86_400_000_000

abbrev pub same_date : Option ℕ → ℕ → Bool
same_date none d = false
same_date (some e) d = e == d

abbrev pub snapshot_of : Option ℕ → Prices → PortfolioState → PortfolioState
snapshot_of none prices s = s
snapshot_of (some d) prices s = snapshot_daily d (update_market_value_from_prices prices s)

unfoldable pub change_day : {S : Type 0} → Bar → Run S → Run S
unfolding snapshot_daily update_market_value_from_prices reset_daily_state
change_day bar run =
    let d = date_of bar.bar_start_time in
    if same_date run.prev_trade_date d then run else record run {
      portfolio =
          reset_daily_state (snapshot_of run.prev_trade_date run.latest_prices run.portfolio);
      prev_trade_date = some d;
    }

unfoldable pub process_triggers :
    {S : Type 0}
    → BacktestConfig S
    → Prices
    → Bar
    → List (String × Instrument)
    → List String
    → PortfolioState
    → PortfolioState
process_triggers c prev bar inst_map [] s = s
process_triggers c prev bar inst_map (iid ∷ iids) s =
    process_triggers c prev bar inst_map iids
      (process_sl_tp (matcher_of c) prev iid bar (lookup iid inst_map) s)

-- Both lists are made before the first order of them is matched.
unfoldable pub check_triggers :
    {S : Type 0} → BacktestConfig S → List (String × Instrument) → Bar → Run S → Run S
unfolding process_triggers
check_triggers c inst_map bar run =
    let stops = check_stop_loss_triggers run.latest_prices run.portfolio in
    let takes = check_take_profit_triggers run.latest_prices run.portfolio in
    if bar.is_completed
    then record run {
      portfolio =
          process_triggers c run.prev_close bar inst_map takes
            (process_triggers c run.prev_close bar inst_map stops run.portfolio);
    }
    else run
