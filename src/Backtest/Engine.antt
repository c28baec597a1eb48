-- ===== src/Backtest/Engine.antt =====
-- `class BacktestEngine` of src/hqmts/backtest/engine.py. `risk_clock` is what the risk context
-- reads as `now_shanghai()`. A run answers the final portfolio, from which the result's statistics
-- are computed, or `none` for the empty result.
pub mod Loop
pub mod Stream
pub mod Invariants
pub mod Runs
pub mod Holdings
pub mod Ledger
pub mod Chronology
pub mod LastDay
use hqmts.Prelude.{
  ℕ, ◌+◌, ◌/◌, String, Bool, true, false, ◌&&◌, ◌||◌, not, Option, none, some, List, [], ◌∷◌, ◌++◌,
  map, any, if◌then◌else◌, ltb, leb, ◌==◌, is_some,
}
use Prim.Native.String.{◌++◌ as str_append}
use hqmts.Prelude.Int.{ℤ, pos, leb_ℤ}
use hqmts.Prelude.Decimal.{Decimal, Datetime}
use text.Mathlib.Text.{◌==◌ as str_eq}
use hqmts.Backtest.Types.{Side, buy, sell, market, BacktestOrder, Bar, Instrument}
use hqmts.Backtest.Cost.{CostModel, PriceLimitRule}
use hqmts.Backtest.Matcher
use hqmts.Backtest.Matcher.{BacktestMatcher, Market, MatchResult, match_order_from_bt}
use hqmts.Backtest.Portfolio.{
  Position, Positions, PortfolioState, lookup, insert, get_or_create_position, apply_fill,
  update_market_value_from_prices, snapshot_daily, reset_daily_state, check_stop_loss_triggers,
  check_take_profit_triggers, update_stop_loss_take_profit, calculate_total_asset,
}
use hqmts.Backtest.RiskAdapter.{build_risk_context, adapter_evaluate}
use hqmts.Backtest.Strategy.{StrategyContext, StrategyTemplate}
use hqmts.Risk.Types.{
  RiskRule, RiskResultType, RiskCheckResult, allow, reject, resize, delay, force_flatten,
}

pub record BacktestConfig (S : Type 0) : Type 0 where
  pub strategy : StrategyTemplate S
  pub instruments : List Instrument
  pub initial_cash : Decimal
  pub cost_model : CostModel
  pub price_limit : PriceLimitRule
  pub lot_size : ℕ
  pub participation_rate : ℕ
  pub reject_on_bad_data : Bool
  pub risk_engine : Option (List RiskRule)
  pub enable_risk : Bool
  pub risk_clock : Datetime

abbrev pub matcher_of : {S : Type 0} → BacktestConfig S → BacktestMatcher
matcher_of c = record {
  cost_model = c.cost_model;
  price_limit = c.price_limit;
  lot_size = c.lot_size;
  participation_rate = c.participation_rate;
}

-- The adapter has an engine only where the risk check is enabled.
abbrev pub risk_adapter : {S : Type 0} → BacktestConfig S → Option (List RiskRule)
risk_adapter c = if c.enable_risk then c.risk_engine else none

abbrev pub Prices : Type 0
Prices = List (String × Decimal)

-- `_prev_close.get(iid, target_bar.open)`
abbrev pub prev_close_of : Prices → String → Bar → Decimal
prev_close_of prev iid bar = elim (lookup iid prev) [ none ↦ pos bar.open_price | some p ↦ p ]

-- `get_or_create_position` puts the position that it creates into the dict.
unfoldable pub with_position : String → PortfolioState → PortfolioState
with_position iid s = record s {
  positions = insert iid (get_or_create_position iid s.positions) s.positions;
}

abbrev pub market_for : Prices → String → Bar → Instrument → PortfolioState → Market
market_for prev iid bar instrument s = record {
  target_bar = bar;
  prev_close = prev_close_of prev iid bar;
  instrument = instrument;
  current_position = (get_or_create_position iid s.positions).quantity;
  today_bought = (get_or_create_position iid s.positions).today_bought;
  available_cash = s.cash;
}

-- `if result.filled: apply_fill(...)`
abbrev pub applied : MatchResult → BacktestOrder → Bar → PortfolioState → PortfolioState
applied (Matcher.filled f) o bar s =
    apply_fill o.instrument_id o.side f bar.bar_start_time o.signal_id s
applied (Matcher.rejected r) o bar s = s

abbrev pub sell_out_order : String → BacktestOrder
sell_out_order iid = record {
  instrument_id = iid;
  side = sell;
  quantity = pos 0;
  order_type = market;
  limit_price = none;
  stop_loss = none;
  take_profit = none;
  signal_id = str_append "sl-tp-" iid;
  reason_code = "stop_loss_take_profit";
}

-- `pos.stop_loss = None`, `pos.take_profit = None`
unfoldable pub clear_triggers : String → PortfolioState → PortfolioState
clear_triggers iid s = record s {
  positions =
      insert iid
        (record (get_or_create_position iid s.positions) { stop_loss = none; take_profit = none })
        s.positions;
}

abbrev pub sold_out : MatchResult → String → Bar → PortfolioState → PortfolioState
sold_out (Matcher.filled f) iid bar s =
    clear_triggers iid (applied (Matcher.filled f) (sell_out_order iid) bar s)
sold_out (Matcher.rejected r) iid bar s = s

unfoldable pub process_sl_tp :
    BacktestMatcher → Prices → String → Bar → Option Instrument → PortfolioState → PortfolioState
unfolding with_position
process_sl_tp m prev iid bar none s = s
process_sl_tp m prev iid bar (some instrument) s =
    let s' = with_position iid s in
    if leb_ℤ (get_or_create_position iid s'.positions).quantity (pos 0)
    then s'
    else sold_out
        (match_order_from_bt m (sell_out_order iid) (market_for prev iid bar instrument s')) iid bar
        s'

-- The first instrument of the configuration with the id.
unfoldable pub find_instrument : String → List Instrument → Option Instrument
find_instrument iid [] = none
find_instrument iid (i ∷ instruments) =
    let rest = find_instrument iid instruments in
    if str_eq i.instrument_id iid then some i else rest

-- The loop over the names of the positions as they were at its start.
unfoldable pub flatten_each :
    BacktestMatcher → List Instrument → Prices → Bar → List String → PortfolioState → PortfolioState
unfolding process_sl_tp find_instrument
flatten_each m instruments prev bar [] s = s
flatten_each m instruments prev bar (iid ∷ iids) s = flatten_each m instruments prev bar iids (
    if leb_ℤ (get_or_create_position iid s.positions).quantity (pos 0)
    then s
    else process_sl_tp m prev iid bar (find_instrument iid instruments) s)

abbrev pub force_flatten_all :
    BacktestMatcher → List Instrument → Prices → Bar → PortfolioState → PortfolioState
force_flatten_all m instruments prev bar s =
    flatten_each m instruments prev bar (map (λ e. e.0) s.positions) s

-- "filled", "delayed", "rejected", "skipped"
pub data OrderOutcome : Type 0 where
  was_filled was_delayed was_rejected was_skipped : OrderOutcome

abbrev pub outcome_of : MatchResult → OrderOutcome
outcome_of (Matcher.filled f) = was_filled
outcome_of (Matcher.rejected r) = was_rejected
