-- ===== src/Backtest/Engine/Invariants.antt =====
-- What every change of the portfolio keeps is kept by a run.
use hqmts.Prelude.{
  ℕ, ◌≤◌, String, inl, inr, Bool, true, false, ◌&&◌, ◌||◌, Option, none, some, List, [], ◌∷◌, map,
  if◌then◌else◌, Bool-cases, is_some,
}
use hqmts.Prelude.Int.{pos, leb_ℤ}
use hqmts.Prelude.Decimal.{Decimal, Datetime}
use text.Mathlib.Text.{◌==◌ as str_eq}
use hqmts.Backtest.Types.{BacktestOrder, Bar, Instrument}
use hqmts.Backtest.Matcher
use hqmts.Backtest.Matcher.{MatchResult, match_order_from_bt}
use hqmts.Backtest.Portfolio.{
  PortfolioState, lookup, get_or_create_position, update_market_value_from_prices, snapshot_daily,
  reset_daily_state, update_stop_loss_take_profit, check_take_profit_triggers,
  check_stop_loss_triggers,
}
use hqmts.Risk.Types.{RiskResultType, RiskCheckResult, allow, reject, resize, delay, force_flatten}
use hqmts.Backtest.Engine.{
  BacktestConfig, matcher_of, Prices, with_position, market_for, applied, sell_out_order, sold_out,
  clear_triggers, process_sl_tp, flatten_each, find_instrument,
}
use hqmts.Backtest.Engine.Loop.{
  match_and_apply, with_verdict, process_order, Queue, process_entry, process_buffer, Run,
  change_day, process_triggers, check_triggers, snapshot_of, same_date, date_of,
}
use hqmts.Backtest.Engine.Stream.{
  accept_orders, feed_strategy, trade_bar, after_day, process_bar, process_bars, build_context,
  closed, priced,
}

-- A property of the portfolio at a time that the changes within a day keep.
pub record Kept {S : Type 0} (c : BacktestConfig S) (P : Datetime → PortfolioState → Type 0)
    : Type 0 where
  pub created :
      (t : Datetime) (iid : String) (s : PortfolioState) → P t s → P t (with_position iid s)
  pub matched :
      (prev : Prices) (bar : Bar) (instrument : Instrument) (o : BacktestOrder) (s : PortfolioState)
      → P bar.bar_start_time s
      → P bar.bar_start_time (
          applied
            (match_order_from_bt
              (matcher_of c)
              o
              (market_for prev o.instrument_id bar instrument s))
            o
            bar
            s)
  pub cleared :
      (t : Datetime) (iid : String) (s : PortfolioState) → P t s → P t (clear_triggers iid s)
  pub exits :
      (t : Datetime) (iid : String) (stop take : Option Decimal) (s : PortfolioState)
      → P t s
      → P t (update_stop_loss_take_profit iid stop take s)

-- One that the change of day keeps too, and the passing of time.
pub record Stable {S : Type 0} (c : BacktestConfig S) (P : Datetime → PortfolioState → Type 0)
    : Type 0 where
  pub kept : Kept c P
  pub later : (t u : Datetime) (s : PortfolioState) → t ≤ u → P t s → P u s
  pub valued :
      (t : Datetime) (prices : Prices) (s : PortfolioState)
      → P t s
      → P t (update_market_value_from_prices prices s)
  pub snapped : (t : Datetime) (d : ℕ) (s : PortfolioState) → P t s → P t (snapshot_daily d s)
  pub rested : (t : Datetime) (s : PortfolioState) → P t s → P t (reset_daily_state s)

-- The bars are in order of time, from `t` on.
abbrev pub From : Datetime → List Bar → Type 0
From t [] = Unit
From t (bar ∷ bars) = (t ≤ bar.bar_start_time) × From bar.bar_start_time bars

-- The time of the last bar.
abbrev pub last_time : Datetime → List Bar → Datetime
last_time t [] = t
last_time t (bar ∷ bars) = last_time bar.bar_start_time bars

either {ℓ} : {A : Type ℓ} (Q : A → Type 0) (b : Bool) (x y : A) → Q x → Q y → Q (if b then x else y)
either Q true x y p q = p
either Q false x y p q = q

module _ {S : Type 0} (c : BacktestConfig S) (P : Datetime → PortfolioState → Type 0)
    (k : Kept c P) where
  module _ (prev : Prices) (bar : Bar) where
    sold_out_of :
        (r : MatchResult) (iid : String) (s : PortfolioState)
        → P bar.bar_start_time (applied r (sell_out_order iid) bar s)
        → P bar.bar_start_time (sold_out r iid bar s)
    sold_out_of (Matcher.filled f) iid s h = k.cleared bar.bar_start_time iid _ h
    sold_out_of (Matcher.rejected r) iid s h = h

    sold_out-keeps :
        (iid : String) (instrument : Instrument) (s : PortfolioState)
        → P bar.bar_start_time s
        → P bar.bar_start_time (
            sold_out
              (match_order_from_bt
                (matcher_of c)
                (sell_out_order iid)
                (market_for prev iid bar instrument s))
              iid
              bar
              s)
    sold_out-keeps iid instrument s h =
        sold_out_of _ iid s (k.matched prev bar instrument (sell_out_order iid) s h)

    process_sl_tp-keeps :
        (iid : String) (instrument : Option Instrument) (s : PortfolioState)
        → P bar.bar_start_time s
        → P bar.bar_start_time (process_sl_tp (matcher_of c) prev iid bar instrument s)
    unfolding process_sl_tp
    process_sl_tp-keeps iid none s h = h
    process_sl_tp-keeps iid (some instrument) s h =
        let h' = k.created bar.bar_start_time iid s h in
        elim (Bool-cases
          (leb_ℤ (get_or_create_position iid (with_position iid s).positions).quantity (pos 0))) [
            | inl e ↦ rw e h'
            | inr e ↦ rw e (sold_out-keeps iid instrument (with_position iid s) h')
          ]

    flatten_each-keeps :
        (iids : List String) (s : PortfolioState)
        → P bar.bar_start_time s
        → P bar.bar_start_time (flatten_each (matcher_of c) c.instruments prev bar iids s)
    unfolding flatten_each
    flatten_each-keeps [] s h = h
    flatten_each-keeps (iid ∷ iids) s h = flatten_each-keeps iids _ (
        either (P bar.bar_start_time)
          (leb_ℤ (get_or_create_position iid s.positions).quantity (pos 0)) s
          (process_sl_tp (matcher_of c) prev iid bar (find_instrument iid c.instruments) s) h
          (process_sl_tp-keeps iid (find_instrument iid c.instruments) s h))

    match_and_apply-keeps :
        (instrument : Instrument) (o : BacktestOrder) (s : PortfolioState)
        → P bar.bar_start_time s
        → P bar.bar_start_time (match_and_apply c prev bar instrument o s).1
    match_and_apply-keeps instrument o s h = k.matched prev bar instrument o s h

    with_verdict-keeps :
        (instrument : Instrument) (o : BacktestOrder) (s : PortfolioState) (v : RiskResultType)
        (r : RiskCheckResult)
        → P bar.bar_start_time s
        → P bar.bar_start_time (with_verdict c prev bar instrument o s v r).1
    with_verdict-keeps instrument o s reject r h = h
    with_verdict-keeps instrument o s resize r h = match_and_apply-keeps instrument _ s h
    with_verdict-keeps instrument o s delay r h = h
    with_verdict-keeps instrument o s force_flatten r h =
        flatten_each-keeps (map (λ e. e.0) s.positions) s h
    with_verdict-keeps instrument o s allow r h = match_and_apply-keeps instrument o s h

    process_order-keeps :
        (o : BacktestOrder) (instrument : Option Instrument) (s : PortfolioState)
        → P bar.bar_start_time s
        → P bar.bar_start_time (process_order c prev o bar instrument s).1
    unfolding process_order
    process_order-keeps o none s h = h
    process_order-keeps o (some instrument) s h =
        let h' = k.created bar.bar_start_time o.instrument_id s h in
        elim (Bool-cases c.enable_risk) [
          | inl e ↦ rw e (with_verdict-keeps instrument o (with_position o.instrument_id s) _ _ h')
          | inr e ↦ rw e (match_and_apply-keeps instrument o (with_position o.instrument_id s) h')
        ]

    process_entry-keeps :
        (inst_map : List (String × Instrument)) (entry : BacktestOrder × ℕ) (s : PortfolioState)
        → P bar.bar_start_time s
        → P bar.bar_start_time (process_entry c prev bar inst_map entry s).1
    unfolding process_entry
    process_entry-keeps inst_map (o, n) s h =
        let h' = process_order-keeps o (lookup o.instrument_id inst_map) s h in
        elim (Bool-cases (str_eq o.instrument_id bar.instrument_id && bar.is_completed)) [
          | inl e ↦ rw e h'
          | inr e ↦ rw e h
        ]

    process_buffer-keeps :
        (inst_map : List (String × Instrument)) (queue : Queue) (s : PortfolioState)
        → P bar.bar_start_time s
        → P bar.bar_start_time (process_buffer c prev bar inst_map queue s).1
    unfolding process_buffer
    process_buffer-keeps inst_map [] s h = h
    process_buffer-keeps inst_map (entry ∷ queue) s h =
        process_buffer-keeps inst_map queue _ (process_entry-keeps inst_map entry s h)

    process_triggers-keeps :
        (inst_map : List (String × Instrument)) (iids : List String) (s : PortfolioState)
        → P bar.bar_start_time s
        → P bar.bar_start_time (process_triggers c prev bar inst_map iids s)
    unfolding process_triggers
    process_triggers-keeps inst_map [] s h = h
    process_triggers-keeps inst_map (iid ∷ iids) s h =
        process_triggers-keeps inst_map iids _ (process_sl_tp-keeps iid (lookup iid inst_map) s h)

  accept_orders-keeps :
      (t : Datetime) (orders : List BacktestOrder) (queue : Queue) (s : PortfolioState)
      → P t s
      → P t (accept_orders orders (queue, s)).1
  unfolding accept_orders
  accept_orders-keeps t [] queue s h = h
  accept_orders-keeps t (o ∷ orders) queue s h = accept_orders-keeps t orders _ _ (
      either (P t) (is_some o.stop_loss || is_some o.take_profit)
        (update_stop_loss_take_profit o.instrument_id o.stop_loss o.take_profit s) s
        (k.exits t o.instrument_id o.stop_loss o.take_profit s h) h)

  check_triggers-keeps :
      (inst_map : List (String × Instrument)) (bar : Bar) (run : Run S)
      → P bar.bar_start_time run.portfolio
      → P bar.bar_start_time (check_triggers c inst_map bar run).portfolio
  unfolding check_triggers
  check_triggers-keeps inst_map bar run h =
      either (λ (r : Run S). P bar.bar_start_time r.portfolio) bar.is_completed _ run
        (process_triggers-keeps run.prev_close bar inst_map
          (check_take_profit_triggers run.latest_prices run.portfolio) _
          (process_triggers-keeps run.prev_close bar inst_map
            (check_stop_loss_triggers run.latest_prices run.portfolio) run.portfolio h))
        h

  feed_strategy-keeps :
      (inst_map : List (String × Instrument)) (bar : Bar) (run : Run S)
      → P bar.bar_start_time run.portfolio
      → P bar.bar_start_time (feed_strategy c inst_map bar run).portfolio
  unfolding feed_strategy
  feed_strategy-keeps inst_map bar run h =
      let ctx =
        build_context bar.instrument_id bar (with_position bar.instrument_id run.portfolio) in
      let orders = (c.strategy.generate_orders ctx (c.strategy.on_bar bar ctx run.strategy)).0 in
      elim (Bool-cases (is_some (lookup bar.instrument_id inst_map))) [
        | inl e ↦ rw e (
            accept_orders-keeps bar.bar_start_time orders run.orders_buffer
              (with_position bar.instrument_id run.portfolio)
              (k.created bar.bar_start_time bar.instrument_id run.portfolio h))
        | inr e ↦ rw e h
      ]

  trade_bar-keeps :
      (inst_map : List (String × Instrument)) (bar : Bar) (run : Run S)
      → P bar.bar_start_time run.portfolio
      → P bar.bar_start_time (trade_bar c inst_map bar run).portfolio
  unfolding trade_bar
  trade_bar-keeps inst_map bar run h =
      let run' = feed_strategy c inst_map bar run in
      process_buffer-keeps run'.prev_close bar inst_map run'.orders_buffer run'.portfolio
        (feed_strategy-keeps inst_map bar run h)

  -- From the triggers on.
  pub within_day-keeps :
      (inst_map : List (String × Instrument)) (bar : Bar) (run : Run S)
      → P bar.bar_start_time run.portfolio
      → P bar.bar_start_time (after_day c inst_map bar run).portfolio
  unfolding after_day
  within_day-keeps inst_map bar run h =
      let run' = check_triggers c inst_map bar (priced bar run) in
      let h' : P bar.bar_start_time run'.portfolio =
        check_triggers-keeps inst_map bar (priced bar run) h in
      either (λ (r : Run S). P bar.bar_start_time (closed bar r).portfolio)
        (is_some (lookup bar.instrument_id run'.prev_close)) (trade_bar c inst_map bar run') run'
        (trade_bar-keeps inst_map bar run' h') h'

module _ {S : Type 0} (c : BacktestConfig S) (P : Datetime → PortfolioState → Type 0)
    (k : Stable c P) where
  snapshot_of-keeps :
      (t : Datetime) (d : Option ℕ) (prices : Prices) (s : PortfolioState)
      → P t s
      → P t (snapshot_of d prices s)
  snapshot_of-keeps t none prices s h = h
  snapshot_of-keeps t (some d) prices s h = k.snapped t d _ (k.valued t prices s h)

  change_day-keeps :
      (bar : Bar) (run : Run S)
      → P bar.bar_start_time run.portfolio
      → P bar.bar_start_time (change_day bar run).portfolio
  unfolding change_day
  change_day-keeps bar run h =
      let t = bar.bar_start_time in
      either (λ (r : Run S). P t r.portfolio) (same_date run.prev_trade_date (date_of t)) run _ h
        (k.rested t _ (snapshot_of-keeps t run.prev_trade_date run.latest_prices run.portfolio h))

  process_bar-keeps :
      (inst_map : List (String × Instrument)) (bar : Bar) (run : Run S)
      → P bar.bar_start_time run.portfolio
      → P bar.bar_start_time (process_bar c inst_map bar run).portfolio
  unfolding process_bar
  process_bar-keeps inst_map bar run h =
      within_day-keeps c P k.kept inst_map bar (change_day bar run) (change_day-keeps bar run h)

  pub process_bars-keeps :
      (inst_map : List (String × Instrument)) (bars : List Bar) (t : Datetime) (run : Run S)
      → From t bars
      → P t run.portfolio
      → P (last_time t bars) (process_bars c inst_map bars run).portfolio
  unfolding process_bars
  process_bars-keeps inst_map [] t run f h = h
  process_bars-keeps inst_map (bar ∷ bars) t run f h =
      process_bars-keeps inst_map bars bar.bar_start_time _ f.1
        (process_bar-keeps inst_map bar run (k.later t bar.bar_start_time run.portfolio f.0 h))
