-- ===== src/Backtest/Engine/LastDay.antt =====
-- The snapshot of the last day: its market values are those of the day before.
use hqmts.Prelude.{
  ℕ, ◌==◌, String, ◌≡◌, inl, inr, refl, ap, ◌∙◌, true, Option, none, some, List, [], ◌∷◌, arith,
  All, Bool-cases, leb,
}
use hqmts.Prelude.Int.{pos, int_laws}
use hqmts.Prelude.Decimal.{Decimal, Datetime}
use text.Mathlib.Text.{◌==◌ as str_eq}
use hqmts.Backtest.Types.{Side, buy, sell, BacktestOrder, Bar, Instrument}
use hqmts.Backtest.Matcher
use hqmts.Backtest.Matcher.{Fill, MatchResult}
use hqmts.Backtest.Portfolio.{
  Position, Positions, PortfolioState, DailyValue, insert, get_or_create_position, bought, sold,
  filled_position, apply_fill, snapshot_daily, reset_daily_state, update_stop_loss_take_profit,
  positions_value, calculate_total_asset,
}
use hqmts.Backtest.Engine.{BacktestConfig, with_position, clear_triggers, applied}
use hqmts.Backtest.Engine.Loop.{Run, date_of, same_date, change_day, check_triggers}
use hqmts.Backtest.Engine.Stream.{
  insert_bar, sort_bars, merge, after_day, process_bar, process_bars, feed_strategy, trade_bar,
  inst_map_of, start, final_snapshot, run, run_stream,
}
use hqmts.Backtest.Engine.Invariants.{Kept, within_day-keeps}
use hqmts.Backtest.Engine.Runs.{run_stream-backtest}

abbrev Unvalued : Positions → Type 0
Unvalued = All (λ e. e.1.market_value ≡ pos 0)

-- No position was valued, and no snapshot was taken.
abbrev FirstDay : Datetime → PortfolioState → Type 0
FirstDay t s = Unvalued s.positions × (s.daily_values ≡ [])

put-Unvalued :
    (iid : String) (p : Position) (d : Positions)
    → p.market_value ≡ pos 0
    → Unvalued d
    → Unvalued (insert iid p d)
put-Unvalued iid p [] e h = (e, tt)
put-Unvalued iid p ((j, q) ∷ d) e h = elim (Bool-cases (str_eq j iid)) [
  | inl x ↦ rw x (e, h.1)
  | inr x ↦ rw x (h.0, put-Unvalued iid p d e h.1)
]

got-Unvalued :
    (iid : String) (d : Positions)
    → Unvalued d
    → (get_or_create_position iid d).market_value ≡ pos 0
unfolding get_or_create_position
got-Unvalued iid [] h = refl
got-Unvalued iid ((j, q) ∷ d) h = elim (Bool-cases (str_eq j iid)) [
  | inl x ↦ rw (get_or_create_position, x) h.0
  | inr x ↦ rw (get_or_create_position, x) (got-Unvalued iid d h.1)
]

filled-Unvalued :
    (side : Side) (p : Position) (f : Fill)
    → (filled_position side p f).market_value ≡ p.market_value
unfolding bought sold
filled-Unvalued buy p f = refl
filled-Unvalued sell p f = refl

applied-FirstDay :
    (o : BacktestOrder) (bar : Bar) (s : PortfolioState) (r : MatchResult)
    → FirstDay bar.bar_start_time s
    → FirstDay bar.bar_start_time (applied r o bar s)
unfolding apply_fill
applied-FirstDay o bar s (Matcher.filled f) h = (
  put-Unvalued o.instrument_id _ s.positions
      (filled-Unvalued o.side (get_or_create_position o.instrument_id s.positions) f
        ∙ got-Unvalued o.instrument_id s.positions h.0)
      h.0,
  h.1,
)
applied-FirstDay o bar s (Matcher.rejected r) h = h

FirstDay-Kept : {S : Type 0} (c : BacktestConfig S) → Kept c FirstDay
unfolding with_position clear_triggers update_stop_loss_take_profit
FirstDay-Kept c = record {
  created =
      λ t iid s h. (put-Unvalued iid _ s.positions (got-Unvalued iid s.positions h.0) h.0, h.1);
  matched = λ prev bar instrument o s h. applied-FirstDay o bar s _ h;
  cleared =
      λ t iid s h. (put-Unvalued iid _ s.positions (got-Unvalued iid s.positions h.0) h.0, h.1);
  exits = λ t iid stop take s h.
      (put-Unvalued iid _ s.positions (got-Unvalued iid s.positions h.0) h.0, h.1);
}

-- The day is set by `change_day` alone.
after_day-date :
    {S : Type 0} (c : BacktestConfig S) (inst_map : List (String × Instrument)) (bar : Bar)
    (r : Run S)
    → (after_day c inst_map bar r).prev_trade_date ≡ r.prev_trade_date
unfolding after_day trade_bar feed_strategy check_triggers
after_day-date c inst_map bar r = ground arith

abbrev pub OnDay : ℕ → List Bar → Type 0
OnDay d = All (λ b. date_of b.bar_start_time ≡ d)

eq_self : (n : ℕ) → (n == n) ≡ true
eq_self n = ground arith

same_day :
    {S : Type 0} (d : ℕ) (bar : Bar) (r : Run S)
    → date_of bar.bar_start_time ≡ d
    → r.prev_trade_date ≡ some d
    → change_day bar r ≡ r
unfolding change_day
same_day d bar r e h =
    let d' = date_of bar.bar_start_time in
    let t : same_date r.prev_trade_date d' ≡ true = rw (h, e) (eq_self d) in rw t

next_bar :
    {S : Type 0} (c : BacktestConfig S) (inst_map : List (String × Instrument)) (bar : Bar)
    (bars : List Bar) (r : Run S) {r' : Run S}
    → change_day bar r ≡ r'
    → process_bars c inst_map (bar ∷ bars) r
      ≡ process_bars c inst_map bars (after_day c inst_map bar r')
unfolding process_bars process_bar
next_bar c inst_map bar bars r e =
    ap (λ (x : Run _). process_bars c inst_map bars (after_day c inst_map bar x)) e

one_day :
    {S : Type 0} (c : BacktestConfig S) (inst_map : List (String × Instrument)) (d : ℕ)
    (bars : List Bar) (r : Run S)
    → OnDay d bars
    → r.prev_trade_date ≡ some d
    → FirstDay 0 r.portfolio
    → FirstDay 0 (process_bars c inst_map bars r).portfolio
      × ((process_bars c inst_map bars r).prev_trade_date ≡ some d)
unfolding process_bars process_bar
one_day c inst_map d [] r o e h = (h, e)
one_day c inst_map d (bar ∷ bars) r o e h =
    rw (next_bar c inst_map bar bars r (same_day d bar r o.0 e)) (
      one_day c inst_map d bars (after_day c inst_map bar r) o.1
        (after_day-date c inst_map bar r ∙ e)
        (within_day-keeps c FirstDay (FirstDay-Kept c) inst_map bar r h))

insert_bar-OnDay :
    (d : ℕ) (b : Bar) (bars : List Bar)
    → date_of b.bar_start_time ≡ d
    → OnDay d bars
    → OnDay d (insert_bar b bars)
unfolding insert_bar
insert_bar-OnDay d b [] e h = (e, tt)
insert_bar-OnDay d b (x ∷ bars) e h = elim (Bool-cases (leb b.bar_start_time x.bar_start_time)) [
  | inl y ↦ rw y (e, h)
  | inr y ↦ rw y (h.0, insert_bar-OnDay d b bars e h.1)
]

sort_bars-OnDay : (d : ℕ) (bars : List Bar) → OnDay d bars → OnDay d (sort_bars bars)
unfolding sort_bars
sort_bars-OnDay d [] h = tt
sort_bars-OnDay d (b ∷ bars) h =
    insert_bar-OnDay d b (sort_bars bars) h.0 (sort_bars-OnDay d bars h.1)

positions_value-Unvalued : (d : Positions) → Unvalued d → positions_value d ≡ pos 0
unfolding positions_value
positions_value-Unvalued [] h = refl
positions_value-Unvalued ((j, p) ∷ d) h = rw (h.0, positions_value-Unvalued d h.1) (omega int_laws)

abbrev pub unvalued_snapshot : ℕ → Decimal → DailyValue
unvalued_snapshot d cash = record {
  trade_date = d;
  cash = cash;
  market_value = pos 0;
  total_asset = cash;
}

snapshot_of_unvalued :
    (d : ℕ) (s : PortfolioState)
    → FirstDay 0 s
    → (snapshot_daily d s).daily_values ≡ unvalued_snapshot d s.cash ∷ []
unfolding snapshot_daily calculate_total_asset
snapshot_of_unvalued d s h =
    rw (h.1, positions_value-Unvalued s.positions h.0)
      (ap (λ (x : Decimal). record (unvalued_snapshot d s.cash) { total_asset = x } ∷ [])
        (omega int_laws))

first_step :
    {S : Type 0} (c : BacktestConfig S) (d : ℕ) (bar : Bar)
    → date_of bar.bar_start_time ≡ d
    → change_day bar (start c) ≡ record (start c) { prev_trade_date = some d }
unfolding change_day reset_daily_state
first_step c d bar e = rw e

first_day :
    {S : Type 0} (c : BacktestConfig S) (inst_map : List (String × Instrument)) (d : ℕ) (bar : Bar)
    (bars : List Bar)
    → OnDay d (bar ∷ bars)
    → FirstDay 0 (process_bars c inst_map (bar ∷ bars) (start c)).portfolio
      × ((process_bars c inst_map (bar ∷ bars) (start c)).prev_trade_date ≡ some d)
unfolding process_bars process_bar
first_day c inst_map d bar bars o =
    let r : Run _ = record (start c) { prev_trade_date = some d } in
    rw (next_bar c inst_map bar bars (start c) (first_step c d bar o.0)) (
      one_day c inst_map d bars (after_day c inst_map bar r) o.1 (after_day-date c inst_map bar r)
        (within_day-keeps c FirstDay (FirstDay-Kept c) inst_map bar r (tt, refl)))

last_snapshot :
    (o : Option ℕ) (d : ℕ) (s : PortfolioState)
    → o ≡ some d
    → FirstDay 0 s
    → (final_snapshot o s).daily_values ≡ unvalued_snapshot d (final_snapshot o s).cash ∷ []
unfolding snapshot_daily
last_snapshot none d s e h = cc
last_snapshot (some x) d s e h =
    let same : x ≡ d = ground arith in rw same (snapshot_of_unvalued d s h)

stream_snapshot :
    {S : Type 0} (c : BacktestConfig S) (d : ℕ) (stream : List Bar) (s : PortfolioState)
    → run_stream c stream ≡ some s
    → OnDay d stream
    → s.daily_values ≡ unvalued_snapshot d s.cash ∷ []
stream_snapshot c d [] s h o = cc
stream_snapshot c d (bar ∷ bars) s h o =
    let inst_map = inst_map_of c.instruments [] in
    let end = process_bars c inst_map (bar ∷ bars) (start c) in
    let (f, e) = first_day c inst_map d bar bars o in
    rw (run_stream-backtest c (bar ∷ bars) s h)
      (last_snapshot end.prev_trade_date d end.portfolio e f)

-- A run over bars of one day that is not refused: the only snapshot is of that day, and it values
-- the positions at 0, whatever was bought; its total is the cash alone.
pub single_day_unvalued :
    {S : Type 0} (c : BacktestConfig S) (d : ℕ) (bars : List (String × List Bar))
    (s : PortfolioState)
    → OnDay d (merge bars)
    → run c bars ≡ some s
    → s.daily_values ≡ unvalued_snapshot d s.cash ∷ []
unfolding run
single_day_unvalued c d bars s o h =
    stream_snapshot c d (sort_bars (merge bars)) s h (sort_bars-OnDay d (merge bars) o)
