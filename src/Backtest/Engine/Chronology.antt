-- ===== src/Backtest/Engine/Chronology.antt =====
-- The trades of a run stand in order of time.
use hqmts.Prelude.{◌≤◌, String, ◌≡◌, some, List, [], ◌∷◌, ◌++◌, arith, All}
use hqmts.Prelude.Decimal.{Datetime}
use hqmts.Backtest.Types.{BacktestOrder, Bar}
use hqmts.Backtest.Matcher
use hqmts.Backtest.Matcher.{MatchResult}
use hqmts.Backtest.Portfolio.{
  PortfolioState, TradeRecord, apply_fill, update_market_value_from_prices, snapshot_daily,
  reset_daily_state, update_stop_loss_take_profit,
}
use hqmts.Backtest.Engine.{BacktestConfig, with_position, clear_triggers, applied}
use hqmts.Backtest.Engine.Stream.{run, sort_bars, merge}
use hqmts.Backtest.Engine.Invariants.{Stable, last_time}
use hqmts.Backtest.Engine.Runs.{run-keeps}

abbrev pub Before : Datetime → List TradeRecord → Type 0
Before t = All (λ x. x.timestamp ≤ t)

abbrev pub InOrder : List TradeRecord → Type 0
InOrder [] = Unit
InOrder (x ∷ trades) = All (λ y. x.timestamp ≤ y.timestamp) trades × InOrder trades

abbrev pub Chronological : Datetime → List TradeRecord → Type 0
Chronological t trades = Before t trades × InOrder trades

All-snoc {ℓ κ} :
    {A : Type ℓ} (P : A → Type κ) (xs : List A) (y : A) → All P xs → P y → All P (xs ++ y ∷ [])
All-snoc P [] y h p = (p, tt)
All-snoc P (x ∷ xs) y h p = (h.0, All-snoc P xs y h.1 p)

InOrder-snoc :
    (trades : List TradeRecord) (y : TradeRecord)
    → Before y.timestamp trades
    → InOrder trades
    → InOrder (trades ++ y ∷ [])
InOrder-snoc [] y b o = (tt, tt)
InOrder-snoc (x ∷ trades) y b o =
    (All-snoc (λ z. x.timestamp ≤ z.timestamp) trades y o.0 b.0, InOrder-snoc trades y b.1 o.1)

Before-later :
    (t u : Datetime) (trades : List TradeRecord) → t ≤ u → Before t trades → Before u trades
Before-later t u [] le b = tt
Before-later t u (x ∷ trades) le b = (omega (arith, b.0), Before-later t u trades le b.1)

applied-Chronological :
    (o : BacktestOrder) (bar : Bar) (s : PortfolioState) (r : MatchResult)
    → Chronological bar.bar_start_time s.trades
    → Chronological bar.bar_start_time (applied r o bar s).trades
unfolding apply_fill
applied-Chronological o bar s (Matcher.filled f) h = (
  All-snoc (λ x. x.timestamp ≤ bar.bar_start_time) s.trades _ h.0 (omega arith),
  InOrder-snoc s.trades _ h.0 h.1,
)
applied-Chronological o bar s (Matcher.rejected r) h = h

Chronological-Stable :
    {S : Type 0} (c : BacktestConfig S) → Stable c (λ t s. Chronological t s.trades)
unfolding with_position clear_triggers update_stop_loss_take_profit update_market_value_from_prices
    snapshot_daily reset_daily_state
Chronological-Stable c = record {
  kept = record {
    created = λ t iid s h. h;
    matched = λ prev bar instrument o s h. applied-Chronological o bar s _ h;
    cleared = λ t iid s h. h;
    exits = λ t iid stop take s h. h;
  };
  later = λ t u s le h. (Before-later t u s.trades le h.0, h.1);
  valued = λ t prices s h. h;
  snapped = λ t d s h. h;
  rested = λ t s h. h;
}

-- After a run that is not refused, in whatever order the bars were given, the trades stand in the
-- order of their times, and none is later than the last bar of the stream.
pub run-Chronological :
    {S : Type 0} (c : BacktestConfig S) (bars : List (String × List Bar)) (s : PortfolioState)
    → run c bars ≡ some s
    → Chronological (last_time 0 (sort_bars (merge bars))) s.trades
run-Chronological c bars s h =
    run-keeps c (λ t s. Chronological t s.trades) (Chronological-Stable c) bars s (tt, tt) h
