-- ===== src/Backtest/Engine/Holdings.antt =====
-- T+1 over a whole run.
use hqmts.Prelude.{◌<◌, String, ◌≡◌, inl, inr, refl, some, List, [], ◌∷◌, map, Option-cases}
use hqmts.Backtest.Types.{BacktestOrder, Bar, Instrument}
use hqmts.Backtest.Matcher
use hqmts.Backtest.Matcher.{MatchResult, match_order_from_bt}
use hqmts.Backtest.Portfolio.{
  Position, Positions, PortfolioState, lookup, insert, get_or_create_position,
  update_market_value_from_prices, snapshot_daily, update_stop_loss_take_profit, revalued,
}
use hqmts.Backtest.Portfolio.Holdings.{
  AllHeld, insert-AllHeld, get_or_create_position-Held, apply_fill-AllHeld,
  reset_daily_state-AllHeld,
}
use hqmts.Backtest.Engine.{
  BacktestConfig, matcher_of, Prices, with_position, clear_triggers, market_for, applied,
}
use hqmts.Backtest.Engine.Stream.{run}
use hqmts.Backtest.Engine.Invariants.{Stable}
use hqmts.Backtest.Engine.Runs.{run-keeps}

-- A position with the same shares in the place of the old one.
put-AllHeld :
    (iid : String) (p : Position) (d : Positions)
    → p.quantity ≡ (get_or_create_position iid d).quantity
    → p.today_bought ≡ (get_or_create_position iid d).today_bought
    → AllHeld d
    → AllHeld (insert iid p d)
put-AllHeld iid p d a b h =
    insert-AllHeld iid p d (rw (a, b) (get_or_create_position-Held iid d h)) h

revalued-AllHeld : (prices : Prices) (d : Positions) → AllHeld d → AllHeld (map (revalued prices) d)
revalued-AllHeld prices [] h = tt
revalued-AllHeld prices ((iid, p) ∷ d) h = elim (Option-cases (lookup iid prices)) [
  | inl e ↦ rw (revalued, e) (h.0, revalued-AllHeld prices d h.1)
  | inr (price, e) ↦ rw (revalued, e) (h.0, revalued-AllHeld prices d h.1)
]

applied-AllHeld :
    {S : Type 0} (c : BacktestConfig S) (prev : Prices) (bar : Bar) (instrument : Instrument)
    (o : BacktestOrder) (s : PortfolioState) (r : MatchResult)
    → 0 < c.lot_size
    → match_order_from_bt (matcher_of c) o (market_for prev o.instrument_id bar instrument s) ≡ r
    → AllHeld s.positions
    → AllHeld (applied r o bar s).positions
applied-AllHeld c prev bar instrument o s (Matcher.filled f) lot e h =
    apply_fill-AllHeld (matcher_of c) o (market_for prev o.instrument_id bar instrument s) f
      bar.bar_start_time o.signal_id s lot e (refl, refl) h
applied-AllHeld c prev bar instrument o s (Matcher.rejected r) lot e h = h

AllHeld-Stable :
    {S : Type 0} (c : BacktestConfig S) → 0 < c.lot_size → Stable c (λ t s. AllHeld s.positions)
unfolding with_position clear_triggers update_stop_loss_take_profit update_market_value_from_prices
    snapshot_daily
AllHeld-Stable c lot = record {
  kept = record {
    created = λ t iid s h. put-AllHeld iid _ s.positions refl refl h;
    matched = λ prev bar instrument o s h. applied-AllHeld c prev bar instrument o s _ lot refl h;
    cleared = λ t iid s h. put-AllHeld iid _ s.positions refl refl h;
    exits = λ t iid stop take s h. put-AllHeld iid _ s.positions refl refl h;
  };
  later = λ t u s le h. h;
  valued = λ t prices s h. revalued-AllHeld prices s.positions h;
  snapped = λ t d s h. h;
  rested = λ t s h. (reset_daily_state-AllHeld s h).0;
}

-- After a run that is not refused, with a positive lot size and whatever the strategy and the
-- bars, every position has 0 <= today_bought <= quantity: nothing was sold short, and nothing on
-- the day that it was bought.
pub run-AllHeld :
    {S : Type 0} (c : BacktestConfig S) (bars : List (String × List Bar)) (s : PortfolioState)
    → 0 < c.lot_size
    → run c bars ≡ some s
    → AllHeld s.positions
run-AllHeld c bars s lot h =
    run-keeps c (λ t s. AllHeld s.positions) (AllHeld-Stable c lot) bars s tt h
