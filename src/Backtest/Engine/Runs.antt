-- ===== src/Backtest/Engine/Runs.antt =====
-- The stream of bars is in order of time, and `run` keeps what every change keeps.
use hqmts.Prelude.{
  ℕ, ◌≤◌, String, ◌≡◌, inl, inr, ◌&&◌, Option, none, some, List, [], ◌∷◌, arith, any, Bool-cases,
  leb,
}
use hqmts.Prelude.Decimal.{Datetime}
use hqmts.Backtest.Types.{Bar}
use hqmts.Backtest.Portfolio.{PortfolioState}
use hqmts.Backtest.Engine.{BacktestConfig}
use hqmts.Backtest.Engine.Stream.{
  insert_bar, sort_bars, merge, zero_price, start, final_snapshot, backtest, run_stream, run,
}
use hqmts.Backtest.Engine.Invariants.{Stable, From, last_time, process_bars-keeps}

insert_bar-From :
    (t : Datetime) (b : Bar) (bars : List Bar)
    → t ≤ b.bar_start_time
    → From t bars
    → From t (insert_bar b bars)
unfolding insert_bar
insert_bar-From t b [] h f = (h, tt)
insert_bar-From t b (c ∷ bars) h f = elim (Bool-cases (leb b.bar_start_time c.bar_start_time)) [
  | inl e ↦ rw e (h, (ground arith, f.1))
  | inr e ↦ rw e (f.0, insert_bar-From c.bar_start_time b bars (ground arith) f.1)
]

pub sort_bars-From : (bars : List Bar) → From 0 (sort_bars bars)
unfolding sort_bars
sort_bars-From [] = tt
sort_bars-From (b ∷ bars) = insert_bar-From 0 b (sort_bars bars) (omega arith) (sort_bars-From bars)

module _ {S : Type 0} (c : BacktestConfig S) where
  -- A run that is not refused is the run over the stream.
  pub run_stream-backtest :
      (stream : List Bar) (s : PortfolioState)
      → run_stream c stream ≡ some s
      → s ≡ backtest c stream
  run_stream-backtest [] s h = cc
  run_stream-backtest (b ∷ bars) s h =
      elim (Bool-cases (c.reject_on_bad_data && any zero_price (b ∷ bars))) [
        | inl e ↦ absurd (cc (rw e at h))
        | inr e ↦ ground arith
      ]

  pub run-backtest :
      (bars : List (String × List Bar)) (s : PortfolioState)
      → run c bars ≡ some s
      → s ≡ backtest c (sort_bars (merge bars))
  unfolding run
  run-backtest bars s h = run_stream-backtest (sort_bars (merge bars)) s h

  module _ (P : Datetime → PortfolioState → Type 0) (k : Stable c P) where
    final_snapshot-keeps :
        (t : Datetime) (d : Option ℕ) (s : PortfolioState) → P t s → P t (final_snapshot d s)
    final_snapshot-keeps t none s h = h
    final_snapshot-keeps t (some d) s h = k.snapped t d s h

    pub run-keeps :
        (bars : List (String × List Bar)) (s : PortfolioState)
        → P 0 (start c).portfolio
        → run c bars ≡ some s
        → P (last_time 0 (sort_bars (merge bars))) s
    run-keeps bars s h e =
        let stream = sort_bars (merge bars) in
        rw (run-backtest bars s e) (
          final_snapshot-keeps _ _ _
            (process_bars-keeps c P k _ stream 0 (start c) (sort_bars-From (merge bars)) h))
