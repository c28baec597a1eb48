-- ===== src/Backtest/Strategy.antt =====
-- The strategy of a backtest: `StrategyContext` of src/hqmts/backtest/context.py, with the fields
-- that the engine fills from its state, and the calls of `StrategyTemplate`
-- (src/hqmts/backtest/strategy.py) that the engine makes. A strategy is a state with two steps.
use hqmts.Prelude.{String, List}
use hqmts.Prelude.Int.{ℤ}
use hqmts.Prelude.Decimal.{Decimal, Datetime}
use hqmts.Backtest.Types.{Bar, BacktestOrder}

pub record StrategyContext : Type 0 where
  pub instrument_id : String
  pub decision_time : Datetime
  pub current_position : ℤ
  pub available_cash : Decimal
  pub total_asset : Decimal

-- `initial` is the state that `on_init` leaves.
pub record StrategyTemplate (S : Type 0) : Type 0 where
  pub initial : S
  pub on_bar : Bar → StrategyContext → S → S
  pub generate_orders : StrategyContext → S → List BacktestOrder × S
