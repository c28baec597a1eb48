-- ===== src/Backtest/Types.antt =====
-- What the matcher is given: `Side` and `SignalType` of src/hqmts/core/enums.py, `BacktestOrder` of
-- src/hqmts/backtest/order.py, and the fields of `Bar` (src/hqmts/domain/bar.py) and `Instrument`
-- (src/hqmts/domain/instrument.py) that the backtest reads.
use hqmts.Prelude.{ℕ, String, Bool, Option}
use hqmts.Prelude.Int.{ℤ}
use hqmts.Prelude.Decimal.{Decimal, Datetime}

pub data Side : Type 0 where
  buy sell : Side

pub data SignalType : Type 0 where
  open_long close_long open_short close_short flatten hold : SignalType

pub data OrderType : Type 0 where
  market limit : OrderType

pub record BacktestOrder : Type 0 where
  pub instrument_id : String
  pub side : Side
  pub quantity : ℤ
  pub order_type : OrderType
  pub limit_price : Option Decimal
  pub stop_loss : Option Decimal
  pub take_profit : Option Decimal
  pub signal_id : String
  pub reason_code : String

-- A bar's prices and volume are declared `ge=0`.
pub record Bar : Type 0 where
  pub instrument_id : String
  pub bar_start_time : Datetime
  pub open_price : ℕ
  pub high_price : ℕ
  pub low_price : ℕ
  pub close_price : ℕ
  pub volume : ℕ
  pub is_completed : Bool

pub record Instrument : Type 0 where
  pub instrument_id : String
  pub is_st : Bool
  pub board_type : String
