-- ===== src/Execution/Paper.antt =====
-- `class PaperTradingEngine` of src/hqmts/execution/paper_trading.py. An order that is filled is the
-- object in the list of orders, so the model writes it back there. The lots that cash can pay are
-- counted with the exact quotient; a cost price is cut to eight places. Times and the texts of
-- reasons are left out.
pub mod Submit
pub mod Fill
pub mod Account
pub mod Trades
pub mod Sessions
use hqmts.Prelude.{
  ℕ, ◌+◌, ◌*◌, String, Bool, true, false, ◌&&◌, not, Option, none, some, List, [], ◌∷◌, ◌++◌, map,
  if◌then◌else◌, is_some,
}
use hqmts.Prelude.Int.{
  ℤ, pos, ◌+ℤ◌, ◌-ℤ◌, ◌*ℤ◌, leb_ℤ, ltb_ℤ, max_ℤ, min_ℤ, floor_div, trunc_div, pos_part,
}
use hqmts.Prelude.Decimal.{Decimal, Datetime, unit, mul}
use text.Mathlib.Text.{◌==◌ as str_eq}
use hqmts.Backtest.Types.{Side, buy, sell}
use hqmts.Backtest.Portfolio.{lookup, insert}
use hqmts.Risk.Types.{
  RiskResultType, RiskContext, RiskRule, RiskCheckResult, allow, reject, resize, delay,
  force_flatten,
}
use hqmts.Risk.Engine.{evaluate}
use hqmts.Reservation.Store.{Store}
use hqmts.Reservation.Manager.{Result, ok, err, CashReservation, Request, reserve, release, consume}
use hqmts.Execution.Types.{Signal}
use hqmts.Execution.Converter.{determine_side}
use hqmts.Execution.Service.{is_opening}

pub data PaperOrderStatus : Type 0 where
  pending submitted filled canceled rejected : PaperOrderStatus

-- The side `none` is the text "none".
pub record PaperOrder : Type 0 where
  pub order_id : String
  pub signal_id : String
  pub instrument_id : String
  pub side : Option Side
  pub price : Decimal
  pub quantity : ℤ
  pub status : PaperOrderStatus
  pub fill_price : Decimal
  pub fill_quantity : ℤ
  pub commission : Decimal
  pub stamp_tax : Decimal

pub record PaperPosition : Type 0 where
  pub instrument_id : String
  pub quantity : ℤ
  pub available_quantity : ℤ
  pub cost_price : Decimal
  pub today_bought : ℤ

pub record PaperSnapshot : Type 0 where
  pub cash : Decimal
  pub total_asset : Decimal
  pub positions : List (String × PaperPosition)

-- The session, with `_active_reservations` and the table that the reservation manager writes.
pub record PaperTradingState : Type 0 where
  pub initial_cash : Decimal
  pub cash : Decimal
  pub positions : List (String × PaperPosition)
  pub orders : List PaperOrder
  pub daily_snapshots : List PaperSnapshot
  pub is_active : Bool
  pub active_reservations : List (String × String)
  pub reservations : Store

-- The arguments of the engine; `has_manager` tells whether it has a reservation manager, whose
-- `_ttl_seconds` stands here.
pub record PaperConfig : Type 0 where
  pub commission_rate : ℕ
  pub commission_min : Decimal
  pub stamp_tax_rate : Decimal
  pub lot_size : ℕ
  pub risk_engine : Option (List RiskRule)
  pub has_manager : Bool
  pub account_id : Option String
  pub ttl_seconds : ℕ
