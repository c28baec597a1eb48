-- ===== src/Execution/Types.antt =====
-- `Signal` (src/hqmts/domain/signal.py), `ExecutionIntent` and `OrderRequest`
-- (src/hqmts/domain/execution.py), with the fields that the pipeline reads or sets. The order type
-- and time in force, which the pipeline leaves at their defaults, and `action_id`, a fresh uuid, are
-- left out.
use hqmts.Prelude.{String, Bool, Option, is_some, ltb}
use hqmts.Prelude.Int.{ℤ}
use hqmts.Prelude.Decimal.{Decimal, Datetime}
use hqmts.Backtest.Types.{Side, SignalType}

pub record Signal : Type 0 where
  pub signal_id : String
  pub strategy_instance_id : String
  pub instrument_id : String
  pub signal_type : SignalType
  pub valid_until : Datetime
  pub decision_snapshot_id : Option String

unfoldable pub is_expired : Datetime → Signal → Bool
is_expired now s = ltb s.valid_until now

unfoldable pub has_decision_binding : Signal → Bool
has_decision_binding s = is_some s.decision_snapshot_id

pub record ExecutionIntent : Type 0 where
  pub execution_intent_id : String
  pub signal_id : String
  pub strategy_instance_id : String
  pub account_id : String
  pub instrument_id : String
  pub side : Side
  pub target_quantity : ℤ
  pub reference_price : Decimal
  pub reservation_id : Option String
  pub created_at : Datetime

-- `idempotency_key` is a text of these three parts.
pub record OrderRequest : Type 0 where
  pub order_request_id : String
  pub signal_id : String
  pub account_id : String
  pub instrument_id : String
  pub side : Side
  pub price : Decimal
  pub quantity : ℤ
  pub submit_time : Datetime
  pub idempotency_key : String × String × Datetime
  pub execution_intent_id : String
  pub reservation_id : Option String
