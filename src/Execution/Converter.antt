-- ===== src/Execution/Converter.antt =====
-- `class SignalConverter` of src/hqmts/execution/converter.py. Clock readings and fresh ids are
-- arguments.
use hqmts.Prelude.{String, ◌||◌, not, Option, none, some, List, if◌then◌else◌}
use hqmts.Prelude.Int.{ℤ, pos, leb_ℤ, ltb_ℤ}
use hqmts.Prelude.Decimal.{Decimal, Datetime}
use hqmts.Backtest.Types.{
  Side, buy, sell, SignalType, open_long, close_long, open_short, close_short, flatten, hold,
}
use hqmts.Risk.Types.{RiskContext, RiskRule, RiskCheckResult}
use hqmts.Risk.Engine.{evaluate}
use hqmts.Execution.Types.{Signal, is_expired, has_decision_binding, ExecutionIntent, OrderRequest}
use hqmts.Execution.Pipeline.{
  expired_signal_error, missing_decision_snapshot_error, validation_error, value_error, Answer, ok,
  err, Pipeline, ◌>>◌, raise_if,
}

unfoldable pub validate_signal_for_live : Datetime → Signal → Pipeline (Unit {0})
unfolding is_expired has_decision_binding
validate_signal_for_live now signal = do
  raise_if (is_expired now signal) expired_signal_error
  raise_if (not (has_decision_binding signal)) missing_decision_snapshot_error

unfoldable pub run_pre_trade_risk : Signal → RiskContext → List RiskRule → RiskCheckResult
run_pre_trade_risk signal context rules =
    evaluate (record context { signal_id = some signal.signal_id }) rules

-- `none` is the ValueError for a signal type that is not in the map.
unfoldable pub determine_side : SignalType → Option Side
determine_side open_long = some buy
determine_side close_long = some sell
determine_side open_short = some sell
determine_side close_short = some buy
determine_side flatten = some sell
determine_side hold = none

-- The model declares `target_quantity` as `gt=0` and `reference_price` as `ge=0`.
abbrev pub new_intent : ExecutionIntent → Answer ExecutionIntent
new_intent i =
    if leb_ℤ i.target_quantity (pos 0) || ltb_ℤ i.reference_price (pos 0)
    then err validation_error
    else ok i

unfoldable pub create_execution_intent :
    String → Datetime → Signal → String → Decimal → ℤ → Option String → Answer ExecutionIntent
create_execution_intent new_id now signal account reference_price quantity reservation_id =
    elim (determine_side signal.signal_type) [
      | none ↦ err value_error
      | some side ↦ new_intent (record {
        execution_intent_id = new_id;
        signal_id = signal.signal_id;
        strategy_instance_id = signal.strategy_instance_id;
        account_id = account;
        instrument_id = signal.instrument_id;
        side = side;
        target_quantity = quantity;
        reference_price = reference_price;
        reservation_id = reservation_id;
        created_at = now;
      })
    ]

-- The model declares `quantity` as `gt=0` and `price` as `ge=0`.
abbrev pub new_order_request : OrderRequest → Answer OrderRequest
new_order_request o =
    if leb_ℤ o.quantity (pos 0) || ltb_ℤ o.price (pos 0) then err validation_error else ok o

unfoldable pub convert_to_order_request : String → Datetime → ExecutionIntent → Answer OrderRequest
convert_to_order_request new_id now intent = new_order_request (record {
  order_request_id = new_id;
  signal_id = intent.signal_id;
  account_id = intent.account_id;
  instrument_id = intent.instrument_id;
  side = intent.side;
  price = intent.reference_price;
  quantity = intent.target_quantity;
  submit_time = now;
  idempotency_key = (intent.signal_id, intent.instrument_id, now);
  execution_intent_id = intent.execution_intent_id;
  reservation_id = intent.reservation_id;
})
