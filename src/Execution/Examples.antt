-- ===== src/Execution/Examples.antt =====
-- The theorems on the execution pipeline at concrete signals.
use hqmts.Prelude.{
  ne_of_str_eq, String, ◌≡◌, refl, Option, none, some, List, [], ◌∷◌, arith, true, false,
}
use hqmts.Prelude.Int.{pos, ◌-ℤ◌, ◌*ℤ◌}
use hqmts.Backtest.Types.{buy, open_long, SignalType}
use hqmts.Fsm.Strategy.{live_running}
use hqmts.Fsm.Reservation.{ReservationStatus}
use hqmts.Risk.Types.{RiskContext, RiskRule}
use hqmts.Risk.Engine.{evaluate, check_layers, check_rules, get_rules_by_layer, build_result}
use hqmts.Risk.Rules.Order.{min_lot_size_check, lot_answer}
use hqmts.Risk.FinalContext.{FinalCheckContext}
use hqmts.Risk.FinalCheck.{
  execute, run_checks, check_strategy, check_signal, check_adapter, check_account, check_position,
  check_reservation, check_inflight, check_mode, check_frequency, check_params, check_staleness,
  check_source, check_requester,
}
use hqmts.Reservation.Store.{
  CashReservationOrm, Store, get_total_reserved_amount, create, get_by_id, update,
}
use hqmts.Reservation.Manager.{reserve, release}
use hqmts.Execution.Types.{Signal, OrderRequest, is_expired, has_decision_binding}
use hqmts.Execution.Pipeline.{ok}
use hqmts.Execution.Converter.{
  validate_signal_for_live, run_pre_trade_risk, create_execution_intent, convert_to_order_request,
  determine_side,
}
use hqmts.Execution.Service.{
  Outside, Job, process_signal, go_on, protected_steps, check_and_request, reserve_opening,
  release_if, handle_fill, submit_order,
}
use hqmts.Execution.Service.Outcomes.{made_row, Undone}
use hqmts.Execution.Service.Vetting.{Vetted}
use hqmts.Execution.Service.Cash.{
  process_signal_no_leak, process_signal-Vetted, failed_submission_restores, fill_consumes,
  GivenBack,
}

abbrev outside : Outside
outside = record {
  signal_clock = 10;
  reservation_clock = 11;
  intent_clock = 12;
  submit_clock = 13;
  release_clock = 14;
  cleanup_clock = 15;
  reservation_id = "R";
  intent_id = "I";
  order_request_id = "O";
}

abbrev signal : SignalType → Signal
signal kind = record {
  signal_id = "s";
  strategy_instance_id = "S";
  instrument_id = "600000.SH";
  signal_type = kind;
  valid_until = 50;
  decision_snapshot_id = some "D";
}

-- A purchase of 250 shares at 2.
abbrev context : RiskContext
context = record {
  signal_id = none;
  order_request_id = none;
  strategy_instance_id = some "S";
  account_id = some "A";
  instrument_id = some "600000.SH";
  side = some "buy";
  quantity = pos 250;
  price = pos 2;
  account_total_asset = pos 1_000;
  account_available_cash = pos 1_000;
  account_market_value = pos 0;
  account_pnl_intraday = pos 0;
  account_drawdown_intraday = pos 0;
  strategy_status = "live_running";
  strategy_position_ratio = pos 0;
  strategy_daily_loss = pos 0;
  strategy_consecutive_losses = pos 0;
  instrument_is_st = false;
  instrument_avg_daily_amount = pos 0;
  instrument_position_ratio = pos 0;
  instrument_daily_pnl = pos 0;
  existing_order_count_last_min = pos 0;
  is_flatten = false;
  check_time = 10;
  index_drop_pct = pos 0;
  market_volatility = pos 0;
  recent_same_side_orders = pos 0;
  strategy_last_trade_time = none;
}

abbrev submission : FinalCheckContext
submission = record {
  strategy_status = some live_running;
  signal_valid_until = some 50;
  intent_created_at = none;
  qmt_adapter_available = some true;
  account_risk_status = some "normal";
  account_available_cash = pos 1_000;
  available_quantity = pos 0;
  required_quantity = pos 0;
  today_bought_quantity = pos 0;
  side = "";
  reservation_status = none;
  reservation_expires_at = none;
  has_conflicting_inflight = some false;
  kill_switch_active = some false;
  close_only_mode = false;
  pause_open_mode = false;
  orders_last_minute = pos 0;
  max_orders_per_minute = pos 60;
  price = pos 0;
  quantity = pos 0;
  instrument_id = "";
  source_is_deterministic = true;
  request_from_execution_service = true;
  is_flatten = false;
  check_time = 12;
  stale_price_threshold_seconds = pos 0;
  reference_price_age_seconds = pos 0;
}

abbrev rules : List RiskRule
rules = min_lot_size_check 100 ∷ []

abbrev job : SignalType → FinalCheckContext → Job
job kind check = record {
  signal = signal kind;
  account_id = "A";
  reference_price = pos 2;
  target_quantity = pos 250;
  risk_context = context;
  final_check_context = check;
  rules = rules;
  ttl_seconds = 60;
}

abbrev killed : FinalCheckContext
killed = record submission { kill_switch_active = some true }

-- The order that comes out is cut to 200 shares.
abbrev cut : OrderRequest
cut = record {
  order_request_id = "O";
  signal_id = "s";
  account_id = "A";
  instrument_id = "600000.SH";
  side = buy;
  price = pos 2;
  quantity = pos 200;
  submit_time = 13;
  idempotency_key = ("s", "600000.SH", 13);
  execution_intent_id = "I";
  reservation_id = some "R";
}

abbrev table : Store
table = made_row outside (job open_long submission) (pos 200) ∷ []

runs : process_signal outside (job open_long submission) [] ≡ (ok (some cut), table)
unfolding process_signal validate_signal_for_live is_expired has_decision_binding run_pre_trade_risk
    evaluate check_layers check_rules get_rules_by_layer build_result min_lot_size_check lot_answer
    go_on reserve_opening reserve get_total_reserved_amount create protected_steps
    create_execution_intent determine_side check_and_request convert_to_order_request execute
    run_checks check_strategy check_signal check_adapter check_account check_position
    check_reservation check_inflight check_mode check_frequency check_params check_staleness
    check_source check_requester ◌-ℤ◌ ◌*ℤ◌
runs = refl

-- With the kill switch on, the reservation is made and released.
abbrev undone : Store
undone =
    record (made_row outside (job open_long killed) (pos 200)) {
      status = ReservationStatus.released;
      released_reason = "Final check failed";
      updated_at = 14;
    }
    ∷ []

stops : process_signal outside (job open_long killed) [] ≡ (ok none, undone)
unfolding process_signal validate_signal_for_live is_expired has_decision_binding run_pre_trade_risk
    evaluate check_layers check_rules get_rules_by_layer build_result min_lot_size_check lot_answer
    go_on reserve_opening reserve get_total_reserved_amount create protected_steps release_if
    release get_by_id update create_execution_intent determine_side check_and_request
    convert_to_order_request execute run_checks check_strategy check_signal check_adapter
    check_account check_position check_reservation check_inflight check_mode check_frequency
    check_params check_staleness check_source check_requester ◌-ℤ◌ ◌*ℤ◌
stops = refl

process_signal_no_leak_example :
    Undone [] undone
    × ((account : String)
        → get_total_reserved_amount account undone ≡ get_total_reserved_amount account [])
process_signal_no_leak_example =
    process_signal_no_leak outside (job open_long killed) [] undone (ok none)
      (ne_of_str_eq "R" "" refl) stops tt

process_signal-Vetted_example : Vetted outside (job open_long submission) [] cut table
process_signal-Vetted_example =
    process_signal-Vetted outside (job open_long submission) [] table cut (ne_of_str_eq "R" "" refl)
      runs

abbrev unreachable : OrderRequest → Option String
unreachable o = none

failed_submission_restores_example :
    ((submit_order 20 (some unreachable) cut table).0 ≡ ok none)
    × GivenBack cut [] (submit_order 20 (some unreachable) cut table).1
    × ((account : String)
        → get_total_reserved_amount account (submit_order 20 (some unreachable) cut table).1
          ≡ get_total_reserved_amount account [])
failed_submission_restores_example =
    failed_submission_restores outside (job open_long submission) [] table cut unreachable 20
      (ne_of_str_eq "R" "" refl) runs refl

fill_consumes_example :
    (r : CashReservationOrm) × ((handle_fill 20 (some "R") (pos 400) table).1 ≡ r ∷ [])
    × (r.status ≡ ReservationStatus.fully_consumed)
    × (r.consumed_amount ≡ pos 400)
    × ((account : String)
        → get_total_reserved_amount account (r ∷ []) ≡ get_total_reserved_amount account [])
unfolding ◌*ℤ◌
fill_consumes_example =
    fill_consumes outside (job open_long submission) [] table cut 20 (pos 400) "R"
      (ne_of_str_eq "R" "" refl) runs refl (omega arith)
