-- ===== src/Risk/FinalContext.antt =====
-- What `FinalPreSubmitCheck` of src/hqmts/risk/final_check.py reads and files: `FinalCheckContext`,
-- the labels of its two lists, and the four results of src/hqmts/core/enums.py. A label is the text
-- that the code appends.
use hqmts.Prelude.{String, Bool, Option}
use hqmts.Prelude.Int.{ℤ}
use hqmts.Prelude.Decimal.{Decimal, Datetime}
use hqmts.Fsm.Strategy.{StrategyStatus}
use hqmts.Fsm.Reservation.{ReservationStatus}

pub data FinalCheckResult : Type 0 where
  allow reject retry_later escalate_manual : FinalCheckResult

pub record FinalCheckContext : Type 0 where
  pub strategy_status : Option StrategyStatus
  pub signal_valid_until : Option Datetime
  pub intent_created_at : Option Datetime
  pub qmt_adapter_available : Option Bool
  pub account_risk_status : Option String
  pub account_available_cash : Decimal
  pub available_quantity : ℤ
  pub required_quantity : ℤ
  pub today_bought_quantity : ℤ
  pub side : String
  pub reservation_status : Option ReservationStatus
  pub reservation_expires_at : Option Datetime
  pub has_conflicting_inflight : Option Bool
  pub kill_switch_active : Option Bool
  pub close_only_mode : Bool
  pub pause_open_mode : Bool
  pub orders_last_minute : ℤ
  pub max_orders_per_minute : ℤ
  pub price : Decimal
  pub quantity : ℤ
  pub instrument_id : String
  pub source_is_deterministic : Bool
  pub request_from_execution_service : Bool
  pub is_flatten : Bool
  pub check_time : Datetime
  pub stale_price_threshold_seconds : ℤ
  pub reference_price_age_seconds : Decimal

pub data Label : Type 0 where
  strategy_status_not_provided strategy_status_ok strategy_status_close_only_sell : Label
  strategy_status_close_only strategy_status_pause_open_close strategy_status_pause_open : Label
  strategy_status_other : StrategyStatus → Label
  signal_expired signal_valid : Label
  qmt_status_not_provided qmt_available qmt_unavailable : Label
  account_status_not_provided account_normal account_warning : Label
  account_other : String → Label
  position_insufficient_t1_all_blocked position_sufficient position_insufficient : Label
  position_check_n_a_buy : Label
  reservation_expired reservation_active reservation_n_a : Label
  reservation_other : ReservationStatus → Label
  inflight_status_not_provided no_conflict conflicting_inflight : Label
  kill_switch_status_not_provided kill_switch_flatten_allowed kill_switch_active_failure : Label
  close_only_no_buy mode_ok : Label
  frequency_ok frequency_exceeded : Label
  params_valid params_invalid : Label
  stale_price price_fresh : Label
  source_deterministic source_non_deterministic : Label
  execution_service_source unauthorized_source : Label

-- One call of `passed.append` or `failed.append`.
pub data Entry : Type 0 where
  passed failed : Label → Entry
