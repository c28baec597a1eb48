-- ===== src/Risk/FinalCheck.antt =====
-- `FinalPreSubmitCheck` of src/hqmts/risk/final_check.py. Each numbered check is a function of the
-- context that files one label as passed or failed; `reservation_failure` follows the one f-string
-- that spells another check's label.
pub mod Conditions
pub mod Verdict
pub mod Consequences
use hqmts.Prelude.{
  String, Bool, true, false, ◌&&◌, ◌||◌, not, Option, none, some, List, [], ◌∷◌, ◌++◌,
  if◌then◌else◌, any, ltb,
}
use hqmts.Prelude.Int.{ℤ, pos, ◌-ℤ◌, ◌*ℤ◌, leb_ℤ, ltb_ℤ}
use hqmts.Prelude.Decimal.{Decimal, Datetime}
use text.Mathlib.Text.{◌==◌ as str_eq}
use hqmts.Fsm.Strategy.{StrategyStatus, live_running, close_only, pause_open}
use hqmts.Fsm.Reservation
use hqmts.Fsm.Reservation.{ReservationStatus}
use hqmts.Prelude.Decimal.{unit}
use hqmts.Risk.FinalContext.{
  FinalCheckResult, allow, reject, retry_later, escalate_manual, FinalCheckContext, Label, Entry,
  passed, failed, strategy_status_not_provided, strategy_status_ok, strategy_status_close_only_sell,
  strategy_status_close_only, strategy_status_pause_open_close, strategy_status_pause_open,
  strategy_status_other, signal_expired, signal_valid, qmt_status_not_provided, qmt_available,
  qmt_unavailable, account_status_not_provided, account_normal, account_warning, account_other,
  position_insufficient_t1_all_blocked, position_sufficient, position_insufficient,
  position_check_n_a_buy, reservation_expired, reservation_active, reservation_n_a,
  reservation_other, inflight_status_not_provided, no_conflict, conflicting_inflight,
  kill_switch_status_not_provided, kill_switch_flatten_allowed, kill_switch_active_failure,
  close_only_no_buy, mode_ok, frequency_ok, frequency_exceeded, params_valid, params_invalid,
  stale_price, price_fresh, source_deterministic, source_non_deterministic,
  execution_service_source, unauthorized_source,
}

abbrev pub is_sell : FinalCheckContext → Bool
is_sell c = str_eq c.side "sell"

-- `x and x < check_time`
abbrev pub is_past : Option Datetime → Datetime → Bool
is_past none now = false
is_past (some t) now = ltb t now

abbrev strategy_entry : Option StrategyStatus → Bool → Bool → Entry
strategy_entry none flatten sell = failed strategy_status_not_provided
strategy_entry (some live_running) flatten sell = passed strategy_status_ok
strategy_entry (some close_only) flatten sell =
    if flatten
    then passed strategy_status_ok
    else if sell
    then passed strategy_status_close_only_sell
    else failed strategy_status_close_only
strategy_entry (some pause_open) flatten sell =
    if flatten || sell
    then passed strategy_status_pause_open_close
    else failed strategy_status_pause_open
strategy_entry (some s) flatten sell = failed (strategy_status_other s)

unfoldable pub check_strategy : FinalCheckContext → Entry
check_strategy c = strategy_entry c.strategy_status c.is_flatten (is_sell c)

unfoldable pub check_signal : FinalCheckContext → Entry
check_signal c =
    if is_past c.signal_valid_until c.check_time then failed signal_expired else passed signal_valid

abbrev adapter_entry : Option Bool → Entry
adapter_entry none = failed qmt_status_not_provided
adapter_entry (some true) = passed qmt_available
adapter_entry (some false) = failed qmt_unavailable

unfoldable pub check_adapter : FinalCheckContext → Entry
check_adapter c = adapter_entry c.qmt_adapter_available

abbrev account_entry : Option String → Entry
account_entry none = failed account_status_not_provided
account_entry (some s) =
    if str_eq s "normal"
    then passed account_normal
    else if str_eq s "warning"
    then passed account_warning
    else failed (account_other s)

unfoldable pub check_account : FinalCheckContext → Entry
check_account c = account_entry c.account_risk_status

unfoldable pub check_position : FinalCheckContext → Entry
check_position c =
    let sellable : ℤ = c.available_quantity -ℤ c.today_bought_quantity in
    if is_sell c
    then if ltb_ℤ sellable (pos 0)
      then failed position_insufficient_t1_all_blocked
      else if leb_ℤ sellable (pos 0)
          && leb_ℤ (pos 0) sellable
          && ltb_ℤ (pos 0) c.today_bought_quantity
      then failed position_insufficient_t1_all_blocked
      else if leb_ℤ c.quantity sellable
      then passed position_sufficient
      else failed position_insufficient
    else passed position_check_n_a_buy

-- The text `reservation_{value}` of the status `expired` is that of the label for a lapsed one.
abbrev reservation_failure : ReservationStatus → Label
reservation_failure Reservation.expired = reservation_expired
reservation_failure s = reservation_other s

abbrev reservation_entry : Option ReservationStatus → Bool → Entry
reservation_entry none lapsed = passed reservation_n_a
reservation_entry (some Reservation.active) lapsed =
    if lapsed then failed reservation_expired else passed reservation_active
reservation_entry (some s) lapsed = failed (reservation_failure s)

unfoldable pub check_reservation : FinalCheckContext → Entry
check_reservation c =
    reservation_entry c.reservation_status (is_past c.reservation_expires_at c.check_time)

abbrev inflight_entry : Option Bool → Entry
inflight_entry none = failed inflight_status_not_provided
inflight_entry (some false) = passed no_conflict
inflight_entry (some true) = failed conflicting_inflight

unfoldable pub check_inflight : FinalCheckContext → Entry
check_inflight c = inflight_entry c.has_conflicting_inflight

abbrev mode_entry : Option Bool → Bool → Bool → Bool → Entry
mode_entry none flatten close_only_mode buy = failed kill_switch_status_not_provided
mode_entry (some true) flatten close_only_mode buy =
    if flatten then passed kill_switch_flatten_allowed else failed kill_switch_active_failure
mode_entry (some false) flatten close_only_mode buy =
    if close_only_mode && not flatten && buy then failed close_only_no_buy else passed mode_ok

unfoldable pub check_mode : FinalCheckContext → Entry
check_mode c = mode_entry c.kill_switch_active c.is_flatten c.close_only_mode (str_eq c.side "buy")

unfoldable pub check_frequency : FinalCheckContext → Entry
check_frequency c =
    if ltb_ℤ c.orders_last_minute c.max_orders_per_minute
    then passed frequency_ok
    else failed frequency_exceeded

unfoldable pub check_params : FinalCheckContext → Entry
check_params c =
    if ltb_ℤ (pos 0) c.price && ltb_ℤ (pos 0) c.quantity && not (str_eq c.instrument_id "")
    then passed params_valid
    else failed params_invalid

-- 10b files nothing when the threshold is off.
unfoldable pub check_staleness : FinalCheckContext → List Entry
check_staleness c =
    if ltb_ℤ (pos 0) c.stale_price_threshold_seconds
    then (if ltb_ℤ (c.stale_price_threshold_seconds *ℤ pos unit) c.reference_price_age_seconds
        then failed stale_price
        else passed price_fresh)
      ∷ []
    else []

unfoldable pub check_source : FinalCheckContext → Entry
check_source c =
    if c.source_is_deterministic
    then passed source_deterministic
    else failed source_non_deterministic

unfoldable pub check_requester : FinalCheckContext → Entry
check_requester c =
    if c.request_from_execution_service
    then passed execution_service_source
    else failed unauthorized_source

-- All entries; the code appends those of `check_staleness` before the last two.
unfoldable pub run_checks : FinalCheckContext → List Entry
run_checks c =
    check_strategy c
      ∷ check_signal c
      ∷ check_adapter c
      ∷ check_account c
      ∷ check_position c
      ∷ check_reservation c
      ∷ check_inflight c
      ∷ check_mode c
      ∷ check_frequency c
      ∷ check_params c
      ∷ check_staleness c
    ++ check_source c ∷ check_requester c ∷ []

abbrev pub passed_checks : List Entry → List Label
passed_checks [] = []
passed_checks (passed l ∷ entries) = l ∷ passed_checks entries
passed_checks (failed l ∷ entries) = passed_checks entries

abbrev pub failed_checks : List Entry → List Label
failed_checks [] = []
failed_checks (passed l ∷ entries) = failed_checks entries
failed_checks (failed l ∷ entries) = l ∷ failed_checks entries

abbrev pub is_critical : Label → Bool
is_critical unauthorized_source = true
is_critical source_non_deterministic = true
is_critical kill_switch_active_failure = true
is_critical params_invalid = true
is_critical _ = false

abbrev pub is_qmt_unavailable : Label → Bool
is_qmt_unavailable qmt_unavailable = true
is_qmt_unavailable _ = false

abbrev pub is_expiry : Label → Bool
is_expiry signal_expired = true
is_expiry reservation_expired = true
is_expiry _ = false

-- `check_id` is a fresh uuid and `reason` a text for people; both are left out.
pub record FinalCheckResultDetail : Type 0 where
  pub result : FinalCheckResult
  pub passed_checks : List Label
  pub failed_checks : List Label

abbrev pub is_killed : FinalCheckContext → Bool
is_killed c = elim c.kill_switch_active [ none ↦ false | some on ↦ on && not c.is_flatten ]

abbrev pub judge : Bool → List Label → FinalCheckResult
judge killed [] = if killed then reject else allow
judge killed (l ∷ rest) =
    let failures : List Label = l ∷ rest in
    if killed
    then reject
    else if any is_critical failures
    then reject
    else if any is_qmt_unavailable failures
    then retry_later
    else if any is_expiry failures
    then reject
    else escalate_manual

unfoldable pub execute : FinalCheckContext → FinalCheckResultDetail
execute c =
    let entries : List Entry = run_checks c in
    record {
      result = judge (is_killed c) (failed_checks entries);
      passed_checks = passed_checks entries;
      failed_checks = failed_checks entries;
    }
