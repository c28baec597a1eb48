-- ===== src/Risk/FinalCheck/Conditions.antt =====
-- Each check passes exactly when its condition holds; the conditions are those of the list in
-- SAD section 19, stated without the code's tests.
use hqmts.Prelude.{
  ℕ, ◌≤◌, ◌≡◌, ◌≢◌, ◌↔◌, ◌⊎◌, inl, inr, refl, Bool, true, false, Option, none, some, arith,
  Bool-cases, Option-cases, all, ne_of_str_eq,
}
use hqmts.Prelude.Int.{pos, ◌-ℤ◌, ◌*ℤ◌, ◌≤ℤ◌, ◌<ℤ◌, ltb_ℤ}
use text.Mathlib.Text.{◌==◌ as str_eq}
use text.Mathlib.TextEquality.{eq_iff}
use hqmts.Fsm.Strategy.{live_running, close_only, pause_open}
use hqmts.Fsm.Reservation
use hqmts.Prelude.Decimal.{unit}
use hqmts.Risk.FinalContext.{FinalCheckContext, Entry, passed, failed}
use hqmts.Risk.FinalCheck.{
  check_strategy, check_signal, check_adapter, check_account, check_position, check_reservation,
  check_inflight, check_mode, check_frequency, check_params, check_staleness, check_source,
  check_requester, is_sell, is_past, reservation_entry,
}

abbrev pub is_passed : Entry → Bool
is_passed (passed l) = true
is_passed (failed l) = false

-- Closing a position is a sale or a flattening.
abbrev pub Closes : FinalCheckContext → Type 0
Closes c = (c.is_flatten ≡ true) ⊎ (c.side ≡ "sell")

abbrev pub StrategyMay : FinalCheckContext → Type 0
StrategyMay c =
    (c.strategy_status ≡ some live_running)
    ⊎ (((c.strategy_status ≡ some close_only) ⊎ (c.strategy_status ≡ some pause_open)) × Closes c)

pub strategy_iff : (c : FinalCheckContext) → (is_passed (check_strategy c) ≡ true) ↔ StrategyMay c
unfolding check_strategy
strategy_iff c =
    (λ h. ground (arith, eq_iff c.side "sell"), λ h. ground (arith, eq_iff c.side "sell"))

past_iff : (o : Option ℕ) (now : ℕ) → (is_past o now ≡ false) ↔ ((t : ℕ) → o ≡ some t → now ≤ t)
past_iff none now = (λ h t e. cc, λ h. refl)
past_iff (some t) now = (λ h u e. ground arith, λ h. ground (arith, h t refl))

pub signal_iff :
    (c : FinalCheckContext)
    → (is_passed (check_signal c) ≡ true)
      ↔ ((t : ℕ) → c.signal_valid_until ≡ some t → c.check_time ≤ t)
unfolding check_signal
signal_iff c = elim (Bool-cases (is_past c.signal_valid_until c.check_time)) [
  | inl e ↦ (λ h. ground arith, λ h. cc ((past_iff c.signal_valid_until c.check_time).1 h))
  | inr e ↦ (λ h. (past_iff c.signal_valid_until c.check_time).0 e, λ h. rw e)
]

pub adapter_iff :
    (c : FinalCheckContext)
    → (is_passed (check_adapter c) ≡ true) ↔ (c.qmt_adapter_available ≡ some true)
unfolding check_adapter
adapter_iff c = (λ h. ground arith, λ h. ground arith)

pub account_iff :
    (c : FinalCheckContext)
    → (is_passed (check_account c) ≡ true)
      ↔ ((c.account_risk_status ≡ some "normal") ⊎ (c.account_risk_status ≡ some "warning"))
unfolding check_account
account_iff c = elim (Option-cases c.account_risk_status) [
  | inl e ↦ (λ h. ground arith, λ h. ground arith)
  | inr (s, e) ↦ (
    λ h. ground (arith, eq_iff s "normal", eq_iff s "warning"),
    λ h. ground (arith, eq_iff s "normal", eq_iff s "warning"),
  )
]

-- A sale of a positive quantity takes no share that was bought today.
pub position_iff :
    (c : FinalCheckContext)
    → pos 0 <ℤ c.quantity
    → (is_passed (check_position c) ≡ true)
      ↔ (c.side ≡ "sell" → c.quantity ≤ℤ c.available_quantity -ℤ c.today_bought_quantity)
unfolding check_position
position_iff c q = elim (Bool-cases (is_sell c)) [
  | inl e ↦ (λ h s. ground arith, λ h. ground (arith, h ((eq_iff c.side "sell").0 e)))
  | inr e ↦ (λ h s. ground (arith, eq_iff c.side "sell"), λ h. rw e)
]

abbrev pub ReservationHolds : FinalCheckContext → Type 0
ReservationHolds c =
    (c.reservation_status ≡ none)
    ⊎ ((c.reservation_status ≡ some Reservation.active)
        × ((t : ℕ) → c.reservation_expires_at ≡ some t → c.check_time ≤ t))

reservation_entry_passed :
    (s : Option Reservation.ReservationStatus) (lapsed : Bool)
    → is_passed (reservation_entry s lapsed) ≡ true
    → (s ≡ none) ⊎ ((s ≡ some Reservation.active) × (lapsed ≡ false))
reservation_entry_passed s lapsed h = ground arith

pub reservation_iff :
    (c : FinalCheckContext) → (is_passed (check_reservation c) ≡ true) ↔ ReservationHolds c
unfolding check_reservation
reservation_iff c = (
  λ h. elim (reservation_entry_passed c.reservation_status _ h) [
    | inl e ↦ inl e
    | inr (a, p) ↦ inr (a, (past_iff c.reservation_expires_at c.check_time).0 p)
  ],
  λ h. elim h [
    | inl e ↦ rw e
    | inr (a, p) ↦ rw (a, (past_iff c.reservation_expires_at c.check_time).1 p)
  ],
)

pub inflight_iff :
    (c : FinalCheckContext)
    → (is_passed (check_inflight c) ≡ true) ↔ (c.has_conflicting_inflight ≡ some false)
unfolding check_inflight
inflight_iff c = (λ h. ground arith, λ h. ground arith)

-- With the kill switch on only a flattening passes; in close-only mode nothing else buys.
abbrev pub ModeAllows : FinalCheckContext → Type 0
ModeAllows c =
    ((c.kill_switch_active ≡ some true) × (c.is_flatten ≡ true))
    ⊎ ((c.kill_switch_active ≡ some false)
        × ((c.close_only_mode ≡ false) ⊎ (c.is_flatten ≡ true) ⊎ (c.side ≢ "buy")))

pub mode_iff : (c : FinalCheckContext) → (is_passed (check_mode c) ≡ true) ↔ ModeAllows c
unfolding check_mode
mode_iff c = (
  λ h. elim (Bool-cases (str_eq c.side "buy")) [
    | inl e ↦ ground arith
    | inr e ↦ ground (arith, ne_of_str_eq c.side "buy" e)
  ],
  λ h. ground (arith, eq_iff c.side "buy"),
)

pub frequency_iff :
    (c : FinalCheckContext)
    → (is_passed (check_frequency c) ≡ true) ↔ (c.orders_last_minute <ℤ c.max_orders_per_minute)
unfolding check_frequency
frequency_iff c = (λ h. ground arith, λ h. ground arith)

pub params_iff :
    (c : FinalCheckContext)
    → (is_passed (check_params c) ≡ true)
      ↔ ((pos 0 <ℤ c.price) × (pos 0 <ℤ c.quantity) × (c.instrument_id ≢ ""))
unfolding check_params
params_iff c = (
  λ h. (ground arith, ground arith, λ e. ground (arith, eq_iff c.instrument_id "")),
  λ h. ground (arith, eq_iff c.instrument_id "", h.2),
)

pub staleness_iff :
    (c : FinalCheckContext)
    → (all is_passed (check_staleness c) ≡ true) ↔ (
        pos 0 <ℤ c.stale_price_threshold_seconds
        → c.reference_price_age_seconds ≤ℤ c.stale_price_threshold_seconds *ℤ pos unit)
unfolding check_staleness
staleness_iff c = (
  λ h k. ground arith,
  λ h. elim (Bool-cases (ltb_ℤ (pos 0) c.stale_price_threshold_seconds)) [
    | inl e ↦ ground (arith, h (ground arith))
    | inr e ↦ rw e
  ],
)

pub source_iff :
    (c : FinalCheckContext)
    → ((is_passed (check_source c) ≡ true) ↔ (c.source_is_deterministic ≡ true))
      × ((is_passed (check_requester c) ≡ true) ↔ (c.request_from_execution_service ≡ true))
unfolding check_source check_requester
source_iff c = ((λ h. ground arith, λ h. ground arith), (λ h. ground arith, λ h. ground arith))
