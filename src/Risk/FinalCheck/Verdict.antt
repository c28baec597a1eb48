-- ===== src/Risk/FinalCheck/Verdict.antt =====
-- The result of the final check against its conditions.
use hqmts.Prelude.{
  ℕ, ◌≤◌, ◌≡◌, ◌≢◌, ◌↔◌, ◌⊎◌, refl, sym, ◌∙◌, Bool, true, false, ◌&&◌, some, List, [], ◌∷◌, ◌++◌,
  arith, all,
}
use hqmts.Prelude.Int.{pos, ◌-ℤ◌, ◌*ℤ◌, ◌≤ℤ◌, ◌<ℤ◌}
use hqmts.Prelude.Decimal.{unit}
use hqmts.Risk.FinalContext.{allow, FinalCheckContext, Entry, passed, failed, Label}
use hqmts.Risk.FinalCheck.{
  check_strategy, check_signal, check_adapter, check_account, check_position, check_reservation,
  check_inflight, check_mode, check_frequency, check_params, check_staleness, check_source,
  check_requester, run_checks, failed_checks, judge, is_killed, execute,
}
use hqmts.Risk.FinalCheck.Conditions.{
  is_passed, StrategyMay, strategy_iff, signal_iff, adapter_iff, account_iff, position_iff,
  ReservationHolds, reservation_iff, inflight_iff, ModeAllows, mode_iff, frequency_iff, params_iff,
  staleness_iff, source_iff,
}

-- All conditions for a submission.
pub record Cleared (c : FinalCheckContext) : Type 0 where
  pub strategy : StrategyMay c
  pub signal : (t : ℕ) → c.signal_valid_until ≡ some t → c.check_time ≤ t
  pub adapter : c.qmt_adapter_available ≡ some true
  pub account : (c.account_risk_status ≡ some "normal") ⊎ (c.account_risk_status ≡ some "warning")
  pub position : c.side ≡ "sell" → c.quantity ≤ℤ c.available_quantity -ℤ c.today_bought_quantity
  pub reservation : ReservationHolds c
  pub inflight : c.has_conflicting_inflight ≡ some false
  pub mode : ModeAllows c
  pub frequency : c.orders_last_minute <ℤ c.max_orders_per_minute
  pub params : (pos 0 <ℤ c.price) × (pos 0 <ℤ c.quantity) × (c.instrument_id ≢ "")
  pub fresh :
      pos 0 <ℤ c.stale_price_threshold_seconds
      → c.reference_price_age_seconds ≤ℤ c.stale_price_threshold_seconds *ℤ pos unit
  pub source : c.source_is_deterministic ≡ true
  pub requester : c.request_from_execution_service ≡ true

failed_checks-nil_iff :
    (entries : List Entry) → (failed_checks entries ≡ []) ↔ (all is_passed entries ≡ true)
failed_checks-nil_iff [] = (λ h. refl, λ h. refl)
failed_checks-nil_iff (passed l ∷ entries) = failed_checks-nil_iff entries
failed_checks-nil_iff (failed l ∷ entries) = (λ h. cc, λ h. cc)

judge-allow :
    (killed : Bool) (labels : List Label)
    → judge killed labels ≡ allow
    → (killed ≡ false) × (labels ≡ [])
judge-allow killed [] h = ground arith
judge-allow killed (l ∷ labels) h = ground arith

-- A kill switch that bites is among the failures.
killed_fails : (c : FinalCheckContext) → is_passed (check_mode c) ≡ true → is_killed c ≡ false
unfolding check_mode
killed_fails c h = ground arith

and_assoc : (a b c : Bool) → (a && (b && c)) ≡ (a && b && c)
and_assoc true b c = refl
and_assoc false b c = refl

all-append :
    (xs ys : List Entry) → all is_passed (xs ++ ys) ≡ (all is_passed xs && all is_passed ys)
all-append [] ys = refl
all-append (x ∷ xs) ys = rw (all-append xs ys) (and_assoc (is_passed x) _ _)

-- The outcomes of the checks one by one.
record Passes (c : FinalCheckContext) : Type 0 where
  strategy : is_passed (check_strategy c) ≡ true
  signal : is_passed (check_signal c) ≡ true
  adapter : is_passed (check_adapter c) ≡ true
  account : is_passed (check_account c) ≡ true
  position : is_passed (check_position c) ≡ true
  reservation : is_passed (check_reservation c) ≡ true
  inflight : is_passed (check_inflight c) ≡ true
  mode : is_passed (check_mode c) ≡ true
  frequency : is_passed (check_frequency c) ≡ true
  params : is_passed (check_params c) ≡ true
  fresh : all is_passed (check_staleness c) ≡ true
  source : is_passed (check_source c) ≡ true
  requester : is_passed (check_requester c) ≡ true

and_parts : (a b : Bool) → (a && b) ≡ true → (a ≡ true) × (b ≡ true)
and_parts true b h = (refl, h)
and_parts false b h = cc

all_passed-Passes : (c : FinalCheckContext) → all is_passed (run_checks c) ≡ true → Passes c
unfolding run_checks
all_passed-Passes c h =
    let (s1, h1) = and_parts _ _ h in
    let (s2, h2) = and_parts _ _ h1 in
    let (s3, h3) = and_parts _ _ h2 in
    let (s4, h4) = and_parts _ _ h3 in
    let (s5, h5) = and_parts _ _ h4 in
    let (s6, h6) = and_parts _ _ h5 in
    let (s7, h7) = and_parts _ _ h6 in
    let (s8, h8) = and_parts _ _ h7 in
    let (s9, h9) = and_parts _ _ h8 in
    let (s10, h10) = and_parts _ _ h9 in
    let (s11, h11) = and_parts _ _ (sym (all-append (check_staleness c) _) ∙ h10) in
    let (s12, h12) = and_parts _ _ h11 in
    let (s13, h13) = and_parts _ _ h12 in
    record {
      strategy = s1;
      signal = s2;
      adapter = s3;
      account = s4;
      position = s5;
      reservation = s6;
      inflight = s7;
      mode = s8;
      frequency = s9;
      params = s10;
      fresh = s11;
      source = s12;
      requester = s13;
    }

Passes-all_passed : (c : FinalCheckContext) → Passes c → all is_passed (run_checks c) ≡ true
unfolding run_checks
Passes-all_passed c p = rw (
  p.strategy, p.signal, p.adapter, p.account, p.position, p.reservation, p.inflight, p.mode,
  p.frequency, p.params, all-append, p.fresh, p.source, p.requester,
)

Passes-Cleared : (c : FinalCheckContext) → Passes c → Cleared c
Passes-Cleared c p =
    let fine = (params_iff c).0 p.params in
    record {
      strategy = (strategy_iff c).0 p.strategy;
      signal = (signal_iff c).0 p.signal;
      adapter = (adapter_iff c).0 p.adapter;
      account = (account_iff c).0 p.account;
      position = (position_iff c fine.1).0 p.position;
      reservation = (reservation_iff c).0 p.reservation;
      inflight = (inflight_iff c).0 p.inflight;
      mode = (mode_iff c).0 p.mode;
      frequency = (frequency_iff c).0 p.frequency;
      params = fine;
      fresh = (staleness_iff c).0 p.fresh;
      source = (source_iff c).0.0 p.source;
      requester = (source_iff c).1.0 p.requester;
    }

Cleared-Passes : (c : FinalCheckContext) → Cleared c → Passes c
Cleared-Passes c p = record {
  strategy = (strategy_iff c).1 p.strategy;
  signal = (signal_iff c).1 p.signal;
  adapter = (adapter_iff c).1 p.adapter;
  account = (account_iff c).1 p.account;
  position = (position_iff c p.params.1).1 p.position;
  reservation = (reservation_iff c).1 p.reservation;
  inflight = (inflight_iff c).1 p.inflight;
  mode = (mode_iff c).1 p.mode;
  frequency = (frequency_iff c).1 p.frequency;
  params = (params_iff c).1 p.params;
  fresh = (staleness_iff c).1 p.fresh;
  source = (source_iff c).0.1 p.source;
  requester = (source_iff c).1.1 p.requester;
}

-- The check allows a submission exactly when every condition holds.
pub execute-allow_iff : (c : FinalCheckContext) → ((execute c).result ≡ allow) ↔ Cleared c
unfolding execute
execute-allow_iff c = (
  λ h. Passes-Cleared c (
      all_passed-Passes c
        ((failed_checks-nil_iff (run_checks c)).0 (judge-allow (is_killed c) _ h).1)),
  λ h.
      let p = Cleared-Passes c h in
      rw ((failed_checks-nil_iff (run_checks c)).1 (Passes-all_passed c p), killed_fails c p.mode),
)
