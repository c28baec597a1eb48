-- ===== src/Execution/Service.antt =====
-- `class ExecutionService` of src/hqmts/execution/service.py over the table of reservations. The
-- broker's adapter is a parameter: `none` is a call of it that raises.
pub mod Outcomes
pub mod Approval
pub mod Vetting
pub mod Cash
use hqmts.Prelude.{
  ℕ, String, Bool, true, false, ◌&&◌, ◌||◌, not, Option, none, some, List, if◌then◌else◌, ltb, leb,
}
use hqmts.Prelude.Int.{ℤ, pos, ◌*ℤ◌, leb_ℤ, ltb_ℤ}
use hqmts.Prelude.Decimal.{Decimal, Datetime}
use text.Mathlib.Text.{◌==◌ as str_eq}
use hqmts.Backtest.Types.{Side, buy, sell, SignalType, open_long, open_short}
use hqmts.Risk.Types.{
  RiskResultType, RiskContext, RiskRule, RiskCheckResult, allow, reject, resize, delay,
  force_flatten,
}
use hqmts.Risk.FinalContext
use hqmts.Risk.FinalContext.{FinalCheckContext, FinalCheckResult}
use hqmts.Risk.FinalCheck.{execute}
use hqmts.Reservation.Manager.{Request, reserve, release, consume}
use hqmts.Execution.Types.{Signal, ExecutionIntent, OrderRequest}
use hqmts.Execution.Pipeline.{
  risk_reject_error, force_flatten_error, Pipeline, ◌>>=◌, ◌>>◌, pure, throw, of_answer, call,
  on_error, swallow,
}
use hqmts.Execution.Converter.{
  validate_signal_for_live, run_pre_trade_risk, create_execution_intent, convert_to_order_request,
}

-- What one run reads from outside: the clock where it is read, and the fresh ids.
pub record Outside : Type 0 where
  pub signal_clock : Datetime
  pub reservation_clock : Datetime
  pub intent_clock : Datetime
  pub submit_clock : Datetime
  pub release_clock : Datetime
  pub cleanup_clock : Datetime
  pub reservation_id : String
  pub intent_id : String
  pub order_request_id : String

-- The arguments of `process_signal`, with the rules of the engine and the manager's
-- `_ttl_seconds`.
pub record Job : Type 0 where
  pub signal : Signal
  pub account_id : String
  pub reference_price : Decimal
  pub target_quantity : ℤ
  pub risk_context : RiskContext
  pub final_check_context : FinalCheckContext
  pub rules : List RiskRule
  pub ttl_seconds : ℕ

-- `risk_result.resized_quantity` is tested for truth, so 0 counts as absent.
abbrev pub resized_or : ℤ → Option ℤ → ℤ
resized_or target none = target
resized_or target (some q) = if leb_ℤ q (pos 0) && leb_ℤ (pos 0) q then target else q

-- The quantity to go on with; `none` is a delayed signal.
abbrev pub after_risk : RiskResultType → RiskCheckResult → ℤ → Pipeline (Option ℤ)
after_risk reject r target = throw (risk_reject_error r.triggered_rules)
after_risk force_flatten r target = throw (force_flatten_error r.triggered_rules)
after_risk delay r target = pure none
after_risk resize r target = pure (some (resized_or target r.resized_quantity))
after_risk allow r target = pure (some target)

abbrev pub is_opening : SignalType → Bool
is_opening open_long = true
is_opening open_short = true
is_opening _ = false

abbrev pub request_of : Job → ℤ → Request
request_of j quantity = record {
  account_id = j.account_id;
  strategy_instance_id = j.signal.strategy_instance_id;
  amount = j.reference_price *ℤ quantity;
  signal_id = some j.signal.signal_id;
  execution_intent_id = none;
  available_cash = some j.final_check_context.account_available_cash;
  ttl_seconds = j.ttl_seconds;
}

unfoldable pub reserve_opening : Outside → Job → ℤ → Pipeline (Option String)
reserve_opening w j quantity =
    if is_opening j.signal.signal_type && ltb_ℤ (pos 0) j.reference_price
    then (do
      r ← call (reserve w.reservation_id w.reservation_clock (request_of j quantity))
      pure (some r.reservation_id))
    else pure none

-- `if reservation_id: await release(...)`
unfoldable pub release_if : Datetime → Option String → String → Pipeline (Unit {0})
release_if now none reason = pure tt
release_if now (some key) reason =
    if str_eq key "" then pure tt else (do call (release now key reason); pure tt)

-- `side.value`
abbrev pub side_text : Side → String
side_text buy = "buy"
side_text sell = "sell"

abbrev pub populated : FinalCheckContext → Decimal → ℤ → Side → String → FinalCheckContext
populated c price quantity side instrument_id = record c {
  price = price;
  quantity = quantity;
  side = side_text side;
  instrument_id = instrument_id;
}

abbrev pub is_allowed : FinalCheckResult → Bool
is_allowed FinalContext.allow = true
is_allowed _ = false

-- Step 6, or the way out after a refusal.
abbrev pub request_if : Bool → Outside → ExecutionIntent → Pipeline (Option OrderRequest)
request_if true w i = do
  o ← of_answer (convert_to_order_request w.order_request_id w.submit_clock i)
  pure (some o)
request_if false w i = do
  release_if w.release_clock i.reservation_id "Final check failed"
  pure none

abbrev pub checked : Job → ExecutionIntent → FinalCheckContext
checked j i =
    populated j.final_check_context i.reference_price i.target_quantity i.side i.instrument_id

unfoldable pub check_and_request : Outside → Job → ExecutionIntent → Pipeline (Option OrderRequest)
check_and_request w j i = request_if (is_allowed (execute (checked j i)).result) w i

-- Steps 4 to 6, in their `try`.
unfoldable pub protected_steps : Outside → Job → ℤ → Option String → Pipeline (Option OrderRequest)
protected_steps w j quantity reservation_id =
    on_error (release_if w.cleanup_clock reservation_id "Pipeline exception during execution") (do
      i ← of_answer (
          create_execution_intent w.intent_id w.intent_clock j.signal j.account_id j.reference_price
            quantity reservation_id)
      check_and_request w j i)

unfoldable pub go_on : Outside → Job → Option ℤ → Pipeline (Option OrderRequest)
unfolding reserve_opening protected_steps
go_on w j none = pure none
go_on w j (some quantity) = do
  reservation_id ← reserve_opening w j quantity
  protected_steps w j quantity reservation_id

unfoldable pub process_signal : Outside → Job → Pipeline (Option OrderRequest)
unfolding validate_signal_for_live run_pre_trade_risk go_on
process_signal w j = do
  validate_signal_for_live w.signal_clock j.signal
  let verdict = run_pre_trade_risk j.signal j.risk_context j.rules
  quantity ← after_risk verdict.result_type verdict j.target_quantity
  go_on w j quantity

-- What the two callbacks raise is logged and dropped.
unfoldable pub handle_fill : Datetime → Option String → Decimal → Pipeline (Unit {0})
handle_fill now none amount = pure tt
handle_fill now (some key) amount =
    if str_eq key "" then pure tt else swallow (do call (consume now key amount); pure tt)

unfoldable pub handle_order_failed : Datetime → Option String → String → Pipeline (Unit {0})
unfolding release_if
handle_order_failed now key reason = swallow (release_if now key reason)

unfoldable pub submit_order :
    {R : Type 0} → Datetime → Option (OrderRequest → Option R) → OrderRequest → Pipeline (Option R)
unfolding handle_order_failed
submit_order now none o = pure none
submit_order now (some adapter) o = elim (adapter o) [
  | some result ↦ pure (some result)
  | none ↦ (do handle_order_failed now o.reservation_id "QMT submit failed"; pure none)
]
