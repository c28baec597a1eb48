-- ===== src/Risk/ForceFlatten.antt =====
-- `class ForceFlattenService` of src/hqmts/risk/force_flatten.py. The rows of the position
-- repository are an argument, `none` where no repository is configured; the order service is one
-- too, as the answer to each submission, `false` for a call that raises. The trigger, its reason,
-- the times, the ids of orders and the error texts are left out: no code reads them.
pub mod Progress
pub mod Retries
use hqmts.Prelude.{
  ℕ, ◌+◌, String, Bool, true, false, ◌&&◌, Option, none, some, List, [], ◌∷◌, map, if◌then◌else◌,
  ltb, length,
}
use hqmts.Prelude.Int.{ℤ, pos, ◌+ℤ◌, ◌-ℤ◌, max_ℤ, ltb_ℤ, leb_ℤ}
use hqmts.Prelude.Decimal.{Decimal, Datetime, unit}
use hqmts.Fsm.Strategy.{close_only}
use hqmts.Risk.FinalContext.{FinalCheckContext, FinalCheckResult, allow}
use hqmts.Risk.FinalCheck.{execute}
use hqmts.Backtest.Portfolio.{lookup, insert}

-- What the service reads of a row; a row without `today_bought_quantity` counts as 0.
pub record OpenPosition : Type 0 where
  pub instrument_id : String
  pub total_quantity : ℤ
  pub available_quantity : ℤ
  pub today_bought_quantity : Option ℤ

pub data TaskStatus : Type 0 where
  pending skipped_t1 submitted failed : TaskStatus

pub record FlattenPositionTask : Type 0 where
  pub instrument_id : String
  pub total_quantity : ℤ
  pub available_quantity : ℤ
  pub today_bought_quantity : ℤ
  pub sellable_quantity : ℤ
  pub order_status : TaskStatus
  pub attempts : ℕ

pub record FlattenProgress : Type 0 where
  pub total_positions : ℤ
  pub flattened_positions : ℤ
  pub remaining_positions : ℤ
  pub failed_positions : ℤ
  pub skipped_positions : ℤ
  pub tasks : List FlattenPositionTask

unfoldable pub is_complete : FlattenProgress → Bool
is_complete p = leb_ℤ p.remaining_positions (pos 0) && leb_ℤ (pos 0) p.remaining_positions

abbrev pub or_zero : Option ℤ → ℤ
or_zero none = pos 0
or_zero (some q) = q

-- The task that steps 2 and 3 build of a row; a quantity that cannot be sold today is skipped.
unfoldable pub build_task : OpenPosition → FlattenPositionTask
build_task p =
    let bought = or_zero p.today_bought_quantity in
    let sellable : ℤ = max_ℤ (pos 0) (p.available_quantity -ℤ bought) in
    record {
      instrument_id = p.instrument_id;
      total_quantity = p.total_quantity;
      available_quantity = p.available_quantity;
      today_bought_quantity = bought;
      sellable_quantity = sellable;
      order_status = if ltb_ℤ (pos 0) sellable then pending else skipped_t1;
      attempts = 0;
    }

unfoldable pub flatten_context : Datetime → FlattenPositionTask → FinalCheckContext
flatten_context now t = record {
  strategy_status = some close_only;
  signal_valid_until = none;
  intent_created_at = none;
  qmt_adapter_available = some true;
  account_risk_status = some "normal";
  account_available_cash = pos 0;
  available_quantity = t.available_quantity;
  required_quantity = t.sellable_quantity;
  today_bought_quantity = t.today_bought_quantity;
  side = "sell";
  reservation_status = none;
  reservation_expires_at = none;
  has_conflicting_inflight = some false;
  kill_switch_active = some true;
  close_only_mode = true;
  pause_open_mode = false;
  orders_last_minute = pos 0;
  max_orders_per_minute = pos 10;
  price = pos unit;
  quantity = t.sellable_quantity;
  instrument_id = t.instrument_id;
  source_is_deterministic = true;
  request_from_execution_service = true;
  is_flatten = true;
  check_time = now;
  stale_price_threshold_seconds = pos 30;
  reference_price_age_seconds = pos 0;
}

abbrev pub Submit : Type 0
Submit = Option (FlattenPositionTask → Bool)

abbrev pub submitted_by : Submit → FlattenPositionTask → Bool
submitted_by none t = true
submitted_by (some submit) t = submit t

abbrev pub may_submit : FinalCheckResult → Bool
may_submit allow = true
may_submit _ = false

unfoldable pub execute_flatten_order : Datetime → Submit → FlattenPositionTask → Bool
unfolding flatten_context
execute_flatten_order now submit t =
    may_submit (execute (flatten_context now t)).result && submitted_by submit t

-- The body of the loops: one more attempt, and its result.
unfoldable pub attempt : Datetime → Submit → FlattenPositionTask → FlattenPositionTask
unfolding execute_flatten_order
attempt now submit t =
    let t' = record t { attempts = t.attempts + 1 } in
    record t' { order_status = if execute_flatten_order now submit t' then submitted else failed }

abbrev pub is_submitted : FlattenPositionTask → Bool
is_submitted t = elim t.order_status [ submitted ↦ true | _ ↦ false ]

abbrev pub is_failed : FlattenPositionTask → Bool
is_failed t = elim t.order_status [ failed ↦ true | _ ↦ false ]

abbrev pub is_skipped : FlattenPositionTask → Bool
is_skipped t = elim t.order_status [ skipped_t1 ↦ true | _ ↦ false ]

abbrev pub count : (FlattenPositionTask → Bool) → List FlattenPositionTask → ℤ
count test [] = pos 0
count test (t ∷ tasks) = (if test t then pos 1 else pos 0) +ℤ count test tasks

abbrev pub is_sellable : FlattenPositionTask → Bool
is_sellable t = ltb_ℤ (pos 0) t.sellable_quantity

-- What the loop counts after an attempt.
abbrev pub counted : FlattenPositionTask → FlattenProgress → FlattenProgress
counted t p =
    if is_submitted t
    then record p {
      flattened_positions = p.flattened_positions +ℤ pos 1;
      remaining_positions = p.remaining_positions -ℤ pos 1;
    }
    else record p {
      failed_positions = p.failed_positions +ℤ pos 1;
      remaining_positions = p.remaining_positions -ℤ pos 1;
    }

-- Steps 4 to 6. The tasks are objects of the progress, so the loop over the sellable ones changes
-- them in their places.
unfoldable pub submit_each :
    Datetime
    → Submit
    → List FlattenPositionTask
    → FlattenProgress
    → List FlattenPositionTask × FlattenProgress
unfolding attempt
submit_each now submit [] p = ([], p)
submit_each now submit (t ∷ tasks) p =
    let t' = if is_sellable t then attempt now submit t else t in
    let (tasks', p') = submit_each now submit tasks (if is_sellable t then counted t' p else p) in
    (t' ∷ tasks', p')

abbrev pub built : List FlattenPositionTask → FlattenProgress
built tasks = record {
  total_positions = pos (length tasks);
  flattened_positions = pos 0;
  remaining_positions = count is_sellable tasks;
  failed_positions = pos 0;
  skipped_positions = count is_skipped tasks;
  tasks = tasks;
}

unfoldable pub execute_flatten : Datetime → Submit → Option (List OpenPosition) → FlattenProgress
unfolding build_task submit_each
execute_flatten now submit none = built []
execute_flatten now submit (some positions) =
    let (tasks, p) =
      submit_each now submit (map build_task positions) (built (map build_task positions)) in
    record p { tasks = tasks }

-- What the loop of `retry_failed` counts; a second failure counts nothing.
abbrev pub recounted : FlattenPositionTask → FlattenProgress → FlattenProgress
recounted t p =
    if is_submitted t
    then record p {
      flattened_positions = p.flattened_positions +ℤ pos 1;
      failed_positions = p.failed_positions -ℤ pos 1;
    }
    else p

abbrev pub retries : ℕ → FlattenPositionTask → Bool
retries max_retries t = is_failed t && ltb t.attempts max_retries

unfoldable pub retry_each :
    ℕ
    → Datetime
    → Submit
    → List FlattenPositionTask
    → FlattenProgress
    → List FlattenPositionTask × FlattenProgress
unfolding attempt
retry_each max_retries now submit [] p = ([], p)
retry_each max_retries now submit (t ∷ tasks) p =
    let t' = if retries max_retries t then attempt now submit t else t in
    let (tasks', p') =
      retry_each max_retries now submit tasks
        (if retries max_retries t then recounted t' p else p) in
    (t' ∷ tasks', p')

unfoldable pub retry : ℕ → Datetime → Submit → FlattenProgress → FlattenProgress
unfolding retry_each
retry max_retries now submit p =
    let (tasks, p') = retry_each max_retries now submit p.tasks p in record p' { tasks = tasks }

-- `_active_flattens`
abbrev pub ActiveFlattens : Type 0
ActiveFlattens = List (String × FlattenProgress)

-- `none` is `None`, for an id that is not there.
unfoldable pub retry_failed :
    ℕ → Datetime → Submit → String → ActiveFlattens → Option FlattenProgress × ActiveFlattens
unfolding retry
retry_failed max_retries now submit flatten_id active = elim (lookup flatten_id active) [
  | none ↦ (none, active)
  | some p ↦ let p' = retry max_retries now submit p in (some p', insert flatten_id p' active)
]
