-- ===== src/Reservation/Manager.antt =====
-- `class ReservationManager` of src/hqmts/reservation/manager.py and the domain model of
-- src/hqmts/domain/reservation.py. A method is a function of the table; it hands back the table
-- with its result or its error, since what was flushed before a raise stays in the session.
-- The per-account lock makes each call one step. `now`, `new_id` and `clock` stand for
-- `now_shanghai()` and `uuid.uuid4()`.
pub mod Steps
pub mod Reserve
pub mod Solvency
pub mod Lifecycle
pub mod Expiry
use hqmts.Prelude.{
  ℕ, suc, ◌+◌, ◌*◌, String, Bool, false, Option, none, some, List, [], ◌∷◌, if◌then◌else◌, ltb, not,
}
use hqmts.Prelude.Int.{pos, ◌+ℤ◌, ◌-ℤ◌, ltb_ℤ, leb_ℤ}
use hqmts.Prelude.Decimal.{Decimal, Datetime}
use hqmts.Fsm.Reservation.{
  ReservationStatus, active, partially_consumed, fully_consumed, released, expired,
}
use hqmts.Reservation.Store.{
  CashReservationOrm, Store, is_active_row, get_total_reserved_amount, get_expired_reservations,
  get_by_id, create, update,
}

pub record CashReservation : Type 0 where
  pub reservation_id : String
  pub account_id : String
  pub strategy_instance_id : String
  pub signal_id : Option String
  pub execution_intent_id : Option String
  pub reserved_amount : Decimal
  pub consumed_amount : Decimal
  pub status : ReservationStatus
  pub expires_at : Datetime
  pub released_reason : String
  pub created_at : Datetime
  pub updated_at : Datetime

-- `CashReservation.remaining_amount`
unfoldable pub remaining_amount : CashReservation → Decimal
remaining_amount r = r.reserved_amount -ℤ r.consumed_amount

-- `CashReservation.is_expired(now)`
unfoldable pub is_expired : Datetime → CashReservation → Bool
is_expired now r = ltb r.expires_at now

-- `CashReservation.is_active()` and `can_consume(amount)`, at the given time
unfoldable pub is_active : Datetime → CashReservation → Bool
unfolding is_expired
is_active now r = elim r.status [ active ↦ not (is_expired now r) | _ ↦ false ]

unfoldable pub can_consume : Datetime → Decimal → CashReservation → Bool
unfolding is_active remaining_amount
can_consume now amount r =
    if not (is_active now r) then false else leb_ℤ amount (remaining_amount r)

-- What a method raises: ValueError, InsufficientFundsError, ReservationExpiredError, pydantic's
-- ValidationError, the database's IntegrityError.
pub data Error : Type 0 where
  value_error insufficient_funds_error reservation_expired_error validation_error integrity_error :
      Error

pub data Result {ℓ} (A : Type ℓ) : Type ℓ where
  ok : A → Result A
  err : Error → Result A

abbrev pub Action : Type 0 → Type 0
Action A = Store → Result A × Store

infixl 5 ◌>>=◌ ◌>>◌
abbrev pub ◌>>=◌ : {A B : Type 0} → Action A → (A → Action B) → Action B
◌>>=◌ m f s = let (r, s') = m s in elim r [ ok a ↦ f a s' | err e ↦ (err e, s') ]

abbrev pub ◌>>◌ : {A B : Type 0} → Action A → Action B → Action B
m >> k = m >>= λ _. k

abbrev pub pure : {A : Type 0} → A → Action A
pure a s = (ok a, s)

abbrev pub raise_if : Bool → Error → Action (Unit {0})
raise_if c e s = (if c then err e else ok tt, s)

abbrev pub or_raise : {A : Type 0} → Option A → Error → Action A
or_raise none e s = (err e, s)
or_raise (some a) e s = (ok a, s)

abbrev pub gets : {A : Type 0} → (Store → A) → Action A
gets f s = (ok (f s), s)

abbrev pub modify : (Store → Store) → Action (Unit {0})
modify f s = (ok tt, f s)

-- The model that a method builds of a row, with the reason that it passes, if any. The fields
-- `reserved_amount` and `consumed_amount` are declared `ge=0`.
abbrev pub to_domain : String → CashReservationOrm → Result CashReservation
to_domain reason r =
    if ltb_ℤ r.reserved_amount (pos 0)
    then err validation_error
    else if ltb_ℤ r.consumed_amount (pos 0)
    then err validation_error
    else ok (record {
      reservation_id = r.reservation_id;
      account_id = r.account_id;
      strategy_instance_id = r.strategy_instance_id;
      signal_id = r.signal_id;
      execution_intent_id = r.execution_intent_id;
      reserved_amount = r.reserved_amount;
      consumed_amount = r.consumed_amount;
      status = r.status;
      expires_at = r.expires_at;
      released_reason = reason;
      created_at = r.created_at;
      updated_at = r.updated_at;
    })

abbrev pub validated : String → CashReservationOrm → Action CashReservation
validated reason r s = (to_domain reason r, s)

abbrev insert : CashReservationOrm → Action (Unit {0})
insert r s = elim (create r s) [ none ↦ (err integrity_error, s) | some s' ↦ (ok tt, s') ]

unfoldable pub get_effective_available_cash : String → Option Decimal → Action Decimal
get_effective_available_cash account available_cash = do
  cash ← or_raise available_cash value_error
  total ← gets (get_total_reserved_amount account)
  pure (cash -ℤ total)

-- The arguments of `reserve`, with the manager's `_ttl_seconds`.
pub record Request : Type 0 where
  pub account_id : String
  pub strategy_instance_id : String
  pub amount : Decimal
  pub signal_id : Option String
  pub execution_intent_id : Option String
  pub available_cash : Option Decimal
  pub ttl_seconds : ℕ

-- The database stamps the row; its clock is read as the same `now`.
abbrev pub new_row : String → Datetime → Request → CashReservationOrm
new_row new_id now q = record {
  reservation_id = new_id;
  account_id = q.account_id;
  strategy_instance_id = q.strategy_instance_id;
  signal_id = q.signal_id;
  execution_intent_id = q.execution_intent_id;
  reserved_amount = q.amount;
  consumed_amount = pos 0;
  status = active;
  expires_at = now + q.ttl_seconds * 1_000_000;
  released_reason = "";
  created_at = now;
  updated_at = now;
}

unfoldable pub reserve : String → Datetime → Request → Action CashReservation
reserve new_id now q = do
  cash ← or_raise q.available_cash value_error
  total ← gets (get_total_reserved_amount q.account_id)
  raise_if (ltb_ℤ (cash -ℤ total) q.amount) insufficient_funds_error
  reservation ← validated "" (new_row new_id now q)
  insert (new_row new_id now q)
  pure reservation

abbrev pub consumed_row : Datetime → Decimal → CashReservationOrm → CashReservationOrm
consumed_row now amount r =
    let new_consumed : Decimal = r.consumed_amount +ℤ amount in
    record r {
      consumed_amount = new_consumed;
      status = if leb_ℤ r.reserved_amount new_consumed then fully_consumed else partially_consumed;
      updated_at = now;
    }

unfoldable pub consume : Datetime → String → Decimal → Action CashReservation
consume now reservation_id amount = do
  r ← or_raise (← gets (get_by_id reservation_id)) reservation_expired_error
  raise_if (not (is_active_row r)) reservation_expired_error
  modify (update (consumed_row now amount r))
  validated "" (consumed_row now amount r)

abbrev pub released_row : Datetime → String → CashReservationOrm → CashReservationOrm
released_row now reason r = record r {
  status = released;
  released_reason = reason;
  updated_at = now;
}

unfoldable pub release : Datetime → String → String → Action CashReservation
release now reservation_id reason = do
  r ← or_raise (← gets (get_by_id reservation_id)) reservation_expired_error
  modify (update (released_row now reason r))
  validated reason (released_row now reason r)

abbrev pub expired_row : Datetime → CashReservationOrm → CashReservationOrm
expired_row now r = record r { status = expired; updated_at = now }

-- `results.append(...)`, and what the rest of the loop makes of it.
abbrev append_result :
    Result CashReservation
    → Store
    → Result (List CashReservation) × Store
    → Result (List CashReservation) × Store
append_result (err e) s rest = (err e, s)
append_result (ok d) s (ok ds, s') = (ok (d ∷ ds), s')
append_result (ok d) s (err e, s') = (err e, s')

-- The loop over the rows found; `clock i` is the i-th reading of the clock.
expire_rows : (ℕ → Datetime) → ℕ → List CashReservationOrm → Action (List CashReservation)
expire_rows clock i [] s = (ok [], s)
expire_rows clock i (r ∷ rows) s =
    let res = expired_row (clock i) r in
    let s' = update res s in append_result (to_domain "" res) s' (expire_rows clock (suc i) rows s')

unfoldable pub expire_reservations : (ℕ → Datetime) → Action (List CashReservation)
unfolding expire_rows
expire_reservations clock s = expire_rows clock 1 (get_expired_reservations (clock 0) s) s
