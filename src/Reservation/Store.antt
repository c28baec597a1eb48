-- ===== src/Reservation/Store.antt =====
-- The rows of `cash_reservations` (src/hqmts/db/models/reservation.py) and the queries of
-- src/hqmts/db/repositories/reservation_repo.py. The table is the list of its rows. Amounts have at
-- most the four decimals that the columns Numeric(18, 4) hold: the rounding of others is not
-- modelled.
pub mod Laws
use hqmts.Prelude.{
  String, ◌≡◌, Bool, true, false, ◌&&◌, ◌||◌, Option, none, some, List, [], ◌∷◌, ◌++◌,
  if◌then◌else◌, keep, any, decided, ltb,
}
use hqmts.Prelude.Int.{ℤ, pos, ◌+ℤ◌}
use hqmts.Prelude.Decimal.{Decimal, Datetime}
use text.Mathlib.Text.{◌==◌ as str_eq}
use hqmts.Fsm.Reservation.{ReservationStatus, ReservationStatus-discrete, active}

pub record CashReservationOrm : Type 0 where
  pub reservation_id : String
  pub account_id : String
  pub strategy_instance_id : String
  pub signal_id : Option String
  pub execution_intent_id : Option String
  pub reserved_amount : Decimal
  pub consumed_amount : Decimal
  pub status : ReservationStatus
  pub expires_at : Datetime
  pub released_reason : String
  pub created_at : Datetime
  pub updated_at : Datetime

abbrev pub Store : Type 0
Store = List CashReservationOrm

abbrev pub is_active_row : CashReservationOrm → Bool
is_active_row r = elim r.status [ active ↦ true | _ ↦ false ]

-- The two conditions of the query for the sum.
abbrev pub counts_for : String → CashReservationOrm → Bool
counts_for account r = str_eq r.account_id account && is_active_row r

-- `coalesce(sum(reserved_amount), 0)` over the active rows of an account
unfoldable pub get_total_reserved_amount : String → Store → Decimal
get_total_reserved_amount account [] = pos 0
get_total_reserved_amount account (r ∷ rows) =
    let rest = get_total_reserved_amount account rows in
    if counts_for account r then r.reserved_amount +ℤ rest else rest

abbrev pub has_expired : Datetime → CashReservationOrm → Bool
has_expired now r = is_active_row r && ltb r.expires_at now

unfoldable pub get_expired_reservations : Datetime → Store → List CashReservationOrm
get_expired_reservations now rows = keep (has_expired now) rows

-- `BaseRepository.get_by_id`: the primary key is `reservation_id`.
unfoldable pub get_by_id : String → Store → Option CashReservationOrm
get_by_id key [] = none
get_by_id key (r ∷ rows) =
    let rest = get_by_id key rows in if str_eq r.reservation_id key then some r else rest

-- The unique index on (account_id, execution_intent_id); in SQL a null differs from every null.
abbrev same_intent : Option String → Option String → Bool
same_intent none o = false
same_intent (some a) none = false
same_intent (some a) (some b) = str_eq a b

abbrev pub conflicts : CashReservationOrm → CashReservationOrm → Bool
conflicts new r =
    str_eq r.reservation_id new.reservation_id
    || str_eq r.account_id new.account_id
      && same_intent r.execution_intent_id new.execution_intent_id

-- `BaseRepository.create`: the insert is flushed, and `none` is the database's IntegrityError.
unfoldable pub create : CashReservationOrm → Store → Option Store
create new rows = if any (conflicts new) rows then none else some (new ∷ rows)

-- `BaseRepository.update`: the loaded row was mutated, and the flush writes it back by its key.
unfoldable pub update : CashReservationOrm → Store → Store
update new [] = []
update new (r ∷ rows) =
    let rest = update new rows in
    if str_eq r.reservation_id new.reservation_id then new ∷ rest else r ∷ rest
