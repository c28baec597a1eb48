-- ===== src/Reservation/Manager/Lifecycle.antt =====
-- The status of a reservation under `consume`, `release` and `expire_reservations`, against the
-- state machine of src/hqmts/statemachine/reservation_fsm.py.
use hqmts.Prelude.{String, ◌≡◌, inl, inr, refl, true, false, some, arith, Bool-cases}
use hqmts.Prelude.Int.{◌+ℤ◌, leb_ℤ}
use hqmts.Prelude.Decimal.{Decimal, Datetime}
use hqmts.Fsm.Machine.{can_transition, is_terminal}
use hqmts.Fsm.Reservation.{released, ReservationStatus-discrete, active, reservation_fsm}
use hqmts.Reservation.Store.{CashReservationOrm, Store, is_active_row, get_by_id, update}
use hqmts.Reservation.Store.Laws.{get_by_id-key, get_by_id-update_self}
use hqmts.Reservation.Manager.Steps.{consumed_inactive}
use hqmts.Reservation.Manager.{
  err, consume, consumed_row, release, released_row, reservation_expired_error,
}

written :
    (key : String) (new : CashReservationOrm) (s : Store) (r : CashReservationOrm)
    → new.reservation_id ≡ key
    → get_by_id key s ≡ some r
    → get_by_id key (update new s) ≡ some new
written key new s r k f = rw (← k) (get_by_id-update_self new s (rw (← k) at f))

is_active_of : (r : CashReservationOrm) → r.status ≡ active → is_active_row r ≡ true
is_active_of r h = ground arith

consume_inactive :
    (now : Datetime) (key : String) (amount : Decimal) (s : Store) (r : CashReservationOrm)
    → get_by_id key s ≡ some r
    → is_active_row r ≡ false
    → consume now key amount s ≡ (err reservation_expired_error, s)
unfolding consume
consume_inactive now key amount s r found i = rw (found, i)

-- A call of `consume` on a found active row leaves under its key the row with the amount added and
-- the new status.
pub consume-row :
    (now : Datetime) (key : String) (amount : Decimal) (s : Store) (r : CashReservationOrm)
    → get_by_id key s ≡ some r
    → r.status ≡ active
    → get_by_id key (consume now key amount s).1 ≡ some (consumed_row now amount r)
unfolding consume
consume-row now key amount s r found act =
    let k = get_by_id-key key s found in
    rw (found, is_active_of r act) (written key (consumed_row now amount r) s r k found)

consumed_allowed :
    (now : Datetime) (amount : Decimal) (r : CashReservationOrm)
    → r.status ≡ active
    → can_transition reservation_fsm r.status (consumed_row now amount r).status ≡ true
unfolding can_transition ReservationStatus-discrete
consumed_allowed now amount r act =
    rw act (elim (Bool-cases (leb_ℤ r.reserved_amount (r.consumed_amount +ℤ amount))) [
      | inl e ↦ rw e
      | inr e ↦ rw e
    ])

-- A call of `consume` on a found active row leaves a row under its key whose status the machine
-- allows after `active`.
pub consume_follows_fsm :
    (now : Datetime) (key : String) (amount : Decimal) (s : Store) (r : CashReservationOrm)
    → get_by_id key s ≡ some r
    → r.status ≡ active
    → (r' : CashReservationOrm) × (get_by_id key (consume now key amount s).1 ≡ some r')
      × (can_transition reservation_fsm r.status r'.status ≡ true)
consume_follows_fsm now key amount s r found act = (
  consumed_row now amount r,
  consume-row now key amount s r found act,
  consumed_allowed now amount r act,
)

-- A reservation can be consumed once: after a `consume` of a found active row, every further one is
-- refused and changes nothing, also where the first left the row `partially_consumed`.
pub consume_once :
    (now later : Datetime) (key : String) (amount more : Decimal) (s : Store)
    (r : CashReservationOrm)
    → get_by_id key s ≡ some r
    → r.status ≡ active
    → let s' = (consume now key amount s).1 in
      consume later key more s' ≡ (err reservation_expired_error, s')
consume_once now later key amount more s r found act =
    consume_inactive later key more (consume now key amount s).1 (consumed_row now amount r)
      (consume-row now key amount s r found act) (consumed_inactive now amount r)

-- A call of `release` on a found row of a terminal status leaves it `released`, a move that the
-- machine refuses.
pub release_breaks_fsm :
    (now : Datetime) (key reason : String) (s : Store) (r : CashReservationOrm)
    → get_by_id key s ≡ some r
    → is_terminal reservation_fsm r.status ≡ true
    → (r' : CashReservationOrm) × (get_by_id key (release now key reason s).1 ≡ some r')
      × (r'.status ≡ released)
      × (can_transition reservation_fsm r.status r'.status ≡ false)
unfolding release can_transition
release_breaks_fsm now key reason s r found t =
    let k = get_by_id-key key s found in
    let e : get_by_id key (release now key reason s).1 ≡ some (released_row now reason r) =
      rw found (written key (released_row now reason r) s r k found) in
    (released_row now reason r, e, refl, rw t)
