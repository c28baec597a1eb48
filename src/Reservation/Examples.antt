-- ===== src/Reservation/Examples.antt =====
-- The theorems on reservations at concrete tables and calls.
use hqmts.Prelude.{ℕ, ◌≡◌, ◌↔◌, refl, true, false, none, some, List, [], ◌∷◌, arith}
use hqmts.Prelude.Int.{ℤ, pos, ◌+ℤ◌, ◌-ℤ◌, ◌≤ℤ◌, ◌<ℤ◌}
use hqmts.Prelude.Decimal.{Decimal, Datetime}
use hqmts.Fsm.Machine.{can_transition, is_terminal}
use hqmts.Fsm.Reservation.{
  active, fully_consumed, released, ReservationStatus-discrete, reservation_fsm,
}
use hqmts.Reservation.Store.{
  CashReservationOrm, Store, get_total_reserved_amount, get_by_id, get_expired_reservations, create,
}
use hqmts.Reservation.Manager.{
  ok, err, CashReservation, Request, new_row, reserve, consume, release, insufficient_funds_error,
  reservation_expired_error,
}
use hqmts.Reservation.Manager.Reserve.{reserve_covered, reserve_decided}
use hqmts.Reservation.Manager.Solvency.{
  reserve_call, consume_call, expire_call, Solvent, perform_all, perform_all-Solvent,
}
use hqmts.Reservation.Manager.{expire_reservations}
use hqmts.Reservation.Manager.Expiry.{expire_reservations_completes}
use hqmts.Reservation.Manager.Lifecycle.{consume_follows_fsm, consume_once, release_breaks_fsm}

abbrev request : ℤ → Request
request amount = record {
  account_id = "A";
  strategy_instance_id = "S";
  amount = amount;
  signal_id = none;
  execution_intent_id = some "I";
  available_cash = some (pos 100);
  ttl_seconds = 60;
}

abbrev small : Request
small = request (pos 30)

abbrev row : CashReservationOrm
row = new_row "r1" 7 small

abbrev one_row : Store
one_row = row ∷ []

abbrev returned : CashReservation
returned = record {
  reservation_id = "r1";
  account_id = "A";
  strategy_instance_id = "S";
  signal_id = none;
  execution_intent_id = some "I";
  reserved_amount = pos 30;
  consumed_amount = pos 0;
  status = active;
  expires_at = 60_000_007;
  released_reason = "";
  created_at = 7;
  updated_at = 7;
}

reserve_one : reserve "r1" 7 small [] ≡ (ok returned, one_row)
unfolding reserve create get_total_reserved_amount ◌-ℤ◌
reserve_one = refl

reserve_covered_example :
    (pos 0 ≤ℤ small.amount)
    × (get_total_reserved_amount "A" one_row ≡ pos 30 +ℤ get_total_reserved_amount "A" [])
    × (cash : Decimal) × (small.available_cash ≡ some cash)
    × (get_total_reserved_amount "A" one_row ≤ℤ cash)
reserve_covered_example = reserve_covered "r1" 7 small [] one_row returned reserve_one

abbrev second : Request
second = record (request (pos 40)) { execution_intent_id = some "J" }

reserve_decided_example :
    (((r : CashReservation) × (reserve "r2" 9 second one_row
          ≡ (ok r, new_row "r2" 9 second ∷ one_row)))
      ↔ (pos 40 ≤ℤ pos 100 -ℤ get_total_reserved_amount "A" one_row))
    × ((reserve "r2" 9 second one_row ≡ (err insufficient_funds_error, one_row))
        ↔ (pos 100 -ℤ get_total_reserved_amount "A" one_row <ℤ pos 40))
reserve_decided_example = reserve_decided "r2" 9 second one_row (pos 100) refl (omega arith) refl

abbrev clock : ℕ → Datetime
clock i = 90_000_000

perform_all-Solvent_example : Solvent "A" (pos 100) (
    perform_all
      (reserve_call "r1" 7 small ∷ consume_call 8 "r1" (pos 10) ∷ expire_call clock ∷ [])
      [])
unfolding get_total_reserved_amount ◌-ℤ◌ ◌+ℤ◌
perform_all-Solvent_example =
    perform_all-Solvent "A" (pos 100)
      (reserve_call "r1" 7 small ∷ consume_call 8 "r1" (pos 10) ∷ expire_call clock ∷ []) []
      ((λ e c g. ground arith), (tt, (tt, tt))) (record { valid = tt; within = omega arith })

consume_follows_fsm_example :
    (r' : CashReservationOrm) × (get_by_id "r1" (consume 8 "r1" (pos 10) one_row).1 ≡ some r')
    × (can_transition reservation_fsm row.status r'.status ≡ true)
unfolding get_by_id
consume_follows_fsm_example = consume_follows_fsm 8 "r1" (pos 10) one_row row refl refl

consume_once_example :
    consume 9 "r1" (pos 20) (consume 8 "r1" (pos 10) one_row).1
    ≡ (err reservation_expired_error, (consume 8 "r1" (pos 10) one_row).1)
unfolding get_by_id
consume_once_example = consume_once 8 9 "r1" (pos 10) (pos 20) one_row row refl refl

abbrev spent : CashReservationOrm
spent = record row { status = fully_consumed }

release_breaks_fsm_example :
    (r' : CashReservationOrm) × (get_by_id "r1" (release 9 "r1" "cancel" (spent ∷ [])).1 ≡ some r')
    × (r'.status ≡ released)
    × (can_transition reservation_fsm fully_consumed r'.status ≡ false)
unfolding get_by_id is_terminal ReservationStatus-discrete
release_breaks_fsm_example = release_breaks_fsm 9 "r1" "cancel" (spent ∷ []) spent refl refl

expire_reservations_completes_example :
    ((ds : List CashReservation) × ((expire_reservations clock one_row).0 ≡ ok ds))
    × (get_expired_reservations (clock 0) (expire_reservations clock one_row).1 ≡ [])
expire_reservations_completes_example =
    expire_reservations_completes clock one_row ((omega arith, omega arith), tt)
