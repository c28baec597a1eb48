-- ===== src/Fsm/Reservation.antt =====
-- The states of src/hqmts/core/enums.py (`ReservationStatus`) and the machine of
-- src/hqmts/statemachine/reservation_fsm.py. A Python set is written as a list.
use hqmts.Prelude.{List, [], ◌∷◌}
use hqmts.Fsm.Machine.{StateMachine}

pub data ReservationStatus : Type 0 where
  active partially_consumed fully_consumed released expired invalid : ReservationStatus

unfoldable pub ReservationStatus-discrete : Discrete ReservationStatus
ReservationStatus-discrete = hlevel

abbrev pub reservation_transitions : List (ReservationStatus × List ReservationStatus)
reservation_transitions =
    (active, partially_consumed ∷ fully_consumed ∷ released ∷ expired ∷ invalid ∷ [])
    ∷ (partially_consumed, fully_consumed ∷ released ∷ expired ∷ invalid ∷ [])
    ∷ (fully_consumed, [])
    ∷ (released, [])
    ∷ (expired, [])
    ∷ (invalid, [])
    ∷ []

abbrev pub reservation_terminal_states : List ReservationStatus
reservation_terminal_states = fully_consumed ∷ released ∷ expired ∷ invalid ∷ []

abbrev pub reservation_fsm : StateMachine ReservationStatus
reservation_fsm = record {
  entity_type = "CashReservation";
  transitions = reservation_transitions;
  terminal_states = reservation_terminal_states;
  equal = ReservationStatus-discrete;
}
