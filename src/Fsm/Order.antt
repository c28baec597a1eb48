-- ===== src/Fsm/Order.antt =====
-- The states of src/hqmts/core/enums.py (`OrderStatus`) and the machine of
-- src/hqmts/statemachine/order_fsm.py. A Python set is written as a list.
use hqmts.Prelude.{List, [], ◌∷◌}
use hqmts.Fsm.Machine.{StateMachine}

pub data OrderStatus : Type 0 where
  created pending_submit submitted accepted partial_filled filled canceled rejected error suspended
        expired :
      OrderStatus

unfoldable pub OrderStatus-discrete : Discrete OrderStatus
OrderStatus-discrete = hlevel

abbrev pub order_transitions : List (OrderStatus × List OrderStatus)
order_transitions =
    (created, pending_submit ∷ canceled ∷ [])
    ∷ (pending_submit, submitted ∷ canceled ∷ [])
    ∷ (submitted, accepted ∷ rejected ∷ canceled ∷ [])
    ∷ (accepted, partial_filled ∷ filled ∷ canceled ∷ [])
    ∷ (partial_filled, partial_filled ∷ filled ∷ canceled ∷ [])
    ∷ (filled, [])
    ∷ (canceled, [])
    ∷ (rejected, [])
    ∷ (error, accepted ∷ partial_filled ∷ filled ∷ canceled ∷ rejected ∷ expired ∷ [])
    ∷ (suspended, accepted ∷ canceled ∷ [])
    ∷ (expired, [])
    ∷ []

abbrev pub order_terminal_states : List OrderStatus
order_terminal_states = filled ∷ canceled ∷ rejected ∷ expired ∷ []

abbrev pub order_fsm : StateMachine OrderStatus
order_fsm = record {
  entity_type = "Order";
  transitions = order_transitions;
  terminal_states = order_terminal_states;
  equal = OrderStatus-discrete;
}
