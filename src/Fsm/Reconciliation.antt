-- ===== src/Fsm/Reconciliation.antt =====
-- The states of src/hqmts/core/enums.py (`ReconciliationStatus`) and the machine of
-- src/hqmts/statemachine/reconciliation_fsm.py. A Python set is written as a list.
use hqmts.Prelude.{List, [], ◌∷◌}
use hqmts.Fsm.Machine.{StateMachine}

pub data ReconciliationStatus : Type 0 where
  initialized comparing matched mismatched adjusting completed failed canceled escalated :
      ReconciliationStatus

unfoldable pub ReconciliationStatus-discrete : Discrete ReconciliationStatus
ReconciliationStatus-discrete = hlevel

abbrev pub reconciliation_transitions : List (ReconciliationStatus × List ReconciliationStatus)
reconciliation_transitions =
    (initialized, comparing ∷ canceled ∷ [])
    ∷ (comparing, matched ∷ mismatched ∷ failed ∷ [])
    ∷ (matched, completed ∷ [])
    ∷ (mismatched, adjusting ∷ escalated ∷ [])
    ∷ (adjusting, completed ∷ failed ∷ [])
    ∷ (completed, [])
    ∷ (failed, [])
    ∷ (canceled, [])
    ∷ (escalated, [])
    ∷ []

abbrev pub reconciliation_terminal_states : List ReconciliationStatus
reconciliation_terminal_states = completed ∷ failed ∷ canceled ∷ escalated ∷ []

abbrev pub reconciliation_fsm : StateMachine ReconciliationStatus
reconciliation_fsm = record {
  entity_type = "Reconciliation";
  transitions = reconciliation_transitions;
  terminal_states = reconciliation_terminal_states;
  equal = ReconciliationStatus-discrete;
}
