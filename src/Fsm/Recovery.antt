-- ===== src/Fsm/Recovery.antt =====
-- The states of src/hqmts/core/enums.py (`RecoveryStatus`) and the machine of
-- src/hqmts/statemachine/recovery_fsm.py. A Python set is written as a list.
use hqmts.Prelude.{List, [], ◌∷◌}
use hqmts.Fsm.Machine.{StateMachine}

pub data RecoveryStatus : Type 0 where
  created diagnosing recovering verifying completed failed canceled : RecoveryStatus

unfoldable pub RecoveryStatus-discrete : Discrete RecoveryStatus
RecoveryStatus-discrete = hlevel

abbrev pub recovery_transitions : List (RecoveryStatus × List RecoveryStatus)
recovery_transitions =
    (created, diagnosing ∷ canceled ∷ [])
    ∷ (diagnosing, recovering ∷ failed ∷ canceled ∷ [])
    ∷ (recovering, verifying ∷ failed ∷ [])
    ∷ (verifying, completed ∷ recovering ∷ failed ∷ [])
    ∷ (completed, [])
    ∷ (failed, [])
    ∷ (canceled, [])
    ∷ []

abbrev pub recovery_terminal_states : List RecoveryStatus
recovery_terminal_states = completed ∷ failed ∷ canceled ∷ []

abbrev pub recovery_fsm : StateMachine RecoveryStatus
recovery_fsm = record {
  entity_type = "Recovery";
  transitions = recovery_transitions;
  terminal_states = recovery_terminal_states;
  equal = RecoveryStatus-discrete;
}
