-- ===== src/Fsm/ControlledExecution.antt =====
-- The states of src/hqmts/core/enums.py (`ExecutionStatus`) and the machine of
-- src/hqmts/statemachine/controlled_execution_fsm.py. A Python set is written as a list.
use hqmts.Prelude.{List, [], ◌∷◌}
use hqmts.Fsm.Machine.{StateMachine}

pub data ExecutionStatus : Type 0 where
  pending executing completed failed expired : ExecutionStatus

unfoldable pub ExecutionStatus-discrete : Discrete ExecutionStatus
ExecutionStatus-discrete = hlevel

abbrev pub controlled_execution_transitions : List (ExecutionStatus × List ExecutionStatus)
controlled_execution_transitions =
    (pending, executing ∷ expired ∷ [])
    ∷ (executing, completed ∷ failed ∷ [])
    ∷ (completed, [])
    ∷ (failed, [])
    ∷ (expired, [])
    ∷ []

abbrev pub controlled_execution_terminal_states : List ExecutionStatus
controlled_execution_terminal_states = completed ∷ failed ∷ expired ∷ []

abbrev pub controlled_execution_fsm : StateMachine ExecutionStatus
controlled_execution_fsm = record {
  entity_type = "ControlledExecution";
  transitions = controlled_execution_transitions;
  terminal_states = controlled_execution_terminal_states;
  equal = ExecutionStatus-discrete;
}
