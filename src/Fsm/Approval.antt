-- ===== src/Fsm/Approval.antt =====
-- The states of src/hqmts/core/enums.py (`ApprovalStatus`) and the machine of
-- src/hqmts/statemachine/approval_fsm.py. A Python set is written as a list.
use hqmts.Prelude.{List, [], ◌∷◌}
use hqmts.Fsm.Machine.{StateMachine}

pub data ApprovalStatus : Type 0 where
  pending approved rejected expired canceled : ApprovalStatus

unfoldable pub ApprovalStatus-discrete : Discrete ApprovalStatus
ApprovalStatus-discrete = hlevel

abbrev pub approval_transitions : List (ApprovalStatus × List ApprovalStatus)
approval_transitions =
    (pending, approved ∷ rejected ∷ expired ∷ canceled ∷ [])
    ∷ (approved, [])
    ∷ (rejected, [])
    ∷ (expired, [])
    ∷ (canceled, [])
    ∷ []

abbrev pub approval_terminal_states : List ApprovalStatus
approval_terminal_states = approved ∷ rejected ∷ expired ∷ canceled ∷ []

abbrev pub approval_fsm : StateMachine ApprovalStatus
approval_fsm = record {
  entity_type = "ApprovalRequest";
  transitions = approval_transitions;
  terminal_states = approval_terminal_states;
  equal = ApprovalStatus-discrete;
}
