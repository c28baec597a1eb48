-- ===== src/Fsm/AgentProposal.antt =====
-- The states of src/hqmts/core/enums.py (`ProposalStatus`) and the machine of
-- src/hqmts/statemachine/agent_proposal_fsm.py. A Python set is written as a list.
use hqmts.Prelude.{List, [], ◌∷◌}
use hqmts.Fsm.Machine.{StateMachine}

pub data ProposalStatus : Type 0 where
  drafted policy_checking policy_rejected pending_approval approved rejected execution_pending
        executed execution_failed expired canceled :
      ProposalStatus

unfoldable pub ProposalStatus-discrete : Discrete ProposalStatus
ProposalStatus-discrete = hlevel

abbrev pub agent_proposal_transitions : List (ProposalStatus × List ProposalStatus)
agent_proposal_transitions =
    (drafted, policy_checking ∷ canceled ∷ [])
    ∷ (policy_checking, policy_rejected ∷ pending_approval ∷ approved ∷ canceled ∷ [])
    ∷ (policy_rejected, [])
    ∷ (pending_approval, approved ∷ rejected ∷ expired ∷ canceled ∷ [])
    ∷ (approved, execution_pending ∷ [])
    ∷ (rejected, [])
    ∷ (execution_pending, executed ∷ execution_failed ∷ expired ∷ [])
    ∷ (executed, [])
    ∷ (execution_failed, [])
    ∷ (expired, [])
    ∷ (canceled, [])
    ∷ []

abbrev pub agent_proposal_terminal_states : List ProposalStatus
agent_proposal_terminal_states =
    policy_rejected ∷ rejected ∷ executed ∷ execution_failed ∷ expired ∷ canceled ∷ []

abbrev pub agent_proposal_fsm : StateMachine ProposalStatus
agent_proposal_fsm = record {
  entity_type = "AgentProposal";
  transitions = agent_proposal_transitions;
  terminal_states = agent_proposal_terminal_states;
  equal = ProposalStatus-discrete;
}
