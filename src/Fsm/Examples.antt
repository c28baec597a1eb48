-- ===== src/Fsm/Examples.antt =====
-- The theorems on the state machines at concrete machines and histories.
use hqmts.Prelude.{inl, refl, List, [], ◌∷◌, Memᴰ}
use hqmts.Fsm.Machine.{is_terminal, transition}
use hqmts.Fsm.Machine.Histories.{History, stay, move}
use hqmts.Fsm.Gates.{filled_needs_accepted, executed_needs_policy_and_approval}
use hqmts.Fsm.Order.{OrderStatus, OrderStatus-discrete, order_fsm}
use hqmts.Fsm.Strategy.{StrategyStatus, StrategyStatus-discrete, strategy_fsm}
use hqmts.Fsm.Recovery.{RecoveryStatus, RecoveryStatus-discrete, recovery_fsm}
use hqmts.Fsm.AgentProposal.{ProposalStatus, ProposalStatus-discrete, agent_proposal_fsm}

abbrev order_visited : List OrderStatus
order_visited =
    OrderStatus.pending_submit ∷ OrderStatus.submitted ∷ OrderStatus.accepted
    ∷ OrderStatus.partial_filled ∷ OrderStatus.filled ∷ []

order-History : History order_fsm OrderStatus.created order_visited OrderStatus.filled
unfolding transition is_terminal OrderStatus-discrete
order-History = move refl (move refl (move refl (move refl (move refl stay))))

filled_needs_accepted_example : Memᴰ OrderStatus.accepted order_visited
filled_needs_accepted_example =
    filled_needs_accepted {visited = order_visited} OrderStatus.filled order-History (inl refl)

abbrev recovery_visited : List RecoveryStatus
recovery_visited = RecoveryStatus.verifying ∷ RecoveryStatus.completed ∷ []

recovery-History :
    History recovery_fsm RecoveryStatus.recovering recovery_visited RecoveryStatus.completed
unfolding transition is_terminal RecoveryStatus-discrete
recovery-History = move refl (move refl stay)

abbrev proposal_visited : List ProposalStatus
proposal_visited =
    ProposalStatus.policy_checking ∷ ProposalStatus.pending_approval ∷ ProposalStatus.approved
    ∷ ProposalStatus.execution_pending ∷ ProposalStatus.executed ∷ []

proposal-History :
    History agent_proposal_fsm ProposalStatus.drafted proposal_visited ProposalStatus.executed
unfolding transition is_terminal ProposalStatus-discrete
proposal-History = move refl (move refl (move refl (move refl (move refl stay))))

executed_needs_policy_and_approval_example :
    Memᴰ ProposalStatus.policy_checking proposal_visited
    × Memᴰ ProposalStatus.approved proposal_visited
executed_needs_policy_and_approval_example =
    executed_needs_policy_and_approval {visited = proposal_visited} proposal-History

abbrev strategy_visited : List StrategyStatus
strategy_visited =
    StrategyStatus.backtest_ready ∷ StrategyStatus.validation_ready ∷ StrategyStatus.paper_running
    ∷ StrategyStatus.live_running ∷ []

strategy-History :
    History strategy_fsm StrategyStatus.draft strategy_visited StrategyStatus.live_running
unfolding transition is_terminal StrategyStatus-discrete
strategy-History = move refl (move refl (move refl (move refl stay)))

abbrev no_states : List StrategyStatus
no_states = []
