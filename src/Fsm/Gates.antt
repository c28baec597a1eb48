-- ===== src/Fsm/Gates.antt =====
-- What every history of a machine must have passed through: no order is filled unseen by the
-- broker, no recovery completes unverified, no proposal is approved unchecked, no strategy goes
-- live without a paper run.
use hqmts.Prelude.{◌≡◌, refl, ◌⊎◌, ◌≢◌, arith, Bool, true, false, List, Memᴰ}
use hqmts.Fsm.Machine.Histories.{History, History-gate}
use hqmts.Fsm.Order.{OrderStatus, OrderStatus-discrete, order_fsm}
use hqmts.Fsm.Strategy.{StrategyStatus, StrategyStatus-discrete, strategy_fsm}
use hqmts.Fsm.Recovery.{RecoveryStatus, RecoveryStatus-discrete, recovery_fsm}
use hqmts.Fsm.AgentProposal.{ProposalStatus, ProposalStatus-discrete, agent_proposal_fsm}

abbrev before_accepted : OrderStatus → Bool
before_accepted OrderStatus.created = true
before_accepted OrderStatus.pending_submit = true
before_accepted OrderStatus.submitted = true
before_accepted OrderStatus.canceled = true
before_accepted OrderStatus.rejected = true
before_accepted _ = false

-- Every history of an order from `created` to `filled` or `partial_filled` has passed through
-- `accepted`.
pub filled_needs_accepted :
    {visited : List OrderStatus} (t : OrderStatus)
    → History order_fsm OrderStatus.created visited t
    → (t ≡ OrderStatus.filled) ⊎ (t ≡ OrderStatus.partial_filled)
    → Memᴰ OrderStatus.accepted visited
unfolding OrderStatus-discrete
filled_needs_accepted t h e =
    History-gate order_fsm OrderStatus.accepted before_accepted refl refl (ground arith) h

abbrev before_verifying : RecoveryStatus → Bool
before_verifying RecoveryStatus.verifying = false
before_verifying RecoveryStatus.completed = false
before_verifying _ = true

-- Every history of a recovery session that ends in `completed`, wherever else it began, has passed
-- through `verifying`.
pub completed_needs_verifying :
    {visited : List RecoveryStatus} (s : RecoveryStatus)
    → s ≢ RecoveryStatus.verifying
    → s ≢ RecoveryStatus.completed
    → History recovery_fsm s visited RecoveryStatus.completed
    → Memᴰ RecoveryStatus.verifying visited
unfolding RecoveryStatus-discrete
completed_needs_verifying s v c h =
    History-gate recovery_fsm RecoveryStatus.verifying before_verifying refl (ground arith) refl h

abbrev before_policy : ProposalStatus → Bool
before_policy ProposalStatus.drafted = true
before_policy ProposalStatus.canceled = true
before_policy _ = false

abbrev before_approved : ProposalStatus → Bool
before_approved ProposalStatus.approved = false
before_approved ProposalStatus.execution_pending = false
before_approved ProposalStatus.executed = false
before_approved ProposalStatus.execution_failed = false
before_approved _ = true

-- A drafted proposal that is executed has passed the policy check and has been approved.
pub executed_needs_policy_and_approval :
    {visited : List ProposalStatus}
    → History agent_proposal_fsm ProposalStatus.drafted visited ProposalStatus.executed
    → Memᴰ ProposalStatus.policy_checking visited × Memᴰ ProposalStatus.approved visited
unfolding ProposalStatus-discrete
executed_needs_policy_and_approval h = (
  History-gate agent_proposal_fsm ProposalStatus.policy_checking before_policy refl refl refl h,
  History-gate agent_proposal_fsm ProposalStatus.approved before_approved refl refl refl h,
)

abbrev before_paper : StrategyStatus → Bool
before_paper StrategyStatus.draft = true
before_paper StrategyStatus.backtest_ready = true
before_paper StrategyStatus.validation_ready = true
before_paper StrategyStatus.archived = true
before_paper _ = false

abbrev before_validation : StrategyStatus → Bool
before_validation StrategyStatus.draft = true
before_validation StrategyStatus.backtest_ready = true
before_validation StrategyStatus.archived = true
before_validation _ = false

-- A drafted strategy that runs live has been ready for validation and has run on paper.
pub live_needs_validation_and_paper :
    {visited : List StrategyStatus}
    → History strategy_fsm StrategyStatus.draft visited StrategyStatus.live_running
    → Memᴰ StrategyStatus.validation_ready visited × Memᴰ StrategyStatus.paper_running visited
unfolding StrategyStatus-discrete
live_needs_validation_and_paper h = (
  History-gate strategy_fsm StrategyStatus.validation_ready before_validation refl refl refl h,
  History-gate strategy_fsm StrategyStatus.paper_running before_paper refl refl refl h,
)
