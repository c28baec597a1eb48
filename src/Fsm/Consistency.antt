-- ===== src/Fsm/Consistency.antt =====
-- Every shipped machine is consistent: its own validation passes, and the set of terminal states
-- agrees with its table.
use hqmts.Prelude.{◌≡◌, refl, Bool, true, false, not, List, [], ◌∷◌, arith, All, all}
use hqmts.Fsm.Machine.{
  StateMachine, consistent, allowed, get_all_states, is_terminal, validate_definitions,
}
use hqmts.Fsm.Order.{OrderStatus-discrete, order_fsm}
use hqmts.Fsm.Strategy.{StrategyStatus-discrete, strategy_fsm}
use hqmts.Fsm.Reservation.{ReservationStatus-discrete, reservation_fsm}
use hqmts.Fsm.Recovery.{RecoveryStatus-discrete, recovery_fsm}
use hqmts.Fsm.Reconciliation.{ReconciliationStatus-discrete, reconciliation_fsm}
use hqmts.Fsm.AgentProposal.{ProposalStatus-discrete, agent_proposal_fsm}
use hqmts.Fsm.AgentTask.{AgentTaskStatus-discrete, agent_task_fsm}
use hqmts.Fsm.Approval.{ApprovalStatus-discrete, approval_fsm}
use hqmts.Fsm.ControlledExecution.{ExecutionStatus-discrete, controlled_execution_fsm}
use hqmts.Fsm.ResearchProject.{ResearchProjectStatus-discrete, research_project_fsm}

abbrev pub is_empty {ℓ} : {A : Type ℓ} → List A → Bool
is_empty [] = true
is_empty (x ∷ xs) = false

abbrev same : Bool → Bool → Bool
same true b = b
same false b = not b

same-eq : (a b : Bool) → same a b ≡ true → a ≡ b
same-eq true b h = ground arith
same-eq false b h = ground arith

-- Validation passes; a state of the table is terminal exactly when its row is empty.
pub record IsConsistent {ℓ} {S : Type ℓ} (m : StateMachine S) : Type ℓ where
  pub validated : validate_definitions m ≡ consistent
  pub terminal_rows : All (λ s. is_terminal m s ≡ is_empty (allowed m s)) (get_all_states m)

same_rows {ℓ} :
    {S : Type ℓ} (m : StateMachine S) (states : List S)
    → all (λ s. same (is_terminal m s) (is_empty (allowed m s))) states ≡ true
    → All (λ s. is_terminal m s ≡ is_empty (allowed m s)) states
same_rows m [] c = tt
same_rows m (s ∷ states) c = (
  same-eq (is_terminal m s) (is_empty (allowed m s)) (ground arith),
  same_rows m states (ground arith),
)

-- Both can be checked on the table.
consistent_of_checks {ℓ} :
    {S : Type ℓ} (m : StateMachine S)
    → validate_definitions m ≡ consistent
    → all (λ s. same (is_terminal m s) (is_empty (allowed m s))) (get_all_states m) ≡ true
    → IsConsistent m
consistent_of_checks m v c = record {
  validated = v;
  terminal_rows = same_rows m (get_all_states m) c;
}

-- All ten machines pass their validation, and in each the terminal states of the table are exactly
-- those with an empty row.
pub machines-IsConsistent :
    IsConsistent order_fsm
    × IsConsistent strategy_fsm
    × IsConsistent reservation_fsm
    × IsConsistent recovery_fsm
    × IsConsistent reconciliation_fsm
    × IsConsistent agent_proposal_fsm
    × IsConsistent agent_task_fsm
    × IsConsistent approval_fsm
    × IsConsistent controlled_execution_fsm
    × IsConsistent research_project_fsm
unfolding validate_definitions is_terminal get_all_states OrderStatus-discrete
    StrategyStatus-discrete ReservationStatus-discrete RecoveryStatus-discrete
    ReconciliationStatus-discrete ProposalStatus-discrete AgentTaskStatus-discrete
    ApprovalStatus-discrete ExecutionStatus-discrete ResearchProjectStatus-discrete
machines-IsConsistent = (
  consistent_of_checks order_fsm refl refl,
  consistent_of_checks strategy_fsm refl refl,
  consistent_of_checks reservation_fsm refl refl,
  consistent_of_checks recovery_fsm refl refl,
  consistent_of_checks reconciliation_fsm refl refl,
  consistent_of_checks agent_proposal_fsm refl refl,
  consistent_of_checks agent_task_fsm refl refl,
  consistent_of_checks approval_fsm refl refl,
  consistent_of_checks controlled_execution_fsm refl refl,
  consistent_of_checks research_project_fsm refl refl,
)
