-- ===== src/Fsm/Ends.antt =====
-- From every state of every machine a terminal state can be reached.
use hqmts.Prelude.{
  ℕ, zero, suc, ◌≤◌, ◌≡◌, refl, inl, inr, Bool, true, false, ◌||◌, List, [], ◌∷◌, Memᴰ, arith, any,
  All, all, length, Bool-cases, contains_of_Memᴰ,
}
use hqmts.Fsm.Machine.{StateMachine, ok, allowed, get_all_states, is_terminal, transition}
use hqmts.Fsm.Machine.Histories.{History, stay, move}
use hqmts.Fsm.Order.{OrderStatus-discrete, order_fsm}
use hqmts.Fsm.Strategy.{StrategyStatus-discrete, strategy_fsm}
use hqmts.Fsm.Reservation.{ReservationStatus-discrete, reservation_fsm}
use hqmts.Fsm.Recovery.{RecoveryStatus-discrete, recovery_fsm}
use hqmts.Fsm.Reconciliation.{ReconciliationStatus-discrete, reconciliation_fsm}
use hqmts.Fsm.AgentProposal.{ProposalStatus-discrete, agent_proposal_fsm}
use hqmts.Fsm.AgentTask.{AgentTaskStatus-discrete, agent_task_fsm}
use hqmts.Fsm.Approval.{ApprovalStatus-discrete, approval_fsm}
use hqmts.Fsm.ControlledExecution.{ExecutionStatus-discrete, controlled_execution_fsm}
use hqmts.Fsm.ResearchProject.{ResearchProjectStatus-discrete, research_project_fsm}

-- A history from `s` to a terminal state, of at most `n` moves.
pub record Ends {ℓ} {S : Type ℓ} (m : StateMachine S) (n : ℕ) (s : S) : Type ℓ where
  pub visited : List S
  pub last : S
  pub history : History m s visited last
  pub terminal : is_terminal m last ≡ true
  pub short : length visited ≤ n

module _ {ℓ} {S : Type ℓ} (m : StateMachine S) where
  -- A search of the table, `n` moves deep.
  ends_within : ℕ → S → Bool
  ends_within zero s = is_terminal m s
  ends_within (suc n) s = is_terminal m s || any (ends_within n) (allowed m s)

  accepted : (s t : S) → is_terminal m s ≡ false → Memᴰ t (allowed m s) → transition m s t ≡ ok t
  unfolding transition
  accepted s t h a = rw (h, contains_of_Memᴰ m.equal a)

  pick : (p : S → Bool) (xs : List S) → any p xs ≡ true → (t : S) × Memᴰ t xs × (p t ≡ true)
  pick p [] h = cc
  pick p (x ∷ xs) h = elim (Bool-cases (p x)) [
    | inl e ↦ (x, Memᴰ.head refl, e)
    | inr e ↦ let (t, i, k) = pick p xs (ground arith) in (t, Memᴰ.tail i, k)
  ]

  Ends-here : (n : ℕ) (s : S) → is_terminal m s ≡ true → Ends m n s
  Ends-here n s h = record {
    visited = [];
    last = s;
    history = stay;
    terminal = h;
    short = omega arith;
  }

  Ends-after : (n : ℕ) (s t : S) → transition m s t ≡ ok t → Ends m n t → Ends m (suc n) s
  Ends-after n s t e r = record {
    visited = t ∷ r.visited;
    last = r.last;
    history = move e r.history;
    terminal = r.terminal;
    short = omega (arith, r.short);
  }

  ends_within-Ends : (n : ℕ) (s : S) → ends_within n s ≡ true → Ends m n s
  unfolding ends_within
  ends_within-Ends zero s h = Ends-here zero s h
  ends_within-Ends (suc n) s h = elim (Bool-cases (is_terminal m s)) [
    | inl e ↦ Ends-here (suc n) s e
    | inr e ↦
        let (t, i, k) = pick (ends_within n) (allowed m s) (ground arith) in
        Ends-after n s t (accepted s t e i) (ends_within-Ends n t k)
  ]

-- Every state of the table has such a history.
abbrev pub CanEnd {ℓ} : {S : Type ℓ} → StateMachine S → ℕ → Type ℓ
CanEnd m n = All (Ends m n) (get_all_states m)

all_end {ℓ} :
    {S : Type ℓ} (m : StateMachine S) (n : ℕ) (states : List S)
    → all (ends_within m n) states ≡ true
    → All (Ends m n) states
all_end m n [] c = tt
all_end m n (s ∷ states) c =
    (ends_within-Ends m n s (ground arith), all_end m n states (ground arith))

CanEnd-of_search {ℓ} :
    {S : Type ℓ} (m : StateMachine S) (n : ℕ)
    → all (ends_within m n) (get_all_states m) ≡ true
    → CanEnd m n
CanEnd-of_search m n c = all_end m n (get_all_states m) c

-- No machine can be stuck: each state of its table is at most the given number of accepted
-- transitions away from a terminal state.
pub machines-CanEnd :
    CanEnd order_fsm 2
    × CanEnd strategy_fsm 2
    × CanEnd reservation_fsm 2
    × CanEnd recovery_fsm 2
    × CanEnd reconciliation_fsm 2
    × CanEnd agent_proposal_fsm 2
    × CanEnd agent_task_fsm 2
    × CanEnd approval_fsm 2
    × CanEnd controlled_execution_fsm 2
    × CanEnd research_project_fsm 2
unfolding ends_within is_terminal get_all_states OrderStatus-discrete StrategyStatus-discrete
    ReservationStatus-discrete RecoveryStatus-discrete ReconciliationStatus-discrete
    ProposalStatus-discrete AgentTaskStatus-discrete ApprovalStatus-discrete
    ExecutionStatus-discrete ResearchProjectStatus-discrete
machines-CanEnd = (
  CanEnd-of_search order_fsm 2 refl,
  CanEnd-of_search strategy_fsm 2 refl,
  CanEnd-of_search reservation_fsm 2 refl,
  CanEnd-of_search recovery_fsm 2 refl,
  CanEnd-of_search reconciliation_fsm 2 refl,
  CanEnd-of_search agent_proposal_fsm 2 refl,
  CanEnd-of_search agent_task_fsm 2 refl,
  CanEnd-of_search approval_fsm 2 refl,
  CanEnd-of_search controlled_execution_fsm 2 refl,
  CanEnd-of_search research_project_fsm 2 refl,
)
