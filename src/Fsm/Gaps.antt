-- ===== src/Fsm/Gaps.antt =====
-- States that the enumerations declare and no history reaches.
use hqmts.Prelude.{
  inl, inr, [], ◌∷◌, Bool-cases, contains, ◌≡◌, ◌≢◌, ◌⊎◌, refl, Bool, true, false, List, arith,
}
use hqmts.Fsm.Machine.{can_transition, transition, is_terminal}
use hqmts.Fsm.Machine.Histories.{History, stay, move, History-inside}
use hqmts.Fsm.Order.{OrderStatus, OrderStatus-discrete, order_fsm}
use hqmts.Fsm.Strategy.{StrategyStatus, StrategyStatus-discrete, strategy_fsm}

abbrev settled : OrderStatus → Bool
settled OrderStatus.error = false
settled OrderStatus.suspended = false
settled OrderStatus.expired = false
settled _ = true

-- No history of a created order ends in `error`, `suspended` or `expired`.
pub order_never_unsettled :
    {visited : List OrderStatus} (t : OrderStatus)
    → History order_fsm OrderStatus.created visited t
    → (t ≢ OrderStatus.error) × (t ≢ OrderStatus.suspended) × (t ≢ OrderStatus.expired)
unfolding OrderStatus-discrete
order_never_unsettled t h =
    let s = History-inside order_fsm OrderStatus.created settled refl refl refl h in
    (ground arith, ground arith, ground arith)

abbrev not_frozen : StrategyStatus → Bool
not_frozen StrategyStatus.frozen = false
not_frozen _ = true

History-from_frozen :
    {s t : StrategyStatus} {visited : List StrategyStatus}
    → s ≡ StrategyStatus.frozen
    → History strategy_fsm s visited t
    → visited ≡ []
unfolding transition is_terminal StrategyStatus-discrete
History-from_frozen f stay = refl
History-from_frozen f (move {u} e r) = absurd (cc (rw f at e))

-- `frozen` is outside the strategy machine: a history that begins or ends in it makes no move.
pub frozen_isolated :
    {visited : List StrategyStatus} (s t : StrategyStatus)
    → (s ≡ StrategyStatus.frozen) ⊎ (t ≡ StrategyStatus.frozen)
    → History strategy_fsm s visited t
    → visited ≡ []
unfolding StrategyStatus-discrete
frozen_isolated s t f h = elim (Bool-cases (not_frozen s)) [
  | inl e ↦ absurd (
      let i = History-inside strategy_fsm StrategyStatus.draft not_frozen refl refl e h in
      ground arith)
  | inr e ↦ History-from_frozen (ground arith) h
]

abbrev pub archivable : List StrategyStatus
archivable =
    StrategyStatus.draft ∷ StrategyStatus.backtest_ready ∷ StrategyStatus.validation_ready
    ∷ StrategyStatus.paper_running ∷ StrategyStatus.live_running ∷ StrategyStatus.stopped ∷ []

-- A strategy can be archived from exactly six states: `draft`, `backtest_ready`,
-- `validation_ready`, `paper_running`, `live_running` and `stopped`.
pub archive_decided :
    (s : StrategyStatus)
    → can_transition strategy_fsm s StrategyStatus.archived
      ≡ contains StrategyStatus-discrete s archivable
unfolding can_transition StrategyStatus-discrete
archive_decided StrategyStatus.draft = refl
archive_decided _ = refl
