-- ===== src/Fsm/Strategy.antt =====
-- The states of src/hqmts/core/enums.py (`StrategyStatus`) and the machine of
-- src/hqmts/statemachine/strategy_fsm.py. A Python set is written as a list.
use hqmts.Prelude.{List, [], ◌∷◌}
use hqmts.Fsm.Machine.{StateMachine}

pub data StrategyStatus : Type 0 where
  draft backtest_ready validation_ready paper_running live_running pause_open close_only stopped
        paused frozen archived :
      StrategyStatus

unfoldable pub StrategyStatus-discrete : Discrete StrategyStatus
StrategyStatus-discrete = hlevel

abbrev pub strategy_transitions : List (StrategyStatus × List StrategyStatus)
strategy_transitions =
    (draft, backtest_ready ∷ archived ∷ [])
    ∷ (backtest_ready, validation_ready ∷ draft ∷ archived ∷ [])
    ∷ (validation_ready, paper_running ∷ backtest_ready ∷ archived ∷ [])
    ∷ (paper_running, live_running ∷ validation_ready ∷ paused ∷ archived ∷ [])
    ∷ (live_running, pause_open ∷ close_only ∷ stopped ∷ archived ∷ [])
    ∷ (pause_open, live_running ∷ close_only ∷ stopped ∷ [])
    ∷ (close_only, pause_open ∷ stopped ∷ [])
    ∷ (stopped, draft ∷ archived ∷ [])
    ∷ (paused, paper_running ∷ stopped ∷ [])
    ∷ (archived, [])
    ∷ []

abbrev pub strategy_terminal_states : List StrategyStatus
strategy_terminal_states = archived ∷ []

abbrev pub strategy_fsm : StateMachine StrategyStatus
strategy_fsm = record {
  entity_type = "StrategyInstance";
  transitions = strategy_transitions;
  terminal_states = strategy_terminal_states;
  equal = StrategyStatus-discrete;
}
