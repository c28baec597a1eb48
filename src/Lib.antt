-- ===== src/Lib.antt =====
-- HQMTS: the decision core of the trading system, modelled and proved.
--
-- Orders of the system pass a chain of decisions. A strategy's signal is judged by the risk engine
-- (src/hqmts/risk/engine.py), which asks the registered rules (src/hqmts/risk/rules) layer by
-- layer. Cash for it is set aside by the reservation manager (src/hqmts/reservation/manager.py),
-- and the last word before a submission has the final check (src/hqmts/risk/final_check.py). The
-- life of orders, strategies, reservations, proposals and the rest is given by tables of one
-- generic state machine (src/hqmts/statemachine). The execution service (src/hqmts/execution) puts
-- these together: signal, risk check, reservation, intent, final check, order request, and gives the
-- reservation back where a step fails. Force flatten (src/hqmts/risk/force_flatten.py) sells every
-- position past the strategies, through the same final check. A backtest replaces the broker by a
-- matcher and a portfolio, driven bar by bar by the engine (src/hqmts/backtest); paper trading
-- replaces it by an account that fills at a given price (src/hqmts/execution/paper_trading.py). What
-- an agent may call is decided by a policy over a registry of tools (src/hqmts/agent). For its
-- validation a strategy's history is split into training and test bars (src/hqmts/validation).
-- The bars of a day are graded by the quality checker (src/hqmts/data/quality.py).
--
-- The files:
--   Prelude             integers, decimals, lists and tests shared by all
--   Fsm/Machine         `StateMachine` of src/hqmts/statemachine/base.py: can_transition,
--                       valid_transitions, transition, _validate_definitions, get_all_states
--   Fsm/Order and the other nine
--                       the tables of src/hqmts/statemachine/*_fsm.py
--   Reservation/Store   the rows of src/hqmts/db/models/reservation.py and the queries of
--                       src/hqmts/db/repositories/reservation_repo.py and base.py
--   Reservation/Manager `ReservationManager`: get_effective_available_cash, reserve, consume,
--                       release, expire_reservations, and src/hqmts/domain/reservation.py
--   Risk/Types, Risk/Engine
--                       `RiskContext`, `RiskRule` and `RiskEngine` of src/hqmts/risk/engine.py
--   Risk/Rules          one value per rule class of src/hqmts/risk/rules
--   Risk/FinalContext, Risk/FinalCheck
--                       `FinalPreSubmitCheck.execute`, one function per numbered check
--   Risk/ForceFlatten   `ForceFlattenService`: execute_flatten, retry_failed
--   Backtest/Types, Backtest/Cost, Backtest/Matcher, Backtest/Portfolio
--                       src/hqmts/backtest/order.py, cost.py, matcher.py and portfolio.py
--   Backtest/RiskAdapter, Backtest/Strategy
--                       risk_adapter.py, and what the engine asks of a strategy
--   Backtest/Engine     `BacktestEngine`: _process_sl_tp and _force_flatten_all in Engine,
--                       _process_order and the steps of the loop in Engine/Loop, the loop, the
--                       stream of bars and run in Engine/Stream
--   Execution/Types     the records of src/hqmts/domain/signal.py and execution.py
--   Execution/Pipeline  exceptions, try and except over the table of reservations
--   Execution/Converter, Execution/Service
--                       `SignalConverter` and `ExecutionService` of src/hqmts/execution
--   Execution/Paper     `PaperTradingEngine` of src/hqmts/execution/paper_trading.py: the records in
--                       Paper, submit_signal in Paper/Submit, the rest in Paper/Fill
--   Agent/Types, Agent/Tools, Agent/Policy
--                       the registry of src/hqmts/agent/types.py and `PolicyEngine` of policy.py
--   Validation/Splitter split_in_sample_out_of_sample and split_walk_forward of
--                       src/hqmts/validation/splitter.py
--   Data/Quality        `DataQualityChecker` of src/hqmts/data/quality.py
--   */Examples, Backtest/RunExamples, Risk/FlattenExamples, Execution/PaperExamples
--                       the theorems at concrete inputs
-- The child modules of a component hold its proofs.
--
-- How the code is read:
--   * A `Decimal` is an integer number of 10^-8. Sums, differences, comparisons and multiples by an
--     int are exact. A product of two decimals is cut to eight places. A test of a quotient against
--     a limit is done with the exact quotient, by multiplying across. Python's rounding to 28
--     digits is not modelled.
--   * A time is a number of microseconds on the exchange's clock; the reading of the clock and fresh
--     ids are arguments. The participation rate, a float in the code, is a number of 10^-8. The
--     ratio of a split is a float as such, a mantissa over a power of two, and its product with a
--     length is rounded to 53 binary digits as the product of two floats is.
--   * A set or a dict is a list or an association list, in order of insertion. The sorting that
--     get_all_states and valid_transitions do last is left out.
--   * The manager's methods are functions of the table that hand back the table with the result or
--     the error, since what was flushed before a raise stays in the session. The lock of an account
--     makes a `reserve` one step; every method is one step here. The database's unique indices are
--     checked by `create`, whose `none` is the IntegrityError. A new row's created_at and
--     updated_at, which the database stamps, are `now`. The columns reserved_amount and
--     consumed_amount hold four decimals (Numeric(18, 4)); amounts are taken to have no more, and the
--     rounding of others is not modelled.
--   * A numbered check of the final check files labels, which stand for the strings of the code.
--   * What the pipeline calls outside is an argument: the clock readings and fresh ids of a run, and
--     the adapter and the order service as functions that tell whether a call raises. The broker's
--     answer does not reach the table. The strategy of a backtest is a state with its two steps.
--   * Where one object is shared (the position in the dict, a task in the progress), the model writes
--     it back in its place.
--   * Texts for people (reasons, messages) and uuids are left out.
--   * An exception of the paper account's fill is `none`, with the state that it leaves.
--   * All recursion is structural; the one fuel is the 53 halvings of a float product, enough for
--     factors below 2^53 (`rounded_fuel` in Validation/Splitter/Parts). `Ends` bounds a search of a
--     machine's table by two moves, which is enough for all ten tables.
--
-- Not modelled: the statistics of a backtest's result and the vectorized engine, the classification
-- of rejections, reconciliation, recovery, governance, live trading, the gateway and the services of
-- the agents, the data clients and bar aggregation, the metrics and the admission of validation,
-- research, monitoring, the web API, the language models, the frontend and the rest of the database
-- layer. They are I/O, statistics, glue, or parts that this development does not reach yet.
pub mod Prelude
pub mod Fsm
pub mod Reservation
pub mod Risk
pub mod Backtest
pub mod Execution
pub mod Agent
pub mod Validation
pub mod Data
