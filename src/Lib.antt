-- ===== src/Lib.antt =====
-- The trading engine of UTOS: what the Python backend does with orders, market data, grids, profit
-- locks, processes, recoveries, jobs and notifications.
--
-- The parts and how they interact. A strategy decides on orders, and the execution engine sends
-- them to an exchange through an adapter: it checks the request, tracks the order under a local id,
-- retries while the failure is transient, and then files the order under the id that the exchange
-- gave. The market hub opens one stream per exchange, symbol and channel and hands its data to all
-- consumers; prices reach the grid, which plans orders level by level behind a breaker for daily
-- drops, and forwards them to the profit lock of a filled level, which trails a lock price below
-- the highest price and sends an order when the price falls to it. The manager of the trading
-- processes creates, prepares, starts, pauses, resumes, stops and recovers them: it keeps a row, a
-- process in memory and a lock in Redis for each, and wires a started one to its grid and to the
-- prices. After a lost connection or a restart the recovery replays queued orders, rebuilds the
-- portfolio and compares grid and portfolio with the exchange. Jobs of the scheduler and
-- notifications go through queues that retry and hand what failed to the dead letters.
--
-- The files, and the code that they model:
--   Prelude            Python's dict, str, Decimal and exceptions, over the native numbers
--   Execution/Models   backend/engine/execution/models.py, backend/core/domain_types.py,
--                      backend/core/exceptions.py
--   Execution/OrderState, Validator, Tracker, Executor
--                      order_state.py, validator.py, tracker.py, executor.py beside them
--   Execution/Engine   backend/engine/execution/execution_engine.py
--   ProfitLock/State, Policy, Engine
--                      backend/engine/profit_lock: state.py, policy.py with calculator.py, engine.py
--   Market/Subscriptions
--                      backend/market/subscription_manager.py
--   Grid/Models, State, Calculator, Planner, Breaker, Engine
--                      backend/engine/grid: the types of a grid, state.py, calculator.py,
--                      planner.py, circuit_breaker.py, engine.py
--   Scheduler/Retry, Dlq, Tasks, Bus, Heartbeat
--                      backend/engine/scheduler: retry.py, dlq.py, scheduler.py, bus.py, heartbeat.py
--   Trading/StateMachine
--                      backend/engine/trading/state_machine.py
--   Trading/Process, Averaging
--                      backend/engine/trading/process.py with backend/core/context.py,
--                      backend/services/averaging_template.py
--   Trading/Services, Store
--                      what the manager is given (Redis, adapters, the market hub, the database),
--                      as records, and its _ProcessStateStore
--   Trading/Manager    backend/engine/trading/process_manager.py: shared helpers of the methods, in
--                      Build, Wire, Lifecycle and Recover below it the methods themselves
--   Risk/Portfolio     backend/engine/risk/portfolio.py
--   Recovery/Connection, Reconciler, Coordinator
--                      backend/engine/recovery: connection.py, reconciler.py, coordinator.py with
--                      state.py and persistence.py
--   Notification/Queue backend/engine/notification/queue.py
-- A definition has the name of the method that it models (`place_order`, `re_key`, `plan`), and a
-- record that of the class. The modules below a file hold the lemmas and theorems on it, and each
-- Tests module runs the theorems at concrete values.
--
-- How the code is read. A method that changes its object is a function of the object's state that
-- gives the new one beside the result or the exception (Prelude/Monad), so that what was written
-- before an exception stays written. The objects that a tracker shares with its callers are kept in
-- a store of references. A method runs to its end with no other task between its awaits, except
-- `place_order` and the two of the market hub, which are cut there. Ids of uuid4, the clock and what
-- an exchange, a connector, a callable, a sending function or a health check answers are arguments:
-- the theorems hold for every answer, and for every sequence of answers. A decimal is a coefficient
-- with a number of places, whose sums and products are exact; the division of decimals is an
-- argument, so that the theorems on it hold for every rounding. So are the answers of the technical
-- analysis that a grid asks before it buys.
--
-- Loops end by structural recursion: the attempts of `execute` and of the queues count down from
-- `max_retries`, and every other loop is one over a list. No definition takes fuel.
--
-- Not modelled: log lines, texts of messages and free metadata, measured durations, and the asyncio
-- tasks that call these methods; the HTTP and WebSocket clients of the exchanges
-- (backend/exchanges), Redis and the database (backend/events, backend/repositories,
-- backend/database), the HTTP interface (backend/api) and the indicators (backend/services), which
-- are calls of other software; the hub, the cache and the connector of the market data
-- (backend/market), of which the process manager takes the hub as a record of functions; and the
-- rest of the risk engine (backend/engine/risk).
pub mod Prelude
pub mod Execution
pub mod Scheduler
pub mod Grid
pub mod Market
pub mod Trading
pub mod Notification
pub mod ProfitLock
pub mod Risk
pub mod Recovery
