-- ===== src/Lib.antt =====
-- Verification of the ArbitrageStation trading core.
--
-- The repository runs funding-rate and spot-basis arbitrage: a backend that opens and closes pairs of
-- positions on exchanges and books them in a database, an engine that rebalances a portfolio of such pairs
-- in cycles, a ledger of funding payments, and scripts that read market data from many sockets.
--
-- * Base holds the shared names, the Boolean tests on numbers and the lemmas on lists.
-- * Trading/Store is the session of the database and the exchanges as the strategies use them
--   (backend/models/database/base.py). A row has the status that the program wrote and the one that SQL
--   finds, which differ until a flush; `autoflush` is the option of `sessionmaker`. Exchanges answer each
--   order as a function of all orders before it. Prices and sizes are of any type with the operations used.
-- * Trading/Held says when the exchanges hold a leg, read from the orders and their answers: a leg is
--   identified by the orders that open and close it, with exchange, symbol, side and size.
-- * Trading/SpotHedge and its children are `SpotHedgeStrategy` (backend/strategies/spot_hedge): `open_hedge`
--   is `open`, `handle_open_error` is `_handle_open_error`, `close_hedge_strategy` is `close`.
-- * Trading/CrossExchange and its children are `CrossExchangeStrategy` (backend/strategies/cross_exchange.py):
--   `open_pair` is `open`, `close_pair` is `close`.
-- * Retry and its children are the queue of failed orders
--   (backend/core/spot_basis_auto_engine/retry_queue.py): `enqueue_retry_items` and `process_due_retries`.
-- * Gate and its children are `HealthGate` and the part of the worker that adopts its decisions
--   (scripts/sandbox_ccxt_pro/lib/marketdata/load_balance: health_gate.py, worker.py).
-- * Rebalance/Keep is `_pick_keep_subset_for_row`, exact for 14 rows and fewer and greedy above, and
--   Rebalance/Plan is `_build_rebalance_delta_plan` (backend/core/spot_basis_auto_engine: target_state.py,
--   delta_plan.py).
-- * Cycle and its children are the confirmation of a rebalance signal and the lock file of the cycles
--   (backend/core/spot_basis_auto_engine: mismatch_guard.py, cycle_context.py).
-- * Funding and Funding/Ledger are `upsert_funding_event`, Funding/Ingest is a round of ingestion,
--   in which the database may raise at each event or at the commit
--   (backend/core/funding_ledger/assign.py), and Funding/Allocation is `resolve_assignment_allocations`
--   (backend/core/pnl_v2_logic.py).
-- * Quality is the count of expected settlements, the classes of quality and the reconciliation of daily
--   totals of the same file. The loop over settlements has a step of fuel for each second up to the
--   end, and every step is a second or more.
-- * Spread is the spread arbitrage engine (backend/core/spread_arb_engine: signals.py, order_flow.py,
--   lifecycle.py): Entry decides on an opportunity and Entry/Orders places it, Exit is the close of both
--   legs and the recovery of half-closed positions, Exit/Checks `_check_exits`, Cooldown `_in_cooldown`,
--   and Round is exits followed by entries.
--   What an exchange answers depends on all requests before; loops run over rows, and each order is
--   retried up to three times, by recursion on the attempts that are left.
-- * Compaction is the rollup of market samples (scripts/sandbox_ccxt_pro/lib/marketdata/service/
--   compaction_steps.py): the queries as functions on tables, and the loop of steps, which is on fuel;
--   more fuel than there are rows before the cutoff is enough.
-- * Shards is the planner that spreads symbols over workers (scripts/sandbox_ccxt_pro/lib/marketdata/
--   load_balance/shard_planner.py).
-- * Risk is the risk manager (backend/core/risk_manager.py), over the session and the exchanges of
--   Trading/Store: Risk is the forced close of a strategy, Risk/Checks the rules and the pass over all
--   active strategies.
-- * Repair is the repair of hedges whose legs do not match (backend/core/spot_basis_auto_engine: the legs
--   of profit_metrics.py, the reduction of positions of risk_reduce.py), over the session of
--   Trading/Store. Repair/Live reads the exchange's perpetual, Repair/Plan is the plan of
--   mismatch_guard.py, Repair/Execute its execution in orchestrator.py.
-- * Symbols is the normal form of symbols and the ids of two exchanges (backend/core/funding_ledger/
--   normalize.py), over texts as lists of character codes.
-- * Reconcile is the reconciliation with the exchanges (backend/core/spot_basis_reconciler), over the same
--   session: strategies without open legs and tracked legs of sync_ops.py, and in Reconcile/Recover the
--   matching of what no strategy tracks, of runner.py. Reconcile/Settled joins it to Repair.
-- * Supervisor is the restart of dead workers (scripts/sandbox_ccxt_pro/lib/marketdata/load_balance:
--   supervisor.py, supervisor_utils.py), one worker at a time: a probe is what the loop sees of it.
-- * Auto is the engine's cycle (backend/core/spot_basis_auto_engine: open_cycle.py; cycle_context.py,
--   risk_reduce.py, close_plan.py and orchestrator.py in part). Auto/Run is the cycle stage by stage over an
--   interface of steps, `Parts`, with Retry for its queue and Cycle for its rounds; Auto/Events are the API
--   failures; Auto/Open is the execution of opens (open_executor.py), which fills the interface's step.
--
-- Loops are structural recursion on lists, but for the count of settlements and the loop of rollups, whose
-- fuel is more than their steps. Money is counted in whole units where a comparison matters, and left
-- abstract where it is only passed on.
--
-- Not modelled: the web API and its routers, the frontend, the exchange adapters over ccxt, data collection
-- and most of storage, backtests, mail and logging, which are input and output or reporting around the
-- parts above.
pub mod Auto
pub mod Base
pub mod Compaction
pub mod Cycle
pub mod Funding
pub mod Gate
pub mod Quality
pub mod Rebalance
pub mod Reconcile
pub mod Repair
pub mod Retry
pub mod Risk
pub mod Shards
pub mod Spread
pub mod Supervisor
pub mod Symbols
pub mod Trading
