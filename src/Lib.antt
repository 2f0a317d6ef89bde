-- ===== src/Lib.antt =====
-- Verification library of crypto_ai_system: the position kernels of paper and live trading, the gate
-- and the submission of live orders, the registries and the loss limits under them, the pool of
-- active strategies with its lifecycle, the backtest that admits to it, the permissions before an
-- order, and the cycle of the pipeline.
--
-- How the parts interact. A fill of the paper venue opens a position in the paper kernel, in its
-- single slot or in a book for its strategy; each cycle settles it against a candle. A live entry
-- passes the final guard, which reads the counter of the day, the outcome registry, the canary
-- evidence and the risk-gate records; then it is submitted, and a lost answer is resolved by a
-- query. The live kernel tracks the reconciled fill, and closes it by a reduceOnly order that it
-- notes on disk first. Each close appends to the outcome registry, which the breaker of the next
-- entry sums. A strategy is simulated on past bars by the rules that also match live rows, a
-- research signal is turned into a permission to trade, and an order is held against the pre-order
-- gate; a champion is admitted to the pool, and the feedback of its attributed outcomes moves it
-- through its lifecycle. The pipeline runs data, research, validation, trading and feedback in this
-- order, and keeps the trading stage from running on a halt before it.
--
-- Files, and the code that each models (paths from the repository's root):
--   Common, Float, Text: numbers, lists, Python's floats and coercions, texts as code points
--   Trade, Paper: src/crypto_ai_system/execution/paper_position_kernel.py
--     and, for its entry, src/crypto_ai_system/pipeline/trading_steps/positions.py
--   Books: src/crypto_ai_system/execution/paper_book_kernel.py
--   Live: src/crypto_ai_system/execution/live_position_kernel.py
--   Registry: src/crypto_ai_system/registry/base_registry.py
--   Ledger: src/crypto_ai_system/execution/live_pnl_ledger.py
--   Guard: src/crypto_ai_system/execution/live_order_final_guard.py and live_promotion.py, and
--     src/crypto_ai_system/registry/risk_gate_registry.py
--   Submit: src/crypto_ai_system/execution/retry_policy.py, live_strategy_execution.py and
--     signed_testnet_reconciliation.py
--   Lifecycle: src/crypto_ai_system/feedback/strategy_lifecycle_agent.py
--   Pool: src/crypto_ai_system/strategy_factory/active_strategy_pool.py and live_evidence.py
--   Feedback: src/crypto_ai_system/feedback/strategy_feedback_step.py and strategy_performance_agent.py
--   Rules: src/crypto_ai_system/strategy_factory/strategy_evaluator.py
--   Backtest: src/crypto_ai_system/backtesting/execution_simulator.py, cost_model.py,
--     performance_metrics.py and walk_forward.py
--   Pipeline: src/crypto_ai_system/pipeline/orchestrator.py, base.py, contracts.py and exit_codes.py
--   Risk: risk/risk_guard.py
--   PreOrder: src/crypto_ai_system/trading/pre_order_risk_gate.py
--   Permission: src/crypto_ai_system/trading/permission_gate.py
--   Tests: runs on concrete inputs
-- Operations keep the source's names, less a leading underscore.
--
-- State. A position file is a slot: an open position, the closed marker, or anything else. The books
-- are an association list, as the JSON object is ordered. A registry is a list of lines, each a
-- record, blank or damaged, with the newline at its end. The live kernel runs in a world of the
-- slot, the registry and the trace of its effects in order (writes, submissions, queries); the
-- guarded submission in one of the evidence and the trace of what was sent. The pool is a file that
-- may be missing, a simulation a recursion on the bars with the open position, and the pipeline runs
-- over any state of its agents. A raised error is `none` or a report of its own.
--
-- Numbers. A float is an interface of operations without laws, so a theorem holds of IEEE arithmetic
-- with its rounding and NaN; only the latch of the breaker and the choice of the weakest occupant
-- name laws that they need. Counts are natural numbers. Settings that are integers are read as
-- naturals, where a negative one behaves as 0.
--
-- Parameters. The clock, the hashes of identities and the outcome analytics are services. The venue is a
-- pair of functions of the trace so far, so it may answer anything, and differently each time. One cycle
-- reads the clock once.
--
-- No model uses fuel: every loop is a recursion on its list.
--
-- Not modelled: event logging, file locations, failing writes, the hashes and metadata of registry
-- records, the 64 KB bound of the tail check, text that `datetime` parses, directions other than LONG and
-- SHORT, and the parts that collect data, score research, mine strategies, schedule and notify.
pub mod Backtest
pub mod Books
pub mod Common
pub mod Feedback
pub mod Float
pub mod Guard
pub mod Ledger
pub mod Lifecycle
pub mod Live
pub mod Paper
pub mod Permission
pub mod Pipeline
pub mod Pool
pub mod PreOrder
pub mod Registry
pub mod Risk
pub mod Rules
pub mod Submit
pub mod Tests
pub mod Text
pub mod Trade
