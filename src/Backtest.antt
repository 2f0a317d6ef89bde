-- ===== src/Backtest.antt =====
-- Backtests (src/crypto_ai_system/backtesting): the metrics of a ledger of trades and the split of
-- the bars into folds.
pub mod Accounting
pub mod Causal
pub mod Costs
pub mod Ledger
pub mod Metrics
pub mod Simulator
pub mod Split
pub mod WalkForward
