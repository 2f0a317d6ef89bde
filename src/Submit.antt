-- ===== src/Submit.antt =====
-- The submission of live orders: what a failed submit proves, the entry and the close path, the budget
-- of the day, and the reconciliation (retry_policy.py, live_strategy_execution.py and
-- signed_testnet_reconciliation.py of src/crypto_ai_system/execution).
pub mod Retry
pub mod Orders
pub mod Budget
pub mod Performed
pub mod Reconcile
pub mod Confirmed
