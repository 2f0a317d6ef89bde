-- ===== src/Tests.antt =====
-- Runs of the models on concrete inputs.
mod Fixtures
mod Paper
mod Pool
mod Books
mod Live
mod Submit
mod Reconcile
mod Records
mod Backtest
mod Pipeline
mod Risk
mod PreOrder
mod Permission
