-- ===== src/Guard.antt =====
-- The last gate before a live order is signed: the evidence of clean canary orders, the persisted
-- risk-gate record, and the final guards of src/crypto_ai_system/execution/live_order_final_guard.py.
pub mod Promotion
pub mod RiskGate
pub mod Terms
pub mod Final
pub mod Persist
pub mod Bounds
pub mod Clearance
