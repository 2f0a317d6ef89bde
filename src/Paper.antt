-- ===== src/Paper.antt =====
-- The paper position lifecycle (src/crypto_ai_system/execution/paper_position_kernel.py). The
-- position file is a `Slot`; what the outcome analytics persist is the list of outcomes.
pub mod Model
pub mod Entry
pub mod Settle
pub mod Exits
pub mod Holding
pub mod Lifecycle
pub mod History
