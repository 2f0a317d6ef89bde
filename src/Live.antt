-- ===== src/Live.antt =====
-- The live position lifecycle (src/crypto_ai_system/execution/live_position_kernel.py): its data, its
-- operations, and what holds of them.
pub mod Model
pub mod Signal
pub mod Orders
pub mod Close
pub mod Cycle
pub mod Agreement
pub mod Trace
pub mod WriteAhead
pub mod Waiting
pub mod OneClose
pub mod Fills
pub mod Settlement
pub mod History
