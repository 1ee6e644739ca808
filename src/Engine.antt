-- ===== src/Engine.antt =====
-- engine/: the operations on one organisation's memories.
pub mod State
pub mod Get
pub mod Update
pub mod Forget
pub mod Lifecycle
pub mod Store
pub mod RecallBatch
