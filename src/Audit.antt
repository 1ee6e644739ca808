-- ===== src/Audit.antt =====
-- engine/audit.py: the pending queue, and the hash chain that the drainer builds from it.
pub mod Tables
pub mod Hash
pub mod Drain
pub mod Queue
pub mod Rows
pub mod Ordered
pub mod Chain
pub mod Reach
pub mod Query
pub mod Flush
pub mod Fork
