-- ===== src/Retrieval.antt =====
-- Retrieval strategies (src/z3rno_core/retrieval).
pub mod Base
pub mod Auto
