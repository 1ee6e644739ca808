-- ===== src/Loaders.antt =====
-- Dispatch of raw inputs to loaders (src/z3rno_core/loaders).
pub mod Registry
