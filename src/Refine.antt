-- ===== src/Refine.antt =====
-- The stages of the Refine pipeline (src/z3rno_core/refine).
pub mod Dedupe
pub mod Prune
pub mod Scheduler
