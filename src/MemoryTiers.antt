-- ===== src/MemoryTiers.antt =====
-- Routing of queries to memory tiers (src/z3rno_core/memory_tiers).
pub mod Router
