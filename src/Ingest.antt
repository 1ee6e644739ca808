-- ===== src/Ingest.antt =====
-- Ingestion jobs (src/z3rno_core/ingest).
pub mod State
