-- ===== src/Tests.antt =====
-- Runs of the properties at small inputs.
mod ForgetProof
mod Audit
mod Rows
mod Memories
mod Forget
mod Lifecycle
mod Conversations
mod Usage
mod Temporal
mod Chunking
mod Store
mod Ingest
mod Loaders
mod Retrieval
mod MemoryTiers
mod AuditQuery
mod Refine
mod Recall
