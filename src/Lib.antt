-- ===== src/Lib.antt =====
-- z3rno-core: a memory engine for agents, over PostgreSQL. Its operations are Python functions
-- that run SQL statements in a transaction of the caller. The modules here follow those
-- functions: a table is a list of rows in the order of their insertion, a statement is a function
-- on that list, and an operation takes the state and returns the new one with its result, or the
-- exception that it raises. Uuids, timestamps and dates are natural numbers, scores are numbers
-- of millionths, JSON documents are their texts, and now() is an argument. Paths below are from
-- the root of the repository.
--
-- Prelude holds the shared names, tests, list lemmas and an insertion sort for ORDER BY. Models
-- has the enumerations of src/z3rno_core/models/enums.py, and Result the outcome of a call: a
-- value or an exception, after which the transaction is the caller's to roll back, so no state is
-- carried beside it. Where Python catches the exception of a statement without a savepoint, the
-- operation returns and the transaction is aborted: Engine/State has this outcome as Transaction,
-- and what a COMMIT then leaves.
--
-- Memories is the table memories. Memories/Table has its rows and primary key
-- (migrations/versions/007), Memories/Scd the trigger memories_scd_trigger
-- (migrations/versions/035) and an UPDATE that runs under it, row by row. The other files of the
-- folder reason about the UPDATE: in place, refused, and as a soft deletion.
--
-- Engine has the operations on memories. Engine/State is what they share, Engine/Get and
-- Engine/Update are src/z3rno_core/engine/get.py and src/z3rno_core/engine/update.py,
-- Engine/Forget is src/z3rno_core/engine/forget.py (Related for _find_related_memories, Delete
-- for the rest; Forget/Edges, Hops, Targets, After, Outcome and Certificate reason about them),
-- and Engine/Lifecycle is src/z3rno_core/engine/lifecycle.py (sweep_expired_memories,
-- enforce_retention_cap, transition_memory). Engine/Store is src/z3rno_core/engine/store.py with
-- the constraints of migrations/versions/008, and Engine/RecallBatch is
-- src/z3rno_core/engine/recall_batch.py beside the UPDATE of src/z3rno_core/engine/recall.py;
-- each statement there runs for one organisation, as row-level security keeps it to. A Python set
-- is the list of its elements. They enqueue events by Audit, and forget issues certificates by
-- ForgetProof.
--
-- Audit is src/z3rno_core/engine/audit.py. Audit/Tables has the queue audit_log_pending and the
-- table audit_log, Audit/Hash the hash of a row, Audit/Drain drain_audit_chain and
-- flush_audit_chain. The answer of the advisory lock is an argument. Audit/Reach orders
-- enqueueing and drains as steps, Audit/Fork shows what happens outside that order. Audit/Query
-- is src/z3rno_core/engine/audit_query.py; Query/Walk follows the cursors of its pages, on fuel
-- for the number of pages.
--
-- ForgetProof is src/z3rno_core/forget_proof/certificate.py: Leaves, Tree (build_merkle_root,
-- whose loop runs on fuel, the number of leaves, which is enough since each round shortens the
-- level), Sign (the body, the signature and its check). Tamper and Coverage say what a root
-- commits to.
--
-- Chunking/Tokens is src/z3rno_core/chunking/token_chunker.py with the tokenizer as a parameter;
-- its loop runs on fuel, the number of tokens, which is enough since each round moves on by one
-- at least. Chunking/Paragraphs is src/z3rno_core/chunking/semantic_chunker.py with the matches
-- of its pattern as a parameter. Temporal is src/z3rno_core/temporal/memo_versioning.py over the
-- table of migrations/versions/026, and Temporal/Queries is src/z3rno_core/temporal/queries.py
-- over the table memories (Queries/Single reasons about them). Conversations is
-- src/z3rno_core/conversations/helpers.py with the constraints of migrations/versions/028;
-- add_turn updates memories under the trigger of Memories. Conversations/Steps has the operations
-- that write the table as steps, and Conversations/Growth their sequences. Usage is
-- src/z3rno_core/usage/counters.py over the table of migrations/versions/029.
--
-- Text has methods of Python's str. Refine/Dedupe is src/z3rno_core/refine/dedupe.py over the
-- table with its trigger, and Refine/Scheduler is src/z3rno_core/refine/scheduler.py;
-- Scheduler/Rotation orders the ticks of the beat task. Refine/Prune is
-- src/z3rno_core/refine/prune.py. MemoryTiers/Router is src/z3rno_core/memory_tiers/router.py.
-- Retrieval/Base is src/z3rno_core/retrieval/base.py and Retrieval/Auto is
-- src/z3rno_core/retrieval/strategies/auto.py, which routes by MemoryTiers/Router.
-- Loaders/Registry is src/z3rno_core/loaders/registry.py, and Ingest/State is
-- src/z3rno_core/ingest/state.py.
--
-- Parameters: SHA-256, the JSON text of a row, of a certificate and of audit details, and
-- ed25519, of which it is assumed that a signature verifies under the public half of its key; the
-- similarity of vectors, the answers of language models, matches of patterns, the case methods of
-- str and what pathlib finds. Not modelled: the graph mirror in Apache AGE, the policies of row-
-- level security, vector search, the loaders themselves, scrapers and object storage, arithmetic
-- on floating-point weights (reweighting and decay), and the parts of the engine that later
-- modules may take up (recall, inference and summaries of refine, the pipelines, ontology).
mod Prelude
pub mod Models
pub mod Result
pub mod Memories
pub mod Engine
pub mod Text
pub mod Refine
pub mod MemoryTiers
pub mod Retrieval
pub mod Loaders
pub mod Ingest
pub mod Conversations
pub mod Usage
pub mod Temporal
pub mod Chunking
pub mod ForgetProof
pub mod Audit
mod Tests
