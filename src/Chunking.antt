-- ===== src/Chunking.antt =====
-- chunking/token_chunker.py.
pub mod Tokens
pub mod Paragraphs
pub mod Cover
