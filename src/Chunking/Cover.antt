-- ===== src/Chunking/Cover.antt =====
-- How the chunks of `chunk_by_tokens` lie in the tokens.
use z3rno_core.Prelude.{ℕ, suc, ◌+◌, ◌≤◌, ◌<◌, List, [], ◌∷◌, length}
use z3rno_core.Chunking.Tokens.{Encoding, Chunk, chunk_at}

-- The chunks of windows that start at `i`, `i + step`, …, numbered from `index`: each but the last
-- starts a step before the next one and is full, and the last one ends the tokens.
pub data Covers (enc : Encoding) (chunk_size step : ℕ) (tokens : List ℕ)
    : ℕ → ℕ → List Chunk → Type 0 where
  last :
      {index i : ℕ}
      → i < length tokens
      → length tokens ≤ i + chunk_size
      → Covers enc chunk_size step tokens index i (chunk_at enc chunk_size index i tokens ∷ [])
  next :
      {index i : ℕ} {cs : List Chunk}
      → i + chunk_size < length tokens
      → Covers enc chunk_size step tokens (suc index) (i + step) cs
      → Covers enc chunk_size step tokens index i (chunk_at enc chunk_size index i tokens ∷ cs)
