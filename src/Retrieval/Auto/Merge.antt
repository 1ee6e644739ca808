-- ===== src/Retrieval/Auto/Merge.antt =====
-- What the fan-out over tiers keeps.
use z3rno_core.Prelude.{ℕ, Bool, ◌&&◌, leb, ◌==◌}
use z3rno_core.Retrieval.Base.{StrategyResult}

-- A result of the same memory that scores as high at least.
abbrev pub covers : StrategyResult → StrategyResult → Bool
covers r m = (m.memory_id == r.memory_id) && leb r.relevance_score m.relevance_score

abbrev pub memory_of : StrategyResult → ℕ
memory_of m = m.memory_id
