-- ===== src/Refine/Prune.antt =====
-- refine/prune.py: relationships below a weight, which is in millionths, go.
use z3rno_core.Prelude.{ℕ, Bool, not, ◌&&◌, List, filter, length, ltb, ◌==◌}
use z3rno_core.Models.{Uuid}
use z3rno_core.Engine.State.{Relationship}

abbrev pub is_light : Uuid → ℕ → Relationship → Bool
is_light org threshold r = (r.org_id == org) && ltb r.weight threshold

-- The rows that stay, and `edges_pruned`.
unfoldable pub run_prune : Uuid → ℕ → List Relationship → List Relationship × ℕ
run_prune org threshold rows = (
  filter (λ r. not (is_light org threshold r)) rows,
  length (filter (is_light org threshold) rows),
)
