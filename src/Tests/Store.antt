-- ===== src/Tests/Store.antt =====
-- A memory with one relationship.
use z3rno_core.Prelude.{true, none, some, String, ℕ, [], ◌∷◌}
use z3rno_core.Models.{semantic, supports}
use z3rno_core.Engine.State.{State}
use z3rno_core.Engine.Store.{StoreInput}

abbrev similar : String → String → ℕ
similar a b = 0

abbrev given : StoreInput
given = record {
  agent_id = 1;
  content = "likes tea";
  memory_type = semantic;
  embedding_provider = none;
  user_id = none;
  metadata = "{}";
  relationships =
      record {
        rel_id = 200;
        target_memory_id = 2;
        relationship_type = supports;
        weight = 1000000;
        metadata = "{}";
      }
      ∷ [];
  ttl_seconds = some 60;
  importance = none;
  check_duplicates = true;
  duplicate_threshold = 950000;
  dataset_id = none;
  distill_provenance = none;
}
