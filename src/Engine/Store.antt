-- ===== src/Engine/Store.antt =====
-- engine/store.py: `store`. The embedding provider and the similarity that the vector index computes
-- are parameters, and so are the uuids and the JSON texts.
use z3rno_core.Prelude.{
  ℕ, ◌+◌, Bool, true, false, not, ◌&&◌, ◌||◌, String, Option, none, some, List, [], ◌∷◌, ◌++◌, map,
  filter, any, head?, is_none, is_some, leb, ltb, if◌then◌else◌, ◌==◌,
}
use z3rno_core.Prelude.Sort.{sort}
use z3rno_core.Models.{Uuid, MemoryType, RelationshipType, AuditOperation}
use z3rno_core.Result.{
  Result, ok, raise, store_error, duplicate_memory, unique_violation, check_violation,
  foreign_key_violation, ◌>>=◌, refuse,
}
use z3rno_core.Memories.Table.{Memory, has_id, insert_memory}
use z3rno_core.Temporal.Versions.{MemoVersion, record_memo_version}
use z3rno_core.Engine.State.{
  State, Transaction, active, aborted, Relationship, Context, audited, is_blank,
}
pub mod Inserted
pub mod Stored
pub mod Accepted

-- `embed_text` gives the literal of the vector, and nothing where the vector is empty.
pub record EmbeddingProvider : Type 0 where
  pub embed_text : String → Option String
  pub model_name : String

-- `rel_id` is what `uuid4()` gives for the row.
pub record RelationshipInput : Type 0 where
  pub rel_id : Uuid
  pub target_memory_id : Uuid
  pub relationship_type : RelationshipType
  pub weight : ℕ
  pub metadata : String

pub record StoreInput : Type 0 where
  pub agent_id : Uuid
  pub content : String
  pub memory_type : MemoryType
  pub embedding_provider : Option EmbeddingProvider
  pub user_id : Option Uuid
  pub metadata : String
  pub relationships : List RelationshipInput
  pub ttl_seconds : Option ℕ
  pub importance : Option ℕ
  pub check_duplicates : Bool
  pub duplicate_threshold : ℕ
  pub dataset_id : Option Uuid
  pub distill_provenance : Option String

pub record StoreResult : Type 0 where
  pub memory_id : Uuid
  pub embedding_model : Option String
  pub importance_score : ℕ
  pub created_at : ℕ

abbrev pub importance_of : Option ℕ → ℕ
importance_of none = 500000
importance_of (some i) = i

abbrev pub embedding_of : Option EmbeddingProvider → String → Option String
embedding_of none content = none
embedding_of (some p) content = p.embed_text content

abbrev pub model_of : Option EmbeddingProvider → Option String
model_of none = none
model_of (some p) = some p.model_name

-- `if ttl_seconds`: no time, and no seconds, are no limit.
abbrev pub expiry : ℕ → Option ℕ → Option ℕ
expiry now none = none
expiry now (some s) = if s == 0 then none else some (now + s)

-- The rows that a duplicate is sought among.
abbrev pub is_comparable : Uuid → Uuid → Memory → Bool
is_comparable org agent m =
    (m.org_id == org)
    && ((m.agent_id == agent)
        && (is_some m.embedding && (is_none m.deleted_at && is_none m.valid_to)))

abbrev pub similarity_to : (String → String → ℕ) → String → Memory → ℕ
similarity_to similarity e m = score m.embedding
  where
    score : Option String → ℕ
    score none = 0
    score (some f) = similarity e f

-- ORDER BY embedding <=> :query_vec, the nearest first
abbrev pub nearer : (String → String → ℕ) → String → Memory → Memory → Bool
nearer similarity e a b = leb (similarity_to similarity e b) (similarity_to similarity e a)

abbrev exceeds : (String → String → ℕ) → String → ℕ → Option Memory → Bool
exceeds similarity e threshold none = false
exceeds similarity e threshold (some m) = ltb threshold (similarity_to similarity e m)

unfoldable pub is_duplicate :
    (String → String → ℕ) → Uuid → StoreInput → Option String → State → Bool
unfolding sort
is_duplicate similarity org i none s = false
is_duplicate similarity org i (some e) s =
    i.check_duplicates
    && exceeds similarity e i.duplicate_threshold
        (head? (sort (nearer similarity e) (filter (is_comparable org i.agent_id) s.memories)))

abbrev pub new_memory : Uuid → Uuid → StoreInput → ℕ → Memory
new_memory id org i now = record {
  id = id;
  org_id = org;
  agent_id = i.agent_id;
  user_id = i.user_id;
  memory_type = i.memory_type;
  content = i.content;
  summary = none;
  metadata = i.metadata;
  importance_score = importance_of i.importance;
  recall_count = 0;
  last_recalled_at = none;
  valid_from = now;
  valid_to = none;
  pinned = false;
  ttl_expires_at = expiry now i.ttl_seconds;
  deleted_at = none;
  quarantined = false;
  anomaly_score = 0;
  created_at = now;
  updated_at = now;
  dataset_id = i.dataset_id;
  conversation_id = none;
  turn_index = none;
  turn_role = none;
  embedding = embedding_of i.embedding_provider i.content;
  embedding_model = model_of i.embedding_provider;
  memo_type = none;
  ontology_uri = none;
  distill_provenance = i.distill_provenance;
}

abbrev pub new_relationship : Uuid → Uuid → RelationshipInput → Relationship
new_relationship id org rel = record {
  id = rel.rel_id;
  org_id = org;
  source_memory_id = id;
  target_memory_id = rel.target_memory_id;
  relationship_type = rel.relationship_type;
  weight = rel.weight;
  metadata = rel.metadata;
}

-- INSERT under the primary key, the CHECK constraints and the foreign keys of migration 008.
unfoldable pub insert_relationship :
    List Memory → Relationship → List Relationship → Result (List Relationship)
insert_relationship memories r rows =
    refuse (any (λ x. x.id == r.id) rows) unique_violation >>= λ _.
    (refuse (ltb 1000000 r.weight || (r.source_memory_id == r.target_memory_id)) check_violation
      >>= λ _.
          (refuse
              (not (
                any (has_id r.source_memory_id) memories
                && any (has_id r.target_memory_id) memories))
              foreign_key_violation
            >>= λ _. ok (rows ++ r ∷ [])))

unfoldable pub insert_relationships :
    List Memory
    → Uuid
    → Uuid
    → List RelationshipInput
    → List Relationship
    → Result (List Relationship)
unfolding insert_relationship
insert_relationships memories id org [] rows = ok rows
insert_relationships memories id org (rel ∷ rels) rows =
    insert_relationship memories (new_relationship id org rel) rows
    >>= insert_relationships memories id org rels

-- The recording of a version under its `try`, whose exception is caught without a savepoint.
abbrev pub or_abort : State → Result (List MemoVersion × ℕ) → Transaction
or_abort s (ok (rows, n)) = active (record s { versions = rows })
or_abort s (raise e) = aborted

-- `id` is what `uuid4()` gives, `clock` what the clock of the process gives, `now` the start of the
-- transaction. `details` and `properties` are the JSON texts of the audit row and of the version.
unfoldable pub store :
    (String → String → ℕ)
    → (StoreInput → String)
    → (StoreInput → String)
    → Uuid
    → Uuid
    → StoreInput
    → Context
    → ℕ
    → ℕ
    → State
    → Result (Transaction × StoreResult)
unfolding is_blank is_duplicate insert_memory insert_relationships audited record_memo_version
store similarity details properties id org i c clock now s =
    refuse (is_blank i.content) store_error >>= λ _.
    (refuse (ltb 1000000 (importance_of i.importance)) store_error >>= λ _.
    (refuse (is_duplicate similarity org i (embedding_of i.embedding_provider i.content) s)
        duplicate_memory
      >>= λ _.
          (insert_memory (new_memory id org i clock) s.memories >>= λ memories.
          (insert_relationships memories id org i.relationships s.relationships >>= λ relationships.
          (let s1 : State =
              audited org AuditOperation.store (some id) (some i.memory_type) (details i)
                (record c { agent_id = some i.agent_id; user_id = i.user_id }) now
                (record s { memories = memories; relationships = relationships }) in
            ok (
              or_abort s1 (record_memo_version org id (properties i) now s.versions),
              record {
                memory_id = id;
                embedding_model = model_of i.embedding_provider;
                importance_score = importance_of i.importance;
                created_at = clock;
              },
            ))))))
