-- ===== src/Memories/Table.antt =====
-- The rows of `memories`. A score is a number of millionths, a JSON document is its text, and an
-- embedding is the literal of its vector.
use text.Mathlib.Text.{◌==◌ as str_eq}
use z3rno_core.Prelude.{
  ℕ, String, Bool, true, false, not, Option, none, some, List, [], ◌∷◌, ◌++◌, map, any,
  if◌then◌else◌, ◌==◌,
}
use z3rno_core.Models.{Uuid, MemoryType, working, episodic, semantic, procedural}
use z3rno_core.Result.{Result, ok, raise, unique_violation}

pub record Memory : Type 0 where
  pub id : Uuid
  pub org_id : Uuid
  pub agent_id : Uuid
  pub user_id : Option Uuid
  pub memory_type : MemoryType
  pub content : String
  pub summary : Option String
  pub metadata : String
  pub importance_score : ℕ
  pub recall_count : ℕ
  pub last_recalled_at : Option ℕ
  pub valid_from : ℕ
  pub valid_to : Option ℕ
  pub pinned : Bool
  pub ttl_expires_at : Option ℕ
  pub deleted_at : Option ℕ
  pub quarantined : Bool
  pub anomaly_score : ℕ
  pub created_at : ℕ
  pub updated_at : ℕ
  pub dataset_id : Option Uuid
  pub conversation_id : Option Uuid
  pub turn_index : Option ℕ
  pub turn_role : Option String
  pub embedding : Option String
  pub embedding_model : Option String
  pub memo_type : Option String
  pub ontology_uri : Option String
  pub distill_provenance : Option String

-- `a = b` on the columns' types; on options it is IS NOT DISTINCT FROM.
abbrev pub bool_eq : Bool → Bool → Bool
bool_eq true b = b
bool_eq false b = not b

abbrev pub type_eq : MemoryType → MemoryType → Bool
type_eq working working = true
type_eq episodic episodic = true
type_eq semantic semantic = true
type_eq procedural procedural = true
type_eq _ _ = false

abbrev pub same_number : Option ℕ → Option ℕ → Bool
same_number none none = true
same_number (some a) (some b) = a == b
same_number _ _ = false

abbrev pub same_text : Option String → Option String → Bool
same_text none none = true
same_text (some a) (some b) = str_eq a b
same_text _ _ = false

abbrev pub has_id : Uuid → Memory → Bool
has_id id m = m.id == id

-- INSERT under PRIMARY KEY (id).
unfoldable pub insert_memory : Memory → List Memory → Result (List Memory)
insert_memory m table =
    if any (has_id m.id) table then raise unique_violation else ok (table ++ m ∷ [])

-- The row of an id is written anew.
abbrev pub replace : Uuid → Memory → List Memory → List Memory
replace id m = map (λ r. if has_id id r then m else r)
