-- ===== src/Retrieval/Base.antt =====
-- retrieval/base.py: the results of a strategy, and the registry of strategies. `upper` is `str.upper`.
use text.Mathlib.Text.{◌==◌ as str_eq}
use z3rno_core.Prelude.{ℕ, Bool, String, Option, List, [], ◌∷◌, if◌then◌else◌}
use z3rno_core.Models.{Uuid, MemoryType}
use z3rno_core.Result.{Result, ok, raise, value_error, unknown_strategy}
use z3rno_core.Text.{no_text}

-- Scores are in millionths; dicts and lists of JSON are their texts.
pub record StrategyResult : Type 0 where
  pub memory_id : Uuid
  pub content : String
  pub summary : Option String
  pub memory_type : MemoryType
  pub importance_score : ℕ
  pub relevance_score : ℕ
  pub recall_count : ℕ
  pub created_at : ℕ
  pub valid_from : ℕ
  pub metadata : String
  pub score_components : String
  pub graph_context : String

-- The arguments of `retrieve`; `extra` is what it passes on without looking at it.
pub record Query : Type 0 where
  pub org_id : Uuid
  pub agent_id : Uuid
  pub query : String
  pub top_k : ℕ
  pub memory_type : Option MemoryType
  pub metadata_filter : Option String
  pub similarity_threshold : ℕ
  pub tier_route : Bool
  pub extra : String

pub record RetrievalStrategy : Type 0 where
  pub name : String
  pub retrieve : Query → Result (List StrategyResult)

abbrev pub Registry : Type 0
Registry = List (String × RetrievalStrategy)

-- `_REGISTRY[key] = cls`
unfoldable pub set_strategy : String → RetrievalStrategy → Registry → Registry
set_strategy key cls [] = (key, cls) ∷ []
set_strategy key cls ((k, c) ∷ rest) =
    let later = set_strategy key cls rest in
    if str_eq k key then (k, cls) ∷ rest else (k, c) ∷ later

unfoldable pub register_strategy :
    (String → String) → RetrievalStrategy → Registry → Result Registry
unfolding set_strategy
register_strategy upper cls registry =
    if no_text cls.name then raise value_error else ok (set_strategy (upper cls.name) cls registry)

unfoldable pub find_strategy : String → Registry → Result RetrievalStrategy
find_strategy key [] = raise unknown_strategy
find_strategy key ((k, c) ∷ rest) =
    let later = find_strategy key rest in if str_eq k key then ok c else later

unfoldable pub get_strategy : (String → String) → String → Registry → Result RetrievalStrategy
unfolding find_strategy
get_strategy upper name registry = find_strategy (upper name) registry
