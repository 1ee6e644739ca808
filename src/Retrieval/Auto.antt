-- ===== src/Retrieval/Auto.antt =====
-- retrieval/strategies/auto.py. The language model, the strategies of the registry and the methods of
-- `str` are parameters; times of the monotonic clock are in milliseconds.
use Prim.Native.String.{◌++◌ as append}
use text.Mathlib.Text.{◌==◌ as str_eq}
use z3rno_core.Prelude.{
  ℕ, ◌-◌, Bool, true, false, not, ◌&&◌, String, Option, none, some, List, [], ◌∷◌, ◌++◌, map, any,
  take, length, is_none, is_some, leb, ltb, if◌then◌else◌, ◌==◌,
}
use z3rno_core.Prelude.Sort.{sort}
use z3rno_core.Models.{Uuid, MemoryType}
use z3rno_core.Result.{Result, ok, raise, index_error}
use z3rno_core.Engine.State.{Relationship}
use z3rno_core.Text.{no_text, strip, or_text}
use z3rno_core.MemoryTiers.Router
use z3rno_core.MemoryTiers.Router.{TierRouteDecision, LlmTierChoice}
use z3rno_core.Retrieval.Base.{StrategyResult, Query, RetrievalStrategy, Registry, get_strategy}
pub mod Merge
pub mod Choice

-- What the call of the classifier gives: a strategy with a reason, or an exception with its type's name.
pub data Answer : Type 0 where
  choice : String → String → Answer
  llm_failed unexpected : String → Answer

-- A gateway answers the classifier and the router of tiers.
pub record Gateway : Type 0 where
  pub classify : String → Answer
  pub classify_tiers : String → Option LlmTierChoice

-- An entry of `_GRAPH_CORPUS_CACHE`.
pub record Checked : Type 0 where
  pub org_id : Uuid
  pub agent_id : Uuid
  pub checked_at : ℕ
  pub has_corpus : Bool

-- What a call finds around it. `probe_fails` is a database error of the probe.
pub record Env : Type 0 where
  pub upper : String → String
  pub lower : String → String
  pub casefold : String → String
  pub search : ℕ → String → Bool
  pub registry : Registry
  pub llm_gateway : Option Gateway
  pub relationships : List Relationship
  pub probe_fails : Bool
  pub monotonic : ℕ

-- What outlives a call or can be read after it; `classifier_cache` is none where the caller gives none.
pub record AutoState : Type 0 where
  pub delegated_to : String
  pub classifier_reason : String
  pub tier_decision : Option TierRouteDecision
  pub classifier_cache : Option (List (String × String))
  pub graph_corpus_cache : List Checked

abbrev pub auto_candidate_strategies : List String
auto_candidate_strategies =
    "VECTOR" ∷ "LEXICAL" ∷ "GRAPH" ∷ "TRIPLET" ∷ "TRACE" ∷ "TEMPORAL" ∷ "ASK" ∷ []

abbrev pub graph_dependent_strategies : List String
graph_dependent_strategies = "GRAPH" ∷ "TRIPLET" ∷ "TRACE" ∷ "ASK" ∷ []

abbrev pub is_in : String → List String → Bool
is_in s names = any (str_eq s) names

-- `cache.get` and `cache.set` of the classifier's cache.
unfoldable pub cached_choice : String → List (String × String) → Option String
cached_choice key [] = none
cached_choice key ((k, v) ∷ rest) =
    let later = cached_choice key rest in if str_eq k key then some v else later

abbrev pub cache_get : String → Option (List (String × String)) → Option String
cache_get key none = none
cache_get key (some cache) = cached_choice key cache

abbrev pub cache_set :
    String → String → Option (List (String × String)) → Option (List (String × String))
cache_set key v none = none
cache_set key v (some cache) = some ((key, v) ∷ cache)

abbrev pub accept : String → String → String → AutoState → AutoState × String
accept key chosen reason s =
    if is_in chosen auto_candidate_strategies
    then (
      record s {
        classifier_reason = reason;
        classifier_cache = cache_set key chosen s.classifier_cache;
      },
      chosen,
    )
    else (
      record s {
        classifier_reason = append "out_of_set:" chosen;
        classifier_cache = cache_set key "VECTOR" s.classifier_cache;
      },
      "VECTOR",
    )

abbrev pub of_answer : (String → String) → String → Answer → AutoState → AutoState × String
of_answer upper key (llm_failed name) s =
    (record s { classifier_reason = append "llm_failed:" name }, "VECTOR")
of_answer upper key (unexpected name) s =
    (record s { classifier_reason = append "unexpected:" name }, "VECTOR")
of_answer upper key (choice strategy reason) s = accept key (strip (upper strategy)) reason s

abbrev pub or_ask : Option String → Env → Gateway → String → AutoState → AutoState × String
or_ask (some v) env g query s = (record s { classifier_reason = "cache_hit" }, v)
or_ask none env g query s = of_answer env.upper (strip query) (g.classify query) s

unfoldable pub classify : Env → Option Gateway → String → AutoState → AutoState × String
unfolding strip cached_choice
classify env none query s = (record s { classifier_reason = "no_llm_gateway" }, "VECTOR")
classify env (some g) query s =
    if no_text (strip query)
    then (record s { classifier_reason = "no_llm_gateway" }, "VECTOR")
    else or_ask (cache_get (strip query) s.classifier_cache) env g query s

-- The lifetime of an entry, a minute.
abbrev graph_corpus_ttl : ℕ
graph_corpus_ttl = 60000

unfoldable pub find_checked : Uuid → Uuid → List Checked → Option Checked
find_checked org agent [] = none
find_checked org agent (c ∷ cs) =
    let later = find_checked org agent cs in
    if (c.org_id == org) && (c.agent_id == agent) then some c else later

abbrev pub fresh_answer : ℕ → Option Checked → Option Bool
fresh_answer now none = none
fresh_answer now (some c) =
    if ltb (now - c.checked_at) graph_corpus_ttl then some c.has_corpus else none

abbrev pub or_probe : Option Bool → Env → Uuid → Uuid → AutoState → AutoState × Bool
or_probe (some b) env org agent s = (s, b)
or_probe none env org agent s =
    if env.probe_fails
    then (s, true)
    else (let has_corpus = any (λ r. r.org_id == org) env.relationships in
        (
          record s {
            graph_corpus_cache =
                record {
                  org_id = org;
                  agent_id = agent;
                  checked_at = env.monotonic;
                  has_corpus = has_corpus;
                }
                ∷ s.graph_corpus_cache;
          },
          has_corpus,
        ))

unfoldable pub has_graph_corpus : Env → Uuid → Uuid → AutoState → AutoState × Bool
unfolding find_checked
has_graph_corpus env org agent s =
    or_probe (fresh_answer env.monotonic (find_checked org agent s.graph_corpus_cache)) env org
      agent s

abbrev pub downgrade : String → AutoState × Bool → AutoState × String
downgrade chosen (s, true) = (s, chosen)
downgrade chosen (s, false) = (
  record s {
    classifier_reason =
        append (or_text s.classifier_reason "llm")
          (append " | downgraded from " (append chosen " (no graph corpus)"));
  },
  "VECTOR",
)

-- The strategy after the probe for a graph.
unfoldable pub choose : Env → Query → AutoState → AutoState × String
unfolding classify has_graph_corpus
choose env q s =
    let (s1, chosen) = classify env env.llm_gateway q.query s in
    if is_in chosen graph_dependent_strategies
    then downgrade chosen (has_graph_corpus env q.org_id q.agent_id s1)
    else (s1, chosen)

-- `merged[r.memory_id] = r` where the memory is new or scores higher
unfoldable pub put_best : StrategyResult → List StrategyResult → List StrategyResult
put_best r [] = r ∷ []
put_best r (m ∷ ms) =
    let rest = put_best r ms in
    if m.memory_id == r.memory_id
    then (if ltb m.relevance_score r.relevance_score then r ∷ ms else m ∷ ms)
    else m ∷ rest

unfoldable pub merge_results : List StrategyResult → List StrategyResult → List StrategyResult
unfolding put_best
merge_results [] merged = merged
merge_results (r ∷ rs) merged = merge_results rs (put_best r merged)

-- sorted(…, key=relevance_score, reverse=True)
abbrev pub by_relevance : StrategyResult → StrategyResult → Bool
by_relevance a b = leb b.relevance_score a.relevance_score

abbrev pub or_nothing : Result (List StrategyResult) → List StrategyResult
or_nothing (ok rs) = rs
or_nothing (raise e) = []

-- The results of all tiers, in their order; a strategy that raises gives none.
abbrev pub per_tier : RetrievalStrategy → Query → List MemoryType → List StrategyResult
per_tier strategy q [] = []
per_tier strategy q (t ∷ ts) =
    or_nothing (strategy.retrieve (record q { memory_type = some t; tier_route = false }))
    ++ per_tier strategy q ts

unfoldable pub fan_out : RetrievalStrategy → Query → List MemoryType → List StrategyResult
unfolding merge_results sort
fan_out strategy q tiers =
    take q.top_k (sort by_relevance (merge_results (per_tier strategy q tiers) []))

abbrev pub tiers_gateway : Option Gateway → Option (String → Option LlmTierChoice)
tiers_gateway none = none
tiers_gateway (some g) = some g.classify_tiers

-- One delegate call with the tier as its filter, or the fan-out.
abbrev pub by_tiers : RetrievalStrategy → Query → List MemoryType → Result (List StrategyResult)
by_tiers strategy q [] = raise index_error
by_tiers strategy q (t ∷ []) = strategy.retrieve (record q { memory_type = some t })
by_tiers strategy q (t ∷ (u ∷ ts)) = ok (fan_out strategy q (t ∷ (u ∷ ts)))

unfoldable pub delegate :
    Env → RetrievalStrategy → Query → AutoState → AutoState × Result (List StrategyResult)
unfolding fan_out Router.route_tiers
delegate env strategy q s =
    if q.tier_route && is_none q.memory_type
    then (let decision =
          Router.route_tiers env.search env.casefold env.lower (tiers_gateway env.llm_gateway)
            q.query in
        (record s { tier_decision = some decision }, by_tiers strategy q decision.tiers))
    else (s, strategy.retrieve q)

-- `get_strategy(chosen)`, and VECTOR where it is not registered.
abbrev pub with_strategy :
    Env → Query → AutoState → Result RetrievalStrategy → AutoState × Result (List StrategyResult)
with_strategy env q s (ok strategy) = delegate env strategy q s
with_strategy env q s (raise e) = with_vector (get_strategy env.upper "VECTOR" env.registry)
  where
    with_vector : Result RetrievalStrategy → AutoState × Result (List StrategyResult)
    with_vector (ok strategy) = delegate env strategy q (record s { delegated_to = "VECTOR" })
    with_vector (raise e) = (record s { delegated_to = "VECTOR" }, raise e)

unfoldable pub retrieve : Env → Query → AutoState → AutoState × Result (List StrategyResult)
unfolding choose delegate get_strategy
retrieve env q s =
    let (s1, chosen) = choose env q s in
    with_strategy env q (record s1 { delegated_to = chosen })
      (get_strategy env.upper chosen env.registry)
