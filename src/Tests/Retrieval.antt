-- ===== src/Tests/Retrieval.antt =====
-- A strategy that finds memory 1 twice, and a model that picks GRAPH for a tenant without a graph.
use z3rno_core.Prelude.{ℕ, ◌≡◌, refl, true, false, ◌&&◌, String, none, some, [], ◌∷◌}
use z3rno_core.Models.{Uuid, working, semantic}
use z3rno_core.Result.{ok}
use z3rno_core.Retrieval.Base.{StrategyResult, Query, RetrievalStrategy}
use z3rno_core.Retrieval.Auto.{
  Answer, Env, AutoState, auto_candidate_strategies, graph_dependent_strategies, is_in, fan_out,
  choose,
}
use z3rno_core.Retrieval.Auto.Choice.{IsGoodCache, has_no_graph, choose-candidate}

abbrev found : Uuid → ℕ → StrategyResult
found id score = record {
  memory_id = id;
  content = "";
  summary = none;
  memory_type = semantic;
  importance_score = 0;
  relevance_score = score;
  recall_count = 0;
  created_at = 0;
  valid_from = 0;
  metadata = "{}";
  score_components = "{}";
  graph_context = "[]";
}

abbrev strategy : RetrievalStrategy
strategy = record { name = "VECTOR"; retrieve = λ q. ok (found 1 5 ∷ found 2 9 ∷ found 1 7 ∷ []) }

abbrev query : Query
query = record {
  org_id = 7;
  agent_id = 1;
  query = "tea";
  top_k = 2;
  memory_type = none;
  metadata_filter = none;
  similarity_threshold = 0;
  tier_route = true;
  extra = "";
}

best_two : fan_out strategy query (working ∷ semantic ∷ []) ≡ found 2 9 ∷ found 1 7 ∷ []
unfolding fan_out
best_two = refl

abbrev same : String → String
same s = s

abbrev env : Env
env = record {
  upper = same;
  lower = same;
  casefold = same;
  search = λ n s. false;
  registry = ("VECTOR", strategy) ∷ [];
  llm_gateway =
      some (record { classify = λ s. Answer.choice "GRAPH" "linked"; classify_tiers = λ s. none });
  relationships = [];
  probe_fails = false;
  monotonic = 5;
}

abbrev fresh : AutoState
fresh = record {
  delegated_to = "VECTOR";
  classifier_reason = "";
  tier_decision = none;
  classifier_cache = some [];
  graph_corpus_cache = [];
}

downgraded : (choose env query fresh).1 ≡ "VECTOR"
unfolding choose
downgraded = refl

choose-candidate_example :
    (is_in (choose env query fresh).1 auto_candidate_strategies ≡ true)
    × IsGoodCache (choose env query fresh).0.classifier_cache
    × ((is_in (choose env query fresh).1 graph_dependent_strategies && has_no_graph env query fresh)
        ≡ false)
choose-candidate_example = choose-candidate env query fresh tt
