-- ===== src/Retrieval/Auto/Choice.antt =====
-- Which strategy is chosen.
use text.Mathlib.Text.{◌==◌ as str_eq}
use z3rno_core.Prelude.{
  ◌≡◌, refl, sym, subst, Bool, true, false, not, ◌&&◌, String, Option, none, some, List, [], ◌∷◌,
  any, is_none, if◌then◌else◌, ◌==◌, Bool-cases, ◌⊎◌, inl, inr, All, arith,
}
use z3rno_core.Text.{no_text, strip}
use z3rno_core.Retrieval.Base.{Query}
use z3rno_core.Retrieval.Auto.{
  Answer, choice, llm_failed, unexpected, Gateway, Env, AutoState, auto_candidate_strategies,
  graph_dependent_strategies, is_in, cached_choice, cache_get, cache_set, of_answer, or_ask,
  classify, find_checked, fresh_answer, or_probe, has_graph_corpus, downgrade, choose,
}

-- The classifier's cache holds strategies that AUTO may choose.
abbrev pub IsGoodCache : Option (List (String × String)) → Type 0
IsGoodCache none = Unit
IsGoodCache (some cache) = All (λ entry. is_in entry.1 auto_candidate_strategies ≡ true) cache

-- What holds of a choice: the strategy, the cache, and the graph cache as it was.
abbrev IsSound : AutoState → AutoState × String → Type 0
IsSound s out =
    (is_in out.1 auto_candidate_strategies ≡ true)
    × IsGoodCache out.0.classifier_cache
    × (out.0.graph_corpus_cache ≡ s.graph_corpus_cache)

cached_choice-good :
    (key v : String) (cache : List (String × String))
    → IsGoodCache (some cache)
    → cached_choice key cache ≡ some v
    → is_in v auto_candidate_strategies ≡ true
unfolding cached_choice
cached_choice-good key v [] a h = cc h
cached_choice-good key v ((k, w) ∷ rest) a h = elim (Bool-cases (str_eq k key)) [
  | inl e ↦
      let same : w ≡ v = (let g : some w ≡ some v = rw e at h in cc g) in
      subst (λ z. is_in z auto_candidate_strategies ≡ true) same a.0
  | inr e ↦ cached_choice-good key v rest a.1 (rw e at h)
]

cache_get-good :
    (key v : String) (cache : Option (List (String × String)))
    → IsGoodCache cache
    → cache_get key cache ≡ some v
    → is_in v auto_candidate_strategies ≡ true
cache_get-good key v none a h = cc h
cache_get-good key v (some cache) a h = cached_choice-good key v cache a h

cache_set-IsGoodCache :
    (key v : String) (cache : Option (List (String × String)))
    → IsGoodCache cache
    → is_in v auto_candidate_strategies ≡ true
    → IsGoodCache (cache_set key v cache)
cache_set-IsGoodCache key v none a h = tt
cache_set-IsGoodCache key v (some cache) a h = (h, a)

of_answer-IsSound :
    (upper : String → String) (key : String) (a : Answer) (s : AutoState)
    → IsGoodCache s.classifier_cache
    → IsSound s (of_answer upper key a s)
of_answer-IsSound upper key (llm_failed name) s g = (refl, g, refl)
of_answer-IsSound upper key (unexpected name) s g = (refl, g, refl)
of_answer-IsSound upper key (choice strategy reason) s g =
    elim (Bool-cases (is_in (strip (upper strategy)) auto_candidate_strategies)) [
      | inl e ↦
          rw e (e, cache_set-IsGoodCache key (strip (upper strategy)) s.classifier_cache g e, refl)
      | inr e ↦ rw e (refl, cache_set-IsGoodCache key "VECTOR" s.classifier_cache g refl, refl)
    ]

classify-IsSound :
    (env : Env) (gateway : Option Gateway) (query : String) (s : AutoState)
    → IsGoodCache s.classifier_cache
    → IsSound s (classify env gateway query s)
unfolding classify
classify-IsSound env none query s g = (refl, g, refl)
classify-IsSound env (some gw) query s g = elim (Bool-cases (no_text (strip query))) [
  | inl e ↦ rw e (refl, g, refl)
  | inr e ↦ rw e (by_cache (cache_get (strip query) s.classifier_cache) refl)
]
  where
    by_cache :
        (o : Option String)
        → cache_get (strip query) s.classifier_cache ≡ o
        → IsSound s (or_ask o env gw query s)
    by_cache (some v) e = (cache_get-good (strip query) v s.classifier_cache g e, g, refl)
    by_cache none e = of_answer-IsSound env.upper (strip query) (gw.classify query) s g

-- The probe finds nothing, and no answer of it is kept.
abbrev pub has_no_graph : Env → Query → AutoState → Bool
has_no_graph env q s =
    not env.probe_fails
    && (is_none (fresh_answer env.monotonic (find_checked q.org_id q.agent_id s.graph_corpus_cache))
        && not (any (λ r. r.org_id == q.org_id) env.relationships))

probe-cache :
    (o : Option Bool) (env : Env) (q : Query) (s : AutoState)
    → (or_probe o env q.org_id q.agent_id s).0.classifier_cache ≡ s.classifier_cache
probe-cache (some b) env q s = refl
probe-cache none env q s = elim (Bool-cases env.probe_fails) [ inl e ↦ rw e | inr e ↦ rw e ]

probe-none :
    (o : Option Bool) (env : Env) (q : Query) (s : AutoState)
    → (not env.probe_fails
        && (is_none o && not (any (λ r. r.org_id == q.org_id) env.relationships)))
      ≡ true
    → (or_probe o env q.org_id q.agent_id s).1 ≡ false
probe-none (some b) env q s h = absurd (let p = env.probe_fails in ground arith)
probe-none none env q s h = elim (Bool-cases env.probe_fails) [
  | inl e ↦ absurd (let z : false ≡ true = rw e at h in cc z)
  | inr e ↦ elim (Bool-cases (any (λ r. r.org_id == q.org_id) env.relationships)) [
    | inl f ↦ absurd (let z : false ≡ true = rw (e, f) at h in cc z)
    | inr f ↦ rw (e, f)
  ]
]

downgrade-good :
    (chosen : String) (out : AutoState × Bool)
    → is_in chosen auto_candidate_strategies ≡ true
    → IsGoodCache out.0.classifier_cache
    → (is_in (downgrade chosen out).1 auto_candidate_strategies ≡ true)
      × IsGoodCache (downgrade chosen out).0.classifier_cache
downgrade-good chosen (s, true) h g = (h, g)
downgrade-good chosen (s, false) h g = (refl, g)

downgraded :
    (chosen : String) (out : AutoState × Bool) → out.1 ≡ false → (downgrade chosen out).1 ≡ "VECTOR"
downgraded chosen (s, true) h = cc h
downgraded chosen (s, false) h = refl

-- Whatever the model answers or raises, AUTO chooses one of its candidate strategies, where the
-- classifier's cache holds candidates only, and that cache still does. It never chooses a strategy that
-- needs a graph for an organisation without relationships, where the probe works and no answer of it is
-- kept.
pub choose-candidate :
    (env : Env) (q : Query) (s : AutoState)
    → IsGoodCache s.classifier_cache
    → (is_in (choose env q s).1 auto_candidate_strategies ≡ true)
      × IsGoodCache (choose env q s).0.classifier_cache
      × ((is_in (choose env q s).1 graph_dependent_strategies && has_no_graph env q s) ≡ false)
unfolding choose has_graph_corpus
choose-candidate env q s g = by_graph (Bool-cases (is_in chosen graph_dependent_strategies))
  where
    s1 : AutoState
    s1 = (classify env env.llm_gateway q.query s).0

    chosen : String
    chosen = (classify env env.llm_gateway q.query s).1

    sound : IsSound s (classify env env.llm_gateway q.query s)
    sound = classify-IsSound env env.llm_gateway q.query s g

    probed : AutoState × Bool
    probed =
        or_probe
          (fresh_answer env.monotonic (find_checked q.org_id q.agent_id s1.graph_corpus_cache)) env
          q.org_id q.agent_id s1

    by_graph :
        (is_in chosen graph_dependent_strategies ≡ true)
          ⊎ (is_in chosen graph_dependent_strategies ≡ false)
        → (is_in
              (if is_in chosen graph_dependent_strategies
                then downgrade chosen probed
                else (s1, chosen)).1
              auto_candidate_strategies
            ≡ true)
          × IsGoodCache
              (if is_in chosen graph_dependent_strategies
                then downgrade chosen probed
                else (s1, chosen)).0.classifier_cache
          × ((is_in
                  (if is_in chosen graph_dependent_strategies
                    then downgrade chosen probed
                    else (s1, chosen)).1
                  graph_dependent_strategies
                && has_no_graph env q s)
              ≡ false)
    by_graph (inr e) = rw (e, e) (sound.0, sound.1, refl)
    by_graph (inl e) =
        let (candidate, cache) =
          downgrade-good chosen probed sound.0
            (subst IsGoodCache (sym (probe-cache _ env q s1)) sound.1) in
        rw e (
          candidate,
          cache,
          elim (Bool-cases (has_no_graph env q s)) [
            | inr f ↦
                (let b = is_in (downgrade chosen probed).1 graph_dependent_strategies in
                  ground arith)
            | inl f ↦
                let gone =
                  probe-none
                    (fresh_answer env.monotonic
                      (find_checked q.org_id q.agent_id s1.graph_corpus_cache))
                    env q s1
                    (subst
                      (λ c.
                        (not env.probe_fails
                          && (is_none
                                (fresh_answer env.monotonic (find_checked q.org_id q.agent_id c))
                              && not (any (λ r. r.org_id == q.org_id) env.relationships)))
                        ≡ true)
                      (sym sound.2) f) in
                let v = downgraded chosen probed gone in
                subst (λ z. (is_in z graph_dependent_strategies && has_no_graph env q s) ≡ false)
                  (sym v) refl
          ],
        )
