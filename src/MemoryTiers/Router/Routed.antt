-- ===== src/MemoryTiers/Router/Routed.antt =====
-- What a decision holds, and what the cache does.
use text.Mathlib.Text.{◌==◌ as str_eq}
use text.Mathlib.TextPositions.{eq_refl}
use z3rno_core.Prelude.{
  ℕ, zero, suc, ◌≡◌, ◌≤◌, refl, subst, Bool, false, ◌||◌, String, Option, none, some, List, [], ◌∷◌,
  ◌++◌, map, elem, take, length, ltb, if◌then◌else◌, ◌==◌, Bool-cases, inl, inr, All, arith,
}
use z3rno_core.Models.{MemoryType}
use z3rno_core.Engine.Forget.Targets.{IsUnique}
use z3rno_core.Text.{no_text, strip}
use z3rno_core.MemoryTiers.Router.{
  TierRouteDecision, LlmTierChoice, Router, tier_rank, pattern_tiers, has_tier, add_tier,
  heuristic_hits, tier_of, add_if, chosen_tiers, llm_decision, of_choice, llm_classify, cached,
  without_llm, or_fallback, decide, from_cache, by_cache, route,
}

-- One tier at least, and none twice.
abbrev pub AreTiers : List MemoryType → Type 0
AreTiers ts = (1 ≤ length ts) × IsUnique (map tier_rank ts)

elem-append :
    (a : ℕ) (t : MemoryType) (ts : List MemoryType)
    → elem a (map tier_rank (ts ++ t ∷ [])) ≡ (elem a (map tier_rank ts) || (a == tier_rank t))
elem-append a t [] = ground arith
elem-append a t (u ∷ us) = let ih = elem-append a t us in ground arith

append-IsUnique :
    (t : MemoryType) (ts : List MemoryType)
    → has_tier t ts ≡ false
    → IsUnique (map tier_rank ts)
    → IsUnique (map tier_rank (ts ++ t ∷ []))
append-IsUnique t [] h u = (refl, tt)
append-IsUnique t (x ∷ xs) h u =
    let e = elem-append (tier_rank x) t xs in
    let a = u.0 in ((ground arith), append-IsUnique t xs (ground arith) u.1)

add_tier-IsUnique :
    (t : MemoryType) (ts : List MemoryType)
    → IsUnique (map tier_rank ts)
    → IsUnique (map tier_rank (add_tier t ts))
add_tier-IsUnique t ts u = elim (Bool-cases (has_tier t ts)) [
  | inl e ↦ rw e u
  | inr e ↦ rw e (append-IsUnique t ts e u)
]

heuristic_hits-IsUnique :
    (search : ℕ → String → Bool) (norm : String) (n : ℕ) (ts hits : List MemoryType)
    → IsUnique (map tier_rank hits)
    → IsUnique (map tier_rank (heuristic_hits search norm n ts hits))
unfolding heuristic_hits
heuristic_hits-IsUnique search norm n [] hits u = u
heuristic_hits-IsUnique search norm n (t ∷ ts) hits u =
    heuristic_hits-IsUnique search norm (suc n) ts (if search n norm then add_tier t hits else hits)
      (elim (Bool-cases (search n norm)) [
        | inl e ↦ rw e (add_tier-IsUnique t hits u)
        | inr e ↦ rw e u
      ])

chosen_tiers-IsUnique :
    (lower : String → String) (raws : List String) (ts : List MemoryType)
    → IsUnique (map tier_rank ts)
    → IsUnique (map tier_rank (chosen_tiers lower raws ts))
unfolding chosen_tiers
chosen_tiers-IsUnique lower [] ts u = u
chosen_tiers-IsUnique lower (raw ∷ raws) ts u =
    chosen_tiers-IsUnique lower raws (add_if (tier_of lower raw) ts) (added (tier_of lower raw))
  where
    added : (o : Option MemoryType) → IsUnique (map tier_rank (add_if o ts))
    added none = u
    added (some t) = add_tier-IsUnique t ts u

take-elem :
    (a n : ℕ) (ts : List MemoryType)
    → elem a (map tier_rank ts) ≡ false
    → elem a (map tier_rank (take n ts)) ≡ false
take-elem a zero ts h = refl
take-elem a (suc n) [] h = refl
take-elem a (suc n) (t ∷ ts) h = let ih = take-elem a n ts in ground arith

take-IsUnique :
    (n : ℕ) (ts : List MemoryType)
    → IsUnique (map tier_rank ts)
    → IsUnique (map tier_rank (take n ts))
take-IsUnique zero ts u = tt
take-IsUnique (suc n) [] u = tt
take-IsUnique (suc n) (t ∷ ts) u = (take-elem (tier_rank t) n ts u.0, take-IsUnique n ts u.1)

abbrev IsGood : TierRouteDecision → Type 0
IsGood d = AreTiers d.tiers

abbrev pub IsGoodCache : List (String × TierRouteDecision) → Type 0
IsGoodCache cache = All (λ entry. AreTiers entry.1.tiers) cache

without_llm-IsGood :
    (hits : List MemoryType) → IsUnique (map tier_rank hits) → IsGood (without_llm hits)
without_llm-IsGood [] u = (omega arith, (refl, (refl, (refl, (refl, tt)))))
without_llm-IsGood (t ∷ ts) u = (omega arith, u)

llm_decision-IsGood :
    (ts hits : List MemoryType) (reason : String)
    → IsUnique (map tier_rank ts)
    → IsUnique (map tier_rank hits)
    → IsGood (or_fallback (llm_decision ts reason) hits)
llm_decision-IsGood [] hits reason u v = without_llm-IsGood hits v
llm_decision-IsGood (t ∷ ts) hits reason u v = elim (Bool-cases (ltb 3 (length (t ∷ ts)))) [
  | inl e ↦ rw e (omega arith, take-IsUnique 3 (t ∷ ts) u)
  | inr e ↦ rw e (omega arith, u)
]

llm_classify-IsGood :
    (lower : String → String) (gateway : Option (String → Option LlmTierChoice)) (norm : String)
    (hits : List MemoryType)
    → IsUnique (map tier_rank hits)
    → IsGood (or_fallback (llm_classify lower gateway norm) hits)
unfolding llm_classify
llm_classify-IsGood lower none norm hits u = without_llm-IsGood hits u
llm_classify-IsGood lower (some gateway) norm hits u = of_answer (gateway norm)
  where
    of_answer : (o : Option LlmTierChoice) → IsGood (or_fallback (of_choice lower o) hits)
    of_answer none = without_llm-IsGood hits u
    of_answer (some choice) =
        llm_decision-IsGood (chosen_tiers lower choice.tiers []) hits choice.reason
          (chosen_tiers-IsUnique lower choice.tiers [] tt) u

decide-IsGood :
    (lower : String → String) (gateway : Option (String → Option LlmTierChoice)) (norm : String)
    (hits : List MemoryType)
    → IsUnique (map tier_rank hits)
    → IsGood (decide lower gateway norm hits)
unfolding decide
decide-IsGood lower gateway norm [] u = llm_classify-IsGood lower gateway norm [] u
decide-IsGood lower gateway norm (t ∷ []) u = (omega arith, (refl, tt))
decide-IsGood lower gateway norm (t ∷ (v ∷ ts)) u =
    llm_classify-IsGood lower gateway norm (t ∷ (v ∷ ts)) u

cached-IsGood :
    (key : String) (cache : List (String × TierRouteDecision)) (d : TierRouteDecision)
    → IsGoodCache cache
    → cached key cache ≡ some d
    → IsGood d
unfolding cached
cached-IsGood key [] d a h = cc h
cached-IsGood key ((k, d') ∷ rest) d a h = elim (Bool-cases (str_eq k key)) [
  | inl e ↦
      (let same : d' ≡ d = (let g : some d' ≡ some d = rw e at h in cc g) in subst IsGood same a.0)
  | inr e ↦ cached-IsGood key rest d a.1 (rw e at h)
]

cached-remember :
    (key : String) (d : TierRouteDecision) (cache : List (String × TierRouteDecision))
    → cached key cache ≡ none
    → cached key (cache ++ (key, d) ∷ []) ≡ some d
unfolding cached
cached-remember key d [] h = rw (eq_refl key)
cached-remember key d ((k, d') ∷ rest) h = elim (Bool-cases (str_eq k key)) [
  | inl e ↦ (let g : some d' ≡ none = rw e at h in cc g)
  | inr e ↦ rw e (cached-remember key d rest (rw e at h))
]

append-IsGoodCache :
    (key : String) (d : TierRouteDecision) (cache : List (String × TierRouteDecision))
    → IsGoodCache cache
    → IsGood d
    → IsGoodCache (cache ++ (key, d) ∷ [])
append-IsGoodCache key d [] a g = (g, tt)
append-IsGoodCache key d (entry ∷ rest) a g = (a.0, append-IsGoodCache key d rest a.1 g)

again_by_cache :
    (found : Option TierRouteDecision) (key : String) (fresh later : TierRouteDecision) (r : Router)
    → cached key r.cache ≡ found
    → by_cache
        (cached key (by_cache found key fresh r).0.cache)
        key
        later
        (by_cache found key fresh r).0
      ≡ ((by_cache found key fresh r).0, from_cache (by_cache found key fresh r).1)
again_by_cache (some d) key fresh later r e = rw e
again_by_cache none key fresh later r e = rw (cached-remember key fresh r.cache e)

by_cache-AreTiers :
    (found : Option TierRouteDecision) (key : String) (fresh : TierRouteDecision) (r : Router)
    → cached key r.cache ≡ found
    → IsGoodCache r.cache
    → IsGood fresh
    → AreTiers (by_cache found key fresh r).1.tiers
      × IsGoodCache (by_cache found key fresh r).0.cache
by_cache-AreTiers (some d) key fresh r e a g = (cached-IsGood key r.cache d a e, a)
by_cache-AreTiers none key fresh r e a g = (g, append-IsGoodCache key fresh r.cache a g)

-- Whatever the patterns match and the model answers or raises, a router whose cache holds tiers only
-- decides for one tier at least and for none twice, and its cache still holds such decisions. A later
-- query that is blank just as the first, and normalises to the same key, gets the same decision: from
-- the cache, which it leaves as it is, unless both are blank.
pub route-AreTiers :
    (search : ℕ → String → Bool) (casefold lower : String → String) (query again : String)
    (r : Router)
    → IsGoodCache r.cache
    → no_text (strip again) ≡ no_text (strip query)
    → casefold (strip again) ≡ casefold (strip query)
    → AreTiers (route search casefold lower query r).1.tiers
      × IsGoodCache (route search casefold lower query r).0.cache
      × (route search casefold lower again (route search casefold lower query r).0 ≡ (
        (route search casefold lower query r).0,
        if no_text (strip query)
            then (route search casefold lower query r).1
            else from_cache (route search casefold lower query r).1,
      ))
unfolding route
route-AreTiers search casefold lower query again r good blank same =
    elim (Bool-cases (no_text (strip query))) [
      | inl e ↦ rw (blank, e) ((omega arith, (refl, (refl, (refl, (refl, tt))))), good, refl)
      | inr e ↦
          let key = casefold (strip query) in
          let hits = heuristic_hits search (strip query) 0 pattern_tiers [] in
          let fresh = decide lower r.gateway (strip query) hits in
          let (tiers, cache) = by_cache-AreTiers (cached key r.cache) key fresh r refl good (
            decide-IsGood lower r.gateway (strip query) hits
              (heuristic_hits-IsUnique search (strip query) 0 pattern_tiers [] tt)) in
          rw (blank, e, same) (tiers, cache, again_by_cache (cached key r.cache) key fresh _ r refl)
    ]
