-- ===== src/MemoryTiers/Router.antt =====
-- memory_tiers/router.py. What the patterns match, `str.casefold`, `str.lower` and the language model
-- are parameters.
use Prim.Native.String.{◌++◌ as append}
use text.Mathlib.Text.{◌==◌ as str_eq}
use z3rno_core.Prelude.{
  ℕ, zero, suc, Bool, true, false, not, ◌&&◌, String, Option, none, some, List, [], ◌∷◌, ◌++◌, map,
  elem, take, length, ltb, if◌then◌else◌, ◌==◌,
}
use z3rno_core.Models.{MemoryType, working, episodic, semantic, procedural}
use z3rno_core.Text.{no_text, strip, text_take, or_text}
pub mod Routed

pub record TierRouteDecision : Type 0 where
  pub tiers : List MemoryType
  pub source : String
  pub reason : String

-- The response that the model is asked for.
pub record LlmTierChoice : Type 0 where
  pub tiers : List String
  pub reason : String

-- `gateway` gives the response, and `none` where the call raises.
pub record Router : Type 0 where
  pub gateway : Option (String → Option LlmTierChoice)
  pub cache : List (String × TierRouteDecision)

abbrev pub tier_rank : MemoryType → ℕ
tier_rank working = 0
tier_rank episodic = 1
tier_rank semantic = 2
tier_rank procedural = 3

abbrev pub value : MemoryType → String
value working = "working"
value episodic = "episodic"
value semantic = "semantic"
value procedural = "procedural"

-- The tiers of `_HEURISTIC_PATTERNS`, in its order; `search n` is the search for its n-th pattern.
abbrev pub pattern_tiers : List MemoryType
pattern_tiers = procedural ∷ procedural ∷ procedural ∷ episodic ∷ episodic ∷ working ∷ semantic ∷ []

abbrev pub all_tiers : List MemoryType
all_tiers = working ∷ episodic ∷ semantic ∷ procedural ∷ []

abbrev pub has_tier : MemoryType → List MemoryType → Bool
has_tier t ts = elem (tier_rank t) (map tier_rank ts)

-- `if tier not in tiers: tiers.append(tier)`
abbrev pub add_tier : MemoryType → List MemoryType → List MemoryType
add_tier t ts = if has_tier t ts then ts else ts ++ t ∷ []

unfoldable pub heuristic_hits :
    (ℕ → String → Bool) → String → ℕ → List MemoryType → List MemoryType → List MemoryType
heuristic_hits search norm n [] hits = hits
heuristic_hits search norm n (t ∷ ts) hits =
    heuristic_hits search norm (suc n) ts (if search n norm then add_tier t hits else hits)

-- `MemoryType(raw.strip().lower())`, where it raises nothing
unfoldable pub tier_of : (String → String) → String → Option MemoryType
unfolding strip
tier_of lower raw =
    let s = lower (strip raw) in
    if str_eq s "working"
    then some working
    else if str_eq s "episodic"
    then some episodic
    else if str_eq s "semantic"
    then some semantic
    else if str_eq s "procedural"
    then some procedural
    else none

abbrev pub add_if : Option MemoryType → List MemoryType → List MemoryType
add_if none ts = ts
add_if (some t) ts = add_tier t ts

unfoldable pub chosen_tiers : (String → String) → List String → List MemoryType → List MemoryType
unfolding tier_of
chosen_tiers lower [] ts = ts
chosen_tiers lower (raw ∷ raws) ts = chosen_tiers lower raws (add_if (tier_of lower raw) ts)

abbrev max_llm_tiers : ℕ
max_llm_tiers = 3

abbrev pub llm_decision : List MemoryType → String → Option TierRouteDecision
llm_decision [] reason = none
llm_decision (t ∷ ts) reason = some (record {
  tiers = if ltb max_llm_tiers (length (t ∷ ts)) then take max_llm_tiers (t ∷ ts) else t ∷ ts;
  source = "llm";
  reason = or_text (text_take 240 reason) "llm-classified";
})

abbrev pub of_choice : (String → String) → Option LlmTierChoice → Option TierRouteDecision
of_choice lower none = none
of_choice lower (some choice) = llm_decision (chosen_tiers lower choice.tiers []) choice.reason

unfoldable pub llm_classify :
    (String → String) → Option (String → Option LlmTierChoice) → String → Option TierRouteDecision
unfolding chosen_tiers
llm_classify lower none query = none
llm_classify lower (some gateway) query = of_choice lower (gateway query)

-- `self.cache.get(key)`
unfoldable pub cached : String → List (String × TierRouteDecision) → Option TierRouteDecision
cached key [] = none
cached key ((k, d) ∷ rest) = let later = cached key rest in if str_eq k key then some d else later

-- `self.cache[key] = decision`, for a key that is not there
abbrev pub remember : String → TierRouteDecision → Router → Router
remember key d r = record r { cache = r.cache ++ (key, d) ∷ [] }

abbrev pub joined_values : List MemoryType → String
joined_values [] = ""
joined_values (t ∷ []) = value t
joined_values (t ∷ (u ∷ ts)) = append (value t) (append ", " (joined_values (u ∷ ts)))

-- What is decided where the model decides nothing.
abbrev pub without_llm : List MemoryType → TierRouteDecision
without_llm [] = record {
  tiers = all_tiers;
  source = "fallback";
  reason = "no heuristic match, no LLM gateway";
}
without_llm (t ∷ ts) = record {
  tiers = t ∷ ts;
  source = "heuristic";
  reason = append "multi-hit (" (append (joined_values (t ∷ ts)) ")");
}

abbrev pub or_fallback : Option TierRouteDecision → List MemoryType → TierRouteDecision
or_fallback none hits = without_llm hits
or_fallback (some d) hits = d

-- The decision for a query that is not in the cache.
unfoldable pub decide :
    (String → String)
    → Option (String → Option LlmTierChoice)
    → String
    → List MemoryType
    → TierRouteDecision
unfolding llm_classify
decide lower gateway norm [] = or_fallback (llm_classify lower gateway norm) []
decide lower gateway norm (t ∷ []) = record {
  tiers = t ∷ [];
  source = "heuristic";
  reason = append "matched " (append (value t) " pattern");
}
decide lower gateway norm (t ∷ (u ∷ ts)) =
    or_fallback (llm_classify lower gateway norm) (t ∷ (u ∷ ts))

abbrev pub from_cache : TierRouteDecision → TierRouteDecision
from_cache d = record d { source = "cache" }

abbrev pub by_cache :
    Option TierRouteDecision → String → TierRouteDecision → Router → Router × TierRouteDecision
by_cache (some d) key fresh r = (r, from_cache d)
by_cache none key fresh r = (remember key fresh r, fresh)

unfoldable pub route :
    (ℕ → String → Bool)
    → (String → String)
    → (String → String)
    → String
    → Router
    → Router × TierRouteDecision
unfolding strip heuristic_hits decide cached
route search casefold lower query r =
    let norm = strip query in
    let key = casefold norm in
    if no_text norm
    then (r, record { tiers = all_tiers; source = "fallback"; reason = "empty query" })
    else by_cache (cached key r.cache) key
        (decide lower r.gateway norm (heuristic_hits search norm 0 pattern_tiers [])) r

-- The router of `route_tiers` has a cache of its own.
unfoldable pub route_tiers :
    (ℕ → String → Bool)
    → (String → String)
    → (String → String)
    → Option (String → Option LlmTierChoice)
    → String
    → TierRouteDecision
unfolding route
route_tiers search casefold lower gateway query =
    (route search casefold lower query (record { gateway = gateway; cache = [] })).1
