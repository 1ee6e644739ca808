-- ===== src/Tests/MemoryTiers.antt =====
-- A query that two patterns match, and a model that answers with four tiers.
use z3rno_core.Prelude.{
  ℕ, ◌≡◌, refl, ap, Bool, ◌||◌, ◌==◌, String, Option, some, [], ◌∷◌, if◌then◌else◌,
}
use z3rno_core.Models.{working, episodic, semantic}
use z3rno_core.Text.{no_text, strip}
use z3rno_core.MemoryTiers.Router.{LlmTierChoice, Router, from_cache, route}
use z3rno_core.MemoryTiers.Router.Routed.{AreTiers, IsGoodCache, route-AreTiers}

abbrev matches : ℕ → String → Bool
matches n s = (n == 1) || (n == 4)

abbrev same : String → String
same s = s

abbrev answer : String → Option LlmTierChoice
answer s = some (record {
  tiers = "working" ∷ " semantic" ∷ "other" ∷ "working" ∷ "episodic" ∷ "procedural" ∷ [];
  reason = "";
})

abbrev router : Router
router = record { gateway = some answer; cache = [] }

three_tiers : (route matches same same " what did we do " router).1 ≡ record {
  tiers = working ∷ semantic ∷ episodic ∷ [];
  source = "llm";
  reason = "llm-classified";
}
unfolding route
three_tiers = refl

stripped : strip "a b " ≡ strip " a b"
unfolding strip
stripped = refl

route-AreTiers_example :
    AreTiers (route matches same same " a b" router).1.tiers
    × IsGoodCache (route matches same same " a b" router).0.cache
    × (route matches same same "a b " (route matches same same " a b" router).0 ≡ (
      (route matches same same " a b" router).0,
      if no_text (strip " a b")
          then (route matches same same " a b" router).1
          else from_cache (route matches same same " a b" router).1,
    ))
route-AreTiers_example =
    route-AreTiers matches same same " a b" "a b " router tt (ap no_text stripped) stripped
