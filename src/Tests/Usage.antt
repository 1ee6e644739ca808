-- ===== src/Tests/Usage.antt =====
-- Tokens of two days in one month, and a monthly cap.
use z3rno_core.Prelude.{◌+◌, ◌≡◌, ◌<◌, refl, [], ◌∷◌, All, List, if◌then◌else◌, ◌⊎◌, ◌↔◌}
use z3rno_core.Usage.Counters.{
  tokens, Counter, Budgets, record_usage, check_budget, allowed, exceeded, monthly,
}
use z3rno_core.Usage.Totals.{used, counts, record_usage-used}
use z3rno_core.Usage.Caps.{caps, cap_of, check_budget-allowed}

abbrev rows : List Counter
rows =
    record { org_id = 7; period_day = 312; kind = tokens; count = 40 }
    ∷ record { org_id = 7; period_day = 313; kind = tokens; count = 50 }
    ∷ []

abbrev budgets : Budgets
budgets = record {
  daily_tokens = 60;
  daily_llm_calls = 0;
  daily_embeddings = 0;
  monthly_tokens = 90;
  monthly_llm_calls = 0;
  monthly_embeddings = 0;
}

over : check_budget 7 budgets 313 rows ≡ exceeded (cap_of tokens monthly 90 90)
unfolding check_budget
over = refl

record_usage-used_example :
    used 7 tokens 312 313 (record_usage 7 tokens 5 313 rows)
    ≡ used 7 tokens 312 313 rows + (if counts 7 tokens 312 313 7 tokens 313 then 5 else 0)
record_usage-used_example = record_usage-used 7 tokens 312 313 7 tokens 5 313 rows

check_budget-allowed_example :
    (check_budget 7 budgets 313 rows ≡ allowed)
    ↔ All (λ c. (c.cap ≡ 0) ⊎ (c.used < c.cap)) (caps 7 budgets 313 rows)
check_budget-allowed_example = check_budget-allowed 7 budgets 313 rows
