-- ===== src/Usage/Caps.antt =====
-- `check_budget`: when a call is allowed, and what is reported otherwise.
use z3rno_core.Prelude.{
  ℕ, ◌≡◌, ◌≤◌, ◌<◌, refl, sym, ap, ◌∙◌, subst, true, false, List, [], ◌∷◌, filter, ltb,
  if◌then◌else◌, Bool-cases, ◌⊎◌, inl, inr, ◌↔◌, All, arith,
}
use z3rno_core.Prelude.Sort.{sort, sort-perm}
use z3rno_core.Models.{Uuid}
use z3rno_core.Result.{ok}
use z3rno_core.Usage.Counters.{
  UsageKind, tokens, embeddings, llm_calls, storage_bytes, Counter, Budgets, is_empty, UsageWindow,
  earlier, in_window, total, days_of, get_usage, month_start, Window, daily, monthly, Cap, allowed,
  exceeded, breaches, pairs, first_breach, check_budget,
}
use z3rno_core.Usage.Totals.{used, total-perm}

abbrev pub cap_of : UsageKind → Window → ℕ → ℕ → Cap
cap_of kind window n cap = record { kind = kind; window = window; used = n; cap = cap }

-- The six comparisons, straight from the table.
abbrev pub caps : Uuid → Budgets → ℕ → List Counter → List Cap
caps org b day rows =
    cap_of tokens daily (used org tokens day day rows) b.daily_tokens
    ∷ cap_of tokens monthly (used org tokens (month_start day) day rows) b.monthly_tokens
    ∷ cap_of llm_calls daily (used org llm_calls day day rows) b.daily_llm_calls
    ∷ cap_of llm_calls monthly (used org llm_calls (month_start day) day rows) b.monthly_llm_calls
    ∷ cap_of embeddings daily (used org embeddings day day rows) b.daily_embeddings
    ∷ cap_of embeddings monthly (used org embeddings (month_start day) day rows)
        b.monthly_embeddings
    ∷ []

found : Uuid → ℕ → ℕ → List Counter → List Counter
unfolding sort
found org since until rows = sort earlier (filter (in_window org since until) rows)

window_of : Uuid → ℕ → ℕ → List Counter → UsageWindow
unfolding found total days_of
window_of org since until rows = record {
  org_id = org;
  since = since;
  until = until;
  tokens = total tokens (found org since until rows);
  embeddings = total embeddings (found org since until rows);
  llm_calls = total llm_calls (found org since until rows);
  storage_bytes = total storage_bytes (found org since until rows);
  by_day = days_of (found org since until rows) [];
}

get_usage_lem :
    (org : Uuid) (since until : ℕ) (rows : List Counter)
    → since ≤ until
    → get_usage org since until rows ≡ ok (window_of org since until rows)
unfolding get_usage window_of found
get_usage_lem org since until rows h = let e : ltb until since ≡ false = ground arith in rw e

total-found :
    (org : Uuid) (k : UsageKind) (since until : ℕ) (rows : List Counter)
    → total k (found org since until rows) ≡ used org k since until rows
unfolding found
total-found org k since until rows =
    total-perm k (sort-perm earlier (filter (in_window org since until) rows))

pairs_lem :
    (org : Uuid) (b : Budgets) (day : ℕ) (rows : List Counter)
    → pairs b (window_of org day day rows) (window_of org (month_start day) day rows)
      ≡ caps org b day rows
unfolding window_of
pairs_lem org b day rows = rw (
  total-found org tokens day day rows,
  total-found org tokens (month_start day) day rows,
  total-found org llm_calls day day rows,
  total-found org llm_calls (month_start day) day rows,
  total-found org embeddings day day rows,
  total-found org embeddings (month_start day) day rows,
)

-- Without a cap nothing is breached.
empty_allows :
    (org : Uuid) (b : Budgets) (day : ℕ) (rows : List Counter)
    → is_empty b ≡ true
    → first_breach (caps org b day rows) ≡ allowed
unfolding is_empty first_breach
empty_allows org b day rows h =
    let e1 : b.daily_tokens ≡ 0 = ground arith in
    let e2 : b.daily_llm_calls ≡ 0 = ground arith in
    let e3 : b.daily_embeddings ≡ 0 = ground arith in
    let e4 : b.monthly_tokens ≡ 0 = ground arith in
    let e5 : b.monthly_llm_calls ≡ 0 = ground arith in
    let e6 : b.monthly_embeddings ≡ 0 = ground arith in rw (e1, e2, e3, e4, e5, e6)

-- `check_budget` gives the first breach of the six comparisons of a cap with the sum over the table,
-- also where it returns at once because there is no cap; `get_usage` never fails in it.
pub check_budget-first_breach :
    (org : Uuid) (b : Budgets) (day : ℕ) (rows : List Counter)
    → check_budget org b day rows ≡ first_breach (caps org b day rows)
unfolding check_budget
check_budget-first_breach org b day rows = elim (Bool-cases (is_empty b)) [
  | inl e ↦ rw e (sym (empty_allows org b day rows e))
  | inr e ↦
      rw
        (
          e,
          get_usage_lem org day day rows (omega arith),
          get_usage_lem org (month_start day) day rows (omega arith),
        )
        (ap first_breach (pairs_lem org b day rows))
]

first_breach-allowed :
    (cs : List Cap) → (first_breach cs ≡ allowed) ↔ All (λ c. breaches c ≡ false) cs
unfolding first_breach
first_breach-allowed [] = ((λ h. tt), (λ h. refl))
first_breach-allowed (c ∷ cs) = elim (Bool-cases (breaches c)) [
  | inl e ↦ (
    (λ h. absurd (cc (subst (λ b. (if b then exceeded c else first_breach cs) ≡ allowed) e h))),
    (λ h. absurd (cc (h.0, e))),
  )
  | inr e ↦
      let ih = first_breach-allowed cs in
      (
        (λ h. (e, ih.0 (subst (λ b. (if b then exceeded c else first_breach cs) ≡ allowed) e h))),
        (λ h. rw e (ih.1 h.1)),
      )
]

-- A call is allowed exactly when each of the six sums over the table, of tokens, LLM calls and
-- embeddings in the day and in the month so far, is below its cap or has no cap.
pub check_budget-allowed :
    (org : Uuid) (b : Budgets) (day : ℕ) (rows : List Counter)
    → (check_budget org b day rows ≡ allowed)
      ↔ All (λ c. (c.cap ≡ 0) ⊎ (c.used < c.cap)) (caps org b day rows)
check_budget-allowed org b day rows =
    let e = check_budget-first_breach org b day rows in
    let f = first_breach-allowed (caps org b day rows) in
    (
      (λ h. All-to (caps org b day rows) (f.0 (sym e ∙ h))),
      (λ h. e ∙ f.1 (All-from (caps org b day rows) h)),
    )
  where
    All-to :
        (cs : List Cap)
        → All (λ c. breaches c ≡ false) cs
        → All (λ c. (c.cap ≡ 0) ⊎ (c.used < c.cap)) cs
    All-to [] a = tt
    All-to (c ∷ cs) a = (let h = a.0 in ground arith, All-to cs a.1)

    All-from :
        (cs : List Cap)
        → All (λ c. (c.cap ≡ 0) ⊎ (c.used < c.cap)) cs
        → All (λ c. breaches c ≡ false) cs
    All-from [] a = tt
    All-from (c ∷ cs) (inl z, a) = ((ground arith), All-from cs a)
    All-from (c ∷ cs) (inr z, a) = ((ground arith), All-from cs a)
