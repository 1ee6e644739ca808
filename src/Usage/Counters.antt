-- ===== src/Usage/Counters.antt =====
-- Counters, budgets and the check before a call. A date is 31 times the number of its month, counted
-- over the years, and the day of the month less one, which orders dates as the calendar does. Counts
-- are of unbounded size, and a negative count, which the code skips like 0, is 0.
use z3rno_core.Prelude.{
  ℕ, ◌+◌, ◌-◌, ◌%◌, Bool, ◌&&◌, ◌||◌, Option, none, some, List, [], ◌∷◌, filter, leb, ltb,
  if◌then◌else◌, ◌==◌,
}
use z3rno_core.Prelude.Sort.{sort}
use z3rno_core.Models.{Uuid}
use z3rno_core.Result.{Result, ok, value_error, refuse, ◌>>=◌}

pub data UsageKind : Type 0 where
  tokens embeddings llm_calls storage_bytes : UsageKind

-- The order of the kinds' names.
abbrev pub rank : UsageKind → ℕ
rank embeddings = 0
rank llm_calls = 1
rank storage_bytes = 2
rank tokens = 3

abbrev pub kind_eq : UsageKind → UsageKind → Bool
kind_eq a b = rank a == rank b

pub record Counter : Type 0 where
  pub org_id : Uuid
  pub period_day : ℕ
  pub kind : UsageKind
  pub count : ℕ

pub record Budgets : Type 0 where
  pub daily_tokens : ℕ
  pub daily_llm_calls : ℕ
  pub daily_embeddings : ℕ
  pub monthly_tokens : ℕ
  pub monthly_llm_calls : ℕ
  pub monthly_embeddings : ℕ

unfoldable pub is_empty : Budgets → Bool
is_empty b =
    (b.daily_tokens == 0)
    && ((b.daily_llm_calls == 0)
        && ((b.daily_embeddings == 0)
            && ((b.monthly_tokens == 0)
                && ((b.monthly_llm_calls == 0) && (b.monthly_embeddings == 0)))))

-- The primary key.
abbrev pub has_key : Uuid → ℕ → UsageKind → Counter → Bool
has_key org day kind r = (r.org_id == org) && ((r.period_day == day) && kind_eq r.kind kind)

-- INSERT … ON CONFLICT … DO UPDATE
unfoldable pub upsert : Uuid → ℕ → UsageKind → ℕ → List Counter → List Counter
upsert org day kind count [] =
    record { org_id = org; period_day = day; kind = kind; count = count } ∷ []
upsert org day kind count (r ∷ rows) =
    let rest = upsert org day kind count rows in
    if has_key org day kind r then record r { count = r.count + count } ∷ rows else r ∷ rest

unfoldable pub record_usage : Uuid → UsageKind → ℕ → ℕ → List Counter → List Counter
unfolding upsert
record_usage org kind count day rows = if leb count 0 then rows else upsert org day kind count rows

-- The days of the dict `by_day`, each with its dict of kinds.
abbrev pub ByDay : Type 0
ByDay = List (ℕ × List (UsageKind × ℕ))

pub record UsageWindow : Type 0 where
  pub org_id : Uuid
  pub since : ℕ
  pub until : ℕ
  pub tokens : ℕ
  pub embeddings : ℕ
  pub llm_calls : ℕ
  pub storage_bytes : ℕ
  pub by_day : ByDay

abbrev pub in_window : Uuid → ℕ → ℕ → Counter → Bool
in_window org since until r =
    (r.org_id == org) && (leb since r.period_day && leb r.period_day until)

-- ORDER BY period_day, kind
abbrev pub earlier : Counter → Counter → Bool
earlier a b =
    ltb a.period_day b.period_day
    || ((a.period_day == b.period_day) && leb (rank a.kind) (rank b.kind))

abbrev set_kind : UsageKind → ℕ → List (UsageKind × ℕ) → List (UsageKind × ℕ)
set_kind k n [] = (k, n) ∷ []
set_kind k n ((j, m) ∷ d) =
    let rest = set_kind k n d in if kind_eq j k then (k, n) ∷ d else (j, m) ∷ rest

-- `by_day.setdefault(day, {})[kind] = cnt`
unfoldable pub set_day : ℕ → UsageKind → ℕ → ByDay → ByDay
set_day day k n [] = (day, (k, n) ∷ []) ∷ []
set_day day k n ((d, kinds) ∷ days) =
    let rest = set_day day k n days in
    if d == day then (d, set_kind k n kinds) ∷ days else (d, kinds) ∷ rest

-- The loop over the rows: the total of one kind, and the days.
unfoldable pub total : UsageKind → List Counter → ℕ
total k [] = 0
total k (r ∷ rows) = let rest = total k rows in if kind_eq r.kind k then r.count + rest else rest

unfoldable pub days_of : List Counter → ByDay → ByDay
unfolding set_day
days_of [] days = days
days_of (r ∷ rows) days = days_of rows (set_day r.period_day r.kind r.count days)

unfoldable pub get_usage : Uuid → ℕ → ℕ → List Counter → Result UsageWindow
unfolding total days_of sort
get_usage org since until rows = refuse (ltb until since) value_error >>= λ _.
    (let found = sort earlier (filter (in_window org since until) rows) in
      ok (record {
        org_id = org;
        since = since;
        until = until;
        tokens = total tokens found;
        embeddings = total embeddings found;
        llm_calls = total llm_calls found;
        storage_bytes = total storage_bytes found;
        by_day = days_of found [];
      }))

-- `day.replace(day=1)`
abbrev pub month_start : ℕ → ℕ
month_start day = day - day % 31

abbrev pick : ℕ → ℕ → ℕ
pick own default = if ltb 0 own then own else default

-- The first argument is the override in the row of the tenant, in which an absent key is 0.
unfoldable pub resolve_budgets : Option Budgets → Budgets → Budgets
resolve_budgets none defaults = defaults
resolve_budgets (some own) defaults = record {
  daily_tokens = pick own.daily_tokens defaults.daily_tokens;
  daily_llm_calls = pick own.daily_llm_calls defaults.daily_llm_calls;
  daily_embeddings = pick own.daily_embeddings defaults.daily_embeddings;
  monthly_tokens = pick own.monthly_tokens defaults.monthly_tokens;
  monthly_llm_calls = pick own.monthly_llm_calls defaults.monthly_llm_calls;
  monthly_embeddings = pick own.monthly_embeddings defaults.monthly_embeddings;
}

pub data Window : Type 0 where
  daily monthly : Window

-- What one pair of the loop compares.
pub record Cap : Type 0 where
  pub kind : UsageKind
  pub window : Window
  pub used : ℕ
  pub cap : ℕ

-- `None`, a `BudgetExceededError`, or what `get_usage` raises.
pub data Verdict : Type 0 where
  allowed : Verdict
  exceeded : Cap → Verdict
  failed : Verdict

abbrev pub breaches : Cap → Bool
breaches c = ltb 0 c.cap && leb c.cap c.used

abbrev pub pairs : Budgets → UsageWindow → UsageWindow → List Cap
pairs b day month =
    record { kind = tokens; window = daily; used = day.tokens; cap = b.daily_tokens }
    ∷ record { kind = tokens; window = monthly; used = month.tokens; cap = b.monthly_tokens }
    ∷ record { kind = llm_calls; window = daily; used = day.llm_calls; cap = b.daily_llm_calls }
    ∷ record {
      kind = llm_calls;
      window = monthly;
      used = month.llm_calls;
      cap = b.monthly_llm_calls;
    }
    ∷ record { kind = embeddings; window = daily; used = day.embeddings; cap = b.daily_embeddings }
    ∷ record {
      kind = embeddings;
      window = monthly;
      used = month.embeddings;
      cap = b.monthly_embeddings;
    }
    ∷ []

unfoldable pub first_breach : List Cap → Verdict
first_breach [] = allowed
first_breach (c ∷ cs) = let rest = first_breach cs in if breaches c then exceeded c else rest

abbrev pub verdict_of : Budgets → Result UsageWindow → Result UsageWindow → Verdict
verdict_of b (ok day) (ok month) = first_breach (pairs b day month)
verdict_of b _ _ = failed

unfoldable pub check_budget : Uuid → Budgets → ℕ → List Counter → Verdict
unfolding is_empty get_usage first_breach
check_budget org budgets day rows =
    if is_empty budgets
    then allowed
    else verdict_of budgets (get_usage org day day rows) (get_usage org (month_start day) day rows)
