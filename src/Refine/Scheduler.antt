-- ===== src/Refine/Scheduler.antt =====
-- refine/scheduler.py, over the columns that migration 031 adds to tenants.
use z3rno_core.Prelude.{
  ℕ, Bool, true, false, not, ◌&&◌, Option, none, some, List, [], ◌∷◌, map, filter, take, leb,
  if◌then◌else◌, ◌==◌,
}
use z3rno_core.Prelude.Sort.{sort}
use z3rno_core.Models.{Uuid}
pub mod Overdue
pub mod Rotation

pub record Tenant : Type 0 where
  pub org_id : Uuid
  pub refine_enabled : Bool
  pub refine_last_run_at : Option ℕ

pub record TenantToRefine : Type 0 where
  pub org_id : Uuid
  pub last_run_at : Option ℕ

-- ORDER BY refine_last_run_at NULLS FIRST
abbrev pub nulls_first : Option ℕ → Option ℕ → Bool
nulls_first none b = true
nulls_first (some s) none = false
nulls_first (some s) (some t) = leb s t

abbrev pub runs_before : Tenant → Tenant → Bool
runs_before a b = nulls_first a.refine_last_run_at b.refine_last_run_at

-- The rows that the SELECT gives: `locked` are those that another dispatcher has locked.
unfoldable pub due : (Uuid → Bool) → ℕ → List Tenant → List Tenant
unfolding sort
due locked limit tenants =
    take limit (sort runs_before (filter (λ t. t.refine_enabled && not (locked t.org_id)) tenants))

unfoldable pub pick_refine_tenants : (Uuid → Bool) → ℕ → List Tenant → List TenantToRefine
unfolding due
pick_refine_tenants locked limit tenants =
    if limit == 0
    then []
    else map (λ t. record { org_id = t.org_id; last_run_at = t.refine_last_run_at })
        (due locked limit tenants)

abbrev pub or_now : Option ℕ → ℕ → ℕ
or_now none now = now
or_now (some at) now = at

unfoldable pub mark_refine_dispatched : Uuid → Option ℕ → ℕ → List Tenant → List Tenant
mark_refine_dispatched org at now tenants =
    map (λ t. if t.org_id == org then record t { refine_last_run_at = some (or_now at now) } else t)
      tenants
