-- ===== src/Refine/Scheduler/Overdue.antt =====
-- Tenants that are overdue, in the order of the picker and after a tick.
use z3rno_core.Prelude.{
  ℕ, zero, suc, ◌-◌, ◌≡◌, ◌≤◌, refl, ap, ◌∙◌, Bool, true, false, not, ◌&&◌, Option, none, some,
  List, [], ◌∷◌, map, filter, drop, elem, length, ltb, ◌==◌, Bool-cases, inl, inr, All, arith,
}
use z3rno_core.Prelude.Sort.{IsSorted}
use z3rno_core.Models.{Uuid}
use z3rno_core.Refine.Scheduler.{
  Tenant, TenantToRefine, nulls_first, runs_before, pick_refine_tenants, mark_refine_dispatched,
}

-- A tick of the beat task: each tenant that was picked is dispatched and marked.
abbrev pub mark_each : List TenantToRefine → ℕ → List Tenant → List Tenant
mark_each [] now tenants = tenants
mark_each (t ∷ ts) now tenants = mark_each ts now (mark_refine_dispatched t.org_id none now tenants)

abbrev pub tick : ℕ → ℕ → List Tenant → List Tenant
tick limit now tenants = mark_each (pick_refine_tenants (λ org. false) limit tenants) now tenants

abbrev pub ticks : ℕ → List ℕ → List Tenant → List Tenant
ticks limit [] tenants = tenants
ticks limit (now ∷ times) tenants = ticks limit times (tick limit now tenants)

abbrev pub not_since : ℕ → Option ℕ → Bool
not_since start none = true
not_since start (some t) = ltb t start

-- An opted-in tenant that has not been dispatched since `start`.
abbrev pub is_overdue : ℕ → Tenant → Bool
is_overdue start t = t.refine_enabled && not_since start t.refine_last_run_at

pub nulls_first_total : (a b : Option ℕ) → nulls_first a b ≡ false → nulls_first b a ≡ true
nulls_first_total none b h = cc h
nulls_first_total (some s) none h = refl
nulls_first_total (some s) (some t) h = ground arith

pub nulls_first_trans :
    (a b c : Option ℕ) → nulls_first a b ≡ true → nulls_first b c ≡ true → nulls_first a c ≡ true
nulls_first_trans none b c h k = refl
nulls_first_trans (some s) none c h k = cc h
nulls_first_trans (some s) (some t) none h k = cc k
nulls_first_trans (some s) (some t) (some u) h k = ground arith

not_since-down :
    (start : ℕ) (a b : Option ℕ)
    → nulls_first a b ≡ true
    → not_since start b ≡ true
    → not_since start a ≡ true
not_since-down start none b h k = refl
not_since-down start (some s) none h k = cc h
not_since-down start (some s) (some t) h k = ground arith

module _ (start : ℕ) where
  abbrev pub late : Tenant → Bool
  late t = not_since start t.refine_last_run_at

  none_late :
      (x : Tenant) (xs : List Tenant)
      → late x ≡ false
      → All (λ y. runs_before x y ≡ true) xs
      → filter late xs ≡ []
  none_late x [] h a = refl
  none_late x (y ∷ ys) h a = elim (Bool-cases (not_since start y.refine_last_run_at)) [
    | inr e ↦ rw e (none_late x ys h a.1)
    | inl e ↦
        absurd (
          let k = not_since-down start x.refine_last_run_at y.refine_last_run_at a.0 e in cc (h, k))
  ]

  length-filter-drop :
      (p : Tenant → Bool) (n : ℕ) (xs : List Tenant)
      → length (filter p (drop n xs)) ≤ length (filter p xs)
  length-filter-drop p zero xs = omega arith
  length-filter-drop p (suc n) [] = omega arith
  length-filter-drop p (suc n) (x ∷ xs) = let ih = length-filter-drop p n xs in ground arith

  -- In the order of the picker the late ones come first.
  pub late-drop :
      (n : ℕ) (xs : List Tenant)
      → IsSorted runs_before xs
      → length (filter late (drop n xs)) ≤ length (filter late xs) - n
  late-drop zero xs s = omega arith
  late-drop (suc n) [] s = omega arith
  late-drop (suc n) (x ∷ xs) s = elim (Bool-cases (not_since start x.refine_last_run_at)) [
    | inl e ↦ (let ih = late-drop n xs s.1 in rw e (omega (arith, ih)))
    | inr e ↦
        let less = length-filter-drop late n xs in
        let nothing : length (filter late xs) ≡ 0 = ap length (none_late x xs e s.0) in
        rw e (omega (arith, less, nothing))
  ]

abbrev pub picked_ids : List TenantToRefine → List Uuid
picked_ids ts = map (λ t. t.org_id) ts

-- Those of the picked are not overdue any more, whatever `also` is asked of the organisation.
overdue-mark :
    (start now : ℕ) (org : Uuid) (also : Uuid → Bool) (tenants : List Tenant)
    → start ≤ now
    → length (
        filter
          (λ t. is_overdue start t && also t.org_id)
          (mark_refine_dispatched org none now tenants))
      ≡ length
          (filter (λ t. is_overdue start t && (not (t.org_id == org) && also t.org_id)) tenants)
unfolding mark_refine_dispatched
overdue-mark start now org also [] h = refl
overdue-mark start now org also (t ∷ ts) h =
    let ih = overdue-mark start now org also ts h in ground arith

pub overdue-mark_each :
    (start now : ℕ) (picked : List TenantToRefine) (also : Uuid → Bool) (tenants : List Tenant)
    → start ≤ now
    → length (filter (λ t. is_overdue start t && also t.org_id) (mark_each picked now tenants))
      ≡ length (
          filter
            (λ t. is_overdue start t && (not (elem t.org_id (picked_ids picked)) && also t.org_id))
            tenants)
overdue-mark_each start now [] also tenants h = refl
overdue-mark_each start now (p ∷ ps) also tenants h =
    overdue-mark_each start now ps also (mark_refine_dispatched p.org_id none now tenants) h
    ∙ overdue-mark start now p.org_id (λ o. not (elem o (picked_ids ps)) && also o) tenants h
    ∙ regroup tenants
  where
    regroup :
        (ts : List Tenant)
        → length (
            filter
              (λ t.
                is_overdue start t
                && (not (t.org_id == p.org_id)
                    && (not (elem t.org_id (picked_ids ps)) && also t.org_id)))
              ts)
          ≡ length (
              filter
                (λ t.
                  is_overdue start t
                  && (not (elem t.org_id (picked_ids (p ∷ ps))) && also t.org_id))
                ts)
    regroup [] = refl
    regroup (t ∷ ts) = let ih = regroup ts in ground arith
