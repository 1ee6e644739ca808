-- ===== src/Refine/Scheduler/Rotation.antt =====
-- The ticks of the beat task, and what is overdue after them.
use native.Mathlib.Nat.{mul-suc}
use z3rno_core.Prelude.{
  ℕ, zero, suc, ◌+◌, ◌-◌, ◌*◌, ◌≡◌, ◌≤◌, refl, sym, ap, ◌∙◌, Bool, true, false, not, ◌&&◌, List, [],
  ◌∷◌, map, filter, filter-append, take, drop, take-append-drop, elem, length, length-append, ◌==◌,
  ==_refl, Bool-cases, inl, inr, All, arith,
}
use z3rno_core.Prelude.Sort.{sort, sort-IsSorted, length-filter-sort}
use z3rno_core.Models.{Uuid}
use z3rno_core.Refine.Scheduler.{Tenant, runs_before, due, pick_refine_tenants}
use z3rno_core.Refine.Scheduler.Overdue.{
  tick, ticks, is_overdue, nulls_first_total, nulls_first_trans, late, late-drop, picked_ids,
  overdue-mark_each,
}

abbrev count : (Tenant → Bool) → List Tenant → ℕ
count p ts = length (filter p ts)

count_same :
    (p q : Tenant → Bool) (ts : List Tenant) → ((t : Tenant) → p t ≡ q t) → count p ts ≡ count q ts
count_same p q [] h = refl
count_same p q (t ∷ ts) h = let e = h t in let ih = count_same p q ts h in ground arith

count_le :
    (p q : Tenant → Bool) (ts : List Tenant)
    → ((t : Tenant) → p t ≡ true → q t ≡ true)
    → count p ts ≤ count q ts
count_le p q [] h = omega arith
count_le p q (t ∷ ts) h = let e = h t in let ih = count_le p q ts h in ground arith

count-filter :
    (p q : Tenant → Bool) (ts : List Tenant) → count p (filter q ts) ≡ count (λ t. q t && p t) ts
count-filter p q [] = refl
count-filter p q (t ∷ ts) = let ih = count-filter p q ts in ground arith

-- None of the rows in a list is outside the ids of that list.
count_outside :
    (p : Tenant → Bool) (ds es : List Tenant)
    → ((u : Uuid) → elem u (map (λ t. t.org_id) es) ≡ true → elem u (map (λ t. t.org_id) ds) ≡ true)
    → count (λ t. p t && not (elem t.org_id (map (λ t. t.org_id) ds))) es ≡ 0
count_outside p ds [] inc = refl
count_outside p ds (t ∷ ts) inc =
    let here : elem t.org_id (map (λ t. t.org_id) ds) ≡ true =
      inc t.org_id (rw (==_refl t.org_id)) in
    let ih = count_outside p ds ts (λ u h. inc u (let a = (u == t.org_id) in ground arith)) in
    elim (Bool-cases (p t)) [ inl e ↦ rw (e, here, ih) | inr e ↦ rw (e, ih) ]

pick-due :
    (limit : ℕ) (ts : List Tenant)
    → picked_ids (pick_refine_tenants (λ org. false) limit ts)
      ≡ map (λ t. t.org_id) (due (λ org. false) limit ts)
unfolding pick_refine_tenants due
pick-due zero ts = refl
pick-due (suc n) ts =
    let positive : (suc n == 0) ≡ false = ground arith in
    rw positive (ids (take (suc n) (sort runs_before (filter (λ t. t.refine_enabled && true) ts))))
  where
    ids :
        (ds : List Tenant)
        → picked_ids
            (map (λ t. record { org_id = t.org_id; last_run_at = t.refine_last_run_at }) ds)
          ≡ map (λ t. t.org_id) ds
    ids [] = refl
    ids (d ∷ ds) = ap (◌∷◌ d.org_id) (ids ds)

-- Each tick takes `limit` of the overdue ones away, or all of them.
overdue-tick :
    (start limit now : ℕ) (ts : List Tenant)
    → start ≤ now
    → count (is_overdue start) (tick limit now ts) ≤ count (is_overdue start) ts - limit
unfolding due
overdue-tick start limit now ts h =
    let enabled = λ (t : Tenant). t.refine_enabled && true in
    let s = sort runs_before (filter enabled ts) in
    let ids = map (λ t. t.org_id) (take limit s) in
    let out = λ (t : Tenant). late start t && not (elem t.org_id ids) in
    let sorted =
      sort-IsSorted runs_before (λ x y. nulls_first_total x.refine_last_run_at y.refine_last_run_at)
        (λ x y z. nulls_first_trans x.refine_last_run_at y.refine_last_run_at z.refine_last_run_at)
        (filter enabled ts) in
    let left : count (is_overdue start) (tick limit now ts) ≡ count out s =
      count_same (is_overdue start) (λ t. is_overdue start t && true) (tick limit now ts)
        (λ t. (ground arith))
      ∙ overdue-mark_each start now (pick_refine_tenants (λ org. false) limit ts) (λ o. true) ts h
      ∙ ap (λ l. count (λ t. is_overdue start t && (not (elem t.org_id l) && true)) ts)
          (pick-due limit ts)
      ∙ count_same _ (λ t. enabled t && out t) ts (λ t. (ground arith))
      ∙ sym (count-filter out enabled ts)
      ∙ sym (length-filter-sort runs_before out (filter enabled ts)) in
    let split : count out s ≡ count out (take limit s) + count out (drop limit s) =
      ap (count out) (sym (take-append-drop limit s))
      ∙ ap length (filter-append out (take limit s) (drop limit s))
      ∙ length-append (filter out (take limit s)) (filter out (drop limit s)) in
    let gone : count out (take limit s) ≡ 0 =
      count_outside (late start) (take limit s) (take limit s) (λ u k. k) in
    let fewer = count_le out (late start) (drop limit s) (λ t k. (ground arith)) in
    let rest = late-drop start limit s sorted in
    let whole : count (late start) s ≡ count (is_overdue start) ts =
      length-filter-sort runs_before (late start) (filter enabled ts)
      ∙ count-filter (late start) enabled ts
      ∙ count_same _ (is_overdue start) ts (λ t. (ground arith)) in
    omega (arith, left, split, gone, fewer, rest, whole)

nothing_left : (p : Tenant → Bool) (ts : List Tenant) → count p ts ≡ 0 → filter p ts ≡ []
nothing_left p ts h = by_list (filter p ts) h
  where
    by_list : (l : List Tenant) → length l ≡ 0 → l ≡ []
    by_list [] e = refl
    by_list (x ∷ xs) e = absurd (omega (arith, e))

overdue-ticks :
    (start limit : ℕ) (times : List ℕ) (ts : List Tenant)
    → All (λ now. start ≤ now) times
    → count (is_overdue start) (ticks limit times ts)
      ≤ count (is_overdue start) ts - limit * length times
overdue-ticks start limit [] ts a = omega arith
overdue-ticks start limit (now ∷ times) ts a =
    let one = overdue-tick start limit now ts a.0 in
    let more = overdue-ticks start limit times (tick limit now ts) a.1 in
    let n = length times in
    let m : limit * suc n ≡ limit + limit * n = mul-suc limit n ∙ (omega arith) in
    omega (arith, one, more, m)

-- Where the ticks of the beat task come after `start`, each dispatching what the picker gives under
-- its limit with no row locked, no opted-in tenant is left that has not been dispatched since `start`
-- once the limit times the number of ticks has reached the number of opted-in tenants.
pub ticks-rotate :
    (start limit : ℕ) (times : List ℕ) (tenants : List Tenant)
    → All (λ now. start ≤ now) times
    → length (filter (λ t. t.refine_enabled) tenants) ≤ limit * length times
    → filter (is_overdue start) (ticks limit times tenants) ≡ []
ticks-rotate start limit times tenants after enough =
    let few = count_le (is_overdue start) (λ t. t.refine_enabled) tenants (λ t h. (ground arith)) in
    let gone = overdue-ticks start limit times tenants after in
    nothing_left (is_overdue start) (ticks limit times tenants) (omega (arith, few, gone, enough))
