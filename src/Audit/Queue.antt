-- ===== src/Audit/Queue.antt =====
-- What a drain takes from the queue: with ids in the order of insertion, the first rows of its
-- organisation, and it leaves the others.
use z3rno_core.Prelude.{
  ℕ, zero, suc, ◌≡◌, refl, sym, ap, ◌∙◌, Bool, true, false, not, ◌&&◌, List, [], ◌∷◌, map, ltb, leb,
  take, drop, filter, elem, All, arith, Bool-cases, inl, inr, ◌≢◌, subst,
}
use z3rno_core.Prelude.Sort.{sort_of_IsSorted, IsSorted}
use z3rno_core.Prelude.Filter.{All-filter, IsSorted-filter, IsSorted-mono, filter_of_All}
use z3rno_core.Models.{Uuid}
use z3rno_core.Audit.Tables.{Pending, Db, of_org, by_id, select_pending}

-- `p` was enqueued before `q`, by a transaction that did not begin after it.
abbrev pub ready : Pending → Pending → Bool
ready p q = ltb p.id q.id && leb p.created_at q.created_at

ready-by_id : (p q : Pending) → ready p q ≡ true → by_id p q ≡ true
ready-by_id p q h = ground arith

-- In a queue in insertion order a batch is the first rows of the organisation.
pub select_pending-take :
    (org : Uuid) (n : ℕ) (db : Db)
    → IsSorted ready db.pending
    → select_pending org n db ≡ take n (filter (of_org org) db.pending)
unfolding select_pending
select_pending-take org n db h = ap (take n) (
    sort_of_IsSorted by_id (filter (of_org org) db.pending) (
      IsSorted-mono ready by_id (filter (of_org org) db.pending) ready-by_id
        (IsSorted-filter ready (of_org org) db.pending h)))

abbrev pub ids : List Pending → List ℕ
ids = map (λ p. p.id)

above-not_elem :
    (p : Pending) (qs : List Pending) → All (λ q. ready p q ≡ true) qs → elem p.id (ids qs) ≡ false
above-not_elem p [] h = refl
above-not_elem p (q ∷ qs) h = let e = above-not_elem p qs h.1 in let r = h.0 in ground arith

-- A row whose id is below all of the rest is in no batch of the rest.
not_elem-take :
    (n : ℕ) (p : Pending) (qs : List Pending)
    → All (λ q. ready p q ≡ true) qs
    → elem p.id (ids (take n qs)) ≡ false
not_elem-take zero p qs h = refl
not_elem-take (suc n) p [] h = refl
not_elem-take (suc n) p (q ∷ qs) h = let e = not_elem-take n p qs h.1 in let r = h.0 in ground arith

drop_ids :
    (p : Pending) (is : List ℕ) (qs : List Pending)
    → All (λ q. ready p q ≡ true) qs
    → filter (λ q. not (elem q.id (p.id ∷ is))) qs ≡ filter (λ q. not (elem q.id is)) qs
drop_ids p is [] h = refl
drop_ids p is (q ∷ qs) h = let e = drop_ids p is qs h.1 in let r = h.0 in ground arith

-- Deleting the ids of the first `n` rows leaves the rest.
pub filter-take-drop :
    (n : ℕ) (qs : List Pending)
    → IsSorted ready qs
    → filter (λ q. not (elem q.id (ids (take n qs)))) qs ≡ drop n qs
filter-take-drop zero qs h = filter_of_All (λ q. true) qs (all_true qs)
  where
    all_true : (xs : List Pending) → All (λ q. true ≡ true) xs
    all_true [] = tt
    all_true (x ∷ xs) = (refl, all_true xs)
filter-take-drop (suc n) [] h = refl
filter-take-drop (suc n) (q ∷ qs) h =
    let e = drop_ids q (ids (take n qs)) qs h.0 ∙ filter-take-drop n qs h.1 in ground arith

-- The ids of a batch of `org` that is taken from `batch` are not those of other organisations.
abbrev Foreign : Uuid → List ℕ → List Pending → Type 0
Foreign org batch = All (λ p. of_org org p ≡ false → elem p.id batch ≡ false)

Foreign-cons :
    (org : Uuid) (q : Pending) (batch : List ℕ) (ps : List Pending)
    → All (λ p. ready q p ≡ true) ps
    → Foreign org batch ps
    → Foreign org (q.id ∷ batch) ps
Foreign-cons org q batch [] u v = tt
Foreign-cons org q batch (p ∷ ps) u v =
    ((λ e. let f = v.0 e in let r = u.0 in ground arith), Foreign-cons org q batch ps u.1 v.1)

Foreign-nil : (org : Uuid) (ps : List Pending) → Foreign org [] ps
Foreign-nil org [] = tt
Foreign-nil org (p ∷ ps) = ((λ e. refl), Foreign-nil org ps)

-- A batch of one organisation holds no id of another organisation's row.
pub other_org-not_elem :
    (org : Uuid) (n : ℕ) (qs : List Pending)
    → IsSorted ready qs
    → Foreign org (ids (take n (filter (of_org org) qs))) qs
other_org-not_elem org n [] h = tt
other_org-not_elem org zero (q ∷ qs) h = ((λ e. refl), Foreign-nil org qs)
other_org-not_elem org (suc n) (q ∷ qs) h = elim (Bool-cases (of_org org q)) [
  | inr e ↦
      let skipped : filter (of_org org) (q ∷ qs) ≡ filter (of_org org) qs = rw e in
      subst (λ l. Foreign org (ids (take (suc n) l)) (q ∷ qs)) (sym skipped)
        (
          (λ _.
              not_elem-take (suc n) q (filter (of_org org) qs)
                (All-filter (λ p. ready q p ≡ true) (of_org org) qs h.0)),
          other_org-not_elem org (suc n) qs h.1,
        )
  | inl e ↦
      let kept : filter (of_org org) (q ∷ qs) ≡ q ∷ filter (of_org org) qs = rw e in
      subst (λ l. Foreign org (ids (take (suc n) l)) (q ∷ qs)) (sym kept)
        (
          (λ d. cc),
          Foreign-cons org q (ids (take n (filter (of_org org) qs))) qs h.0
              (other_org-not_elem org n qs h.1),
        )
]

-- What of another organisation is pending stays so.
pub filter-Foreign :
    (org other : Uuid) (batch : List ℕ) (qs : List Pending)
    → other ≢ org
    → Foreign org batch qs
    → filter (of_org other) (filter (λ q. not (elem q.id batch)) qs) ≡ filter (of_org other) qs
filter-Foreign org other batch [] ne h = refl
filter-Foreign org other batch (q ∷ qs) ne h =
    let e = filter-Foreign org other batch qs ne h.1 in
    elim (Bool-cases (of_org other q)) [
      | inl here ↦ rw (h.0 (ground arith), here, e)
      | inr away ↦ ground arith
    ]
