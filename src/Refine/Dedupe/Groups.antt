-- ===== src/Refine/Dedupe/Groups.antt =====
-- How rows are grouped.
use text.Mathlib.Text.{◌==◌ as str_eq}
use text.Mathlib.TextEquality.{eq_iff}
use z3rno_core.Prelude.{
  ◌≡◌, ◌≤◌, refl, sym, ap, ◌∙◌, subst, true, false, String, List, [], ◌∷◌, any, length, leb,
  Bool-cases, inl, inr, ◌⊎◌, All, arith,
}
use z3rno_core.Models.{Uuid}
use z3rno_core.Refine.Dedupe.{DedupeGroup, DedupeRow, Bucket, by_key, groups_of, group_rows}
use z3rno_core.Refine.Dedupe.Buckets.{
  members, has_key, ids_in, ids_in-by_key, AreApart, by_key-AreApart, Holds, Holds-all,
}

abbrev pub ids_of : DedupeGroup → List Uuid
ids_of g = g.primary_id ∷ g.loser_ids

-- What holds of the entries holds of the groups.
All-groups_of :
    (P : String → List Uuid → Type 0) (bs : List Bucket)
    → All (λ b. P b.key b.ids) bs
    → All (λ g. P g.key (ids_of g) × (1 ≤ length g.loser_ids)) (groups_of bs)
All-groups_of P [] a = tt
All-groups_of P (b ∷ bs) a = by_ids b.ids refl (All-groups_of P bs a.1)
  where
    by_ids :
        (ids : List Uuid)
        → b.ids ≡ ids
        → All (λ g. P g.key (ids_of g) × (1 ≤ length g.loser_ids)) (groups_of bs)
        → All (λ g. P g.key (ids_of g) × (1 ≤ length g.loser_ids)) (groups_of (b ∷ bs))
    by_ids [] e rest = rw e rest
    by_ids (x ∷ []) e rest = rw e rest
    by_ids (x ∷ (y ∷ more)) e rest = rw e ((subst (P b.key) e a.0, omega arith), rest)

found_group :
    (key : String) (bs : List Bucket)
    → 2 ≤ length (ids_in key bs)
    → any (λ g. str_eq g.key key) (groups_of bs) ≡ true
found_group key [] h = absurd (omega (arith, h))
found_group key (b ∷ bs) h = elim (Bool-cases (str_eq b.key key)) [
  | inl f ↦ here b.ids refl f (rw f at h)
  | inr f ↦ there b.ids refl f (found_group key bs (rw f at h))
]
  where
    here :
        (ids : List Uuid)
        → b.ids ≡ ids
        → str_eq b.key key ≡ true
        → 2 ≤ length b.ids
        → any (λ g. str_eq g.key key) (groups_of (b ∷ bs)) ≡ true
    here [] e f k =
        absurd (let z : 2 ≤ 0 = subst (λ (l : List Uuid). 2 ≤ length l) e k in omega arith)
    here (x ∷ []) e f k =
        absurd (let z : 2 ≤ 1 = subst (λ (l : List Uuid). 2 ≤ length l) e k in omega arith)
    here (x ∷ (y ∷ more)) e f k = rw (e, f)

    there :
        (ids : List Uuid)
        → b.ids ≡ ids
        → str_eq b.key key ≡ false
        → any (λ g. str_eq g.key key) (groups_of bs) ≡ true
        → any (λ g. str_eq g.key key) (groups_of (b ∷ bs)) ≡ true
    there [] e f k = rw e k
    there (x ∷ []) e f k = rw e k
    there (x ∷ (y ∷ more)) e f k = rw (e, f) k

-- No two groups have one key.
abbrev pub KeysDiffer : List DedupeGroup → Type 0
KeysDiffer [] = Unit
KeysDiffer (g ∷ gs) = (any (λ h. str_eq h.key g.key) gs ≡ false) × KeysDiffer gs

no_group :
    (bs : List Bucket) (key : String)
    → any (has_key key) bs ≡ false
    → any (λ g. str_eq g.key key) (groups_of bs) ≡ false
no_group [] key h = refl
no_group (b ∷ bs) key h = elim (Bool-cases (str_eq b.key key)) [
  | inl f ↦ absurd (let z : true ≡ false = rw f at h in cc z)
  | inr f ↦ by_ids b.ids refl f (no_group bs key (rw f at h))
]
  where
    by_ids :
        (ids : List Uuid)
        → b.ids ≡ ids
        → str_eq b.key key ≡ false
        → any (λ g. str_eq g.key key) (groups_of bs) ≡ false
        → any (λ g. str_eq g.key key) (groups_of (b ∷ bs)) ≡ false
    by_ids [] e f k = rw e k
    by_ids (x ∷ []) e f k = rw e k
    by_ids (x ∷ (y ∷ more)) e f k = rw (e, f) k

groups_of-KeysDiffer : (bs : List Bucket) → AreApart bs → KeysDiffer (groups_of bs)
groups_of-KeysDiffer [] a = tt
groups_of-KeysDiffer (b ∷ bs) a = by_ids b.ids refl (groups_of-KeysDiffer bs a.1)
  where
    by_ids :
        (ids : List Uuid)
        → b.ids ≡ ids
        → KeysDiffer (groups_of bs)
        → KeysDiffer (groups_of (b ∷ bs))
    by_ids [] e k = rw e k
    by_ids (x ∷ []) e k = rw e k
    by_ids (x ∷ (y ∷ more)) e k = rw e (no_group bs b.key a.0, k)

groups-enough :
    (P : String → List Uuid → Type 0) (key : String) (gs : List DedupeGroup)
    → All (λ g. P g.key (ids_of g) × (1 ≤ length g.loser_ids)) gs
    → any (λ g. str_eq g.key key) gs ≡ true
    → (ids : List Uuid) × P key ids × (2 ≤ length ids)
groups-enough P key [] a h = cc h
groups-enough P key (g ∷ gs) a h = elim (Bool-cases (str_eq g.key key)) [
  | inl e ↦ (
    ids_of g,
    subst (λ k. P k (ids_of g)) ((eq_iff g.key key).0 e) a.0.0,
    (let b = a.0.1 in omega (arith, b)),
  )
  | inr e ↦ groups-enough P key gs a.1 (rw e at h)
]

-- Every group holds the ids of all rows with its key, in their order, the first of them as the primary
-- and one loser at least; no two groups have one key; and a key has a group exactly where two rows or
-- more share it.
pub group_rows-members :
    (lower : String → String) (rows : List DedupeRow) (key : String)
    → All
        (λ g. (ids_of g ≡ members lower g.key rows) × (1 ≤ length g.loser_ids))
        (group_rows lower rows)
      × KeysDiffer (group_rows lower rows)
      × (any (λ g. str_eq g.key key) (group_rows lower rows)
          ≡ leb 2 (length (members lower key rows)))
unfolding group_rows
group_rows-members lower rows key = (
  groups,
  groups_of-KeysDiffer bs (by_key-AreApart lower rows [] tt),
  by_case (Bool-cases (any (λ g. str_eq g.key key) (groups_of bs))),
)
  where
    bs : List Bucket
    bs = by_key lower rows []

    held : (cs : List Bucket) → All (Holds bs) cs → All (λ b. b.ids ≡ members lower b.key rows) cs
    held [] a = tt
    held (c ∷ cs) a = (a.0 ∙ ids_in-by_key lower c.key rows [], held cs a.1)

    groups :
        All (λ g. (ids_of g ≡ members lower g.key rows) × (1 ≤ length g.loser_ids)) (groups_of bs)
    groups =
        All-groups_of (λ k ids. ids ≡ members lower k rows) bs
          (held bs (Holds-all bs (by_key-AreApart lower rows [] tt)))

    by_case :
        (any (λ g. str_eq g.key key) (groups_of bs) ≡ true)
          ⊎ (any (λ g. str_eq g.key key) (groups_of bs) ≡ false)
        → any (λ g. str_eq g.key key) (groups_of bs) ≡ leb 2 (length (members lower key rows))
    by_case (inl e) =
        let (ids, same, enough) =
          groups-enough (λ k ids. ids ≡ members lower k rows) key (groups_of bs) groups e in
        let n = ap length same in
        let two : leb 2 (length (members lower key rows)) ≡ true = ground arith in e ∙ sym two
    by_case (inr e) = elim (Bool-cases (leb 2 (length (members lower key rows)))) [
      | inr few ↦ e ∙ sym few
      | inl two ↦
          let n = ap length (ids_in-by_key lower key rows []) in
          let there = found_group key bs (ground arith) in absurd (cc (there, e))
    ]
