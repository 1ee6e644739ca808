-- ===== src/Engine/Forget/Edges.antt =====
-- The edges between memories, and one round of the cascade.
use z3rno_core.Prelude.{
  ℕ, suc, ◌≡◌, refl, subst, true, not, ◌&&◌, ◌||◌, List, [], ◌∷◌, ◌++◌, map, filter, elem, In, ◌==◌,
  ==_iff, ==_refl, Bool-cases, ◌⊎◌, inl, inr, arith,
}
use z3rno_core.Models.{Uuid}
use z3rno_core.Engine.State.{Relationship}
use z3rno_core.Engine.Forget.Related.{touches, related_id, neighbors, minus}

-- A relationship of the organisation joins the two, in either direction.
pub record Edge (org : Uuid) (rels : List Relationship) (u : Uuid) (v : Uuid) : Type 0 where
  pub rel : Relationship
  pub present : In rel rels
  pub of_org : rel.org_id ≡ org
  pub ends :
      ((rel.source_memory_id ≡ u) × (rel.target_memory_id ≡ v))
      ⊎ ((rel.target_memory_id ≡ u) × (rel.source_memory_id ≡ v))

-- `v` is at most `n` hops from one of `ids`.
pub data Within (org : Uuid) (rels : List Relationship) (ids : List Uuid) : ℕ → Uuid → Type 0 where
  here : {n : ℕ} {v : Uuid} → elem v ids ≡ true → Within org rels ids n v
  hop :
      {n : ℕ} {u v : Uuid}
      → Within org rels ids n u
      → Edge org rels u v
      → Within org rels ids (suc n) v

pub elem-append : (v : Uuid) (xs ys : List Uuid) → elem v (xs ++ ys) ≡ (elem v xs || elem v ys)
elem-append v [] ys = refl
elem-append v (x ∷ xs) ys = let e = elem-append v xs ys in ground arith

pub elem-minus :
    (v : Uuid) (xs ys : List Uuid) → elem v (minus xs ys) ≡ (elem v xs && not (elem v ys))
unfolding minus
elem-minus v [] ys = refl
elem-minus v (x ∷ xs) ys = elim (Bool-cases (v == x)) [
  | inl e ↦
      let same : v ≡ x = (==_iff v x).0 e in
      let ih = elem-minus v xs ys in
      subst
        (λ z.
          elem v (filter (λ x'. not (elem x' ys)) (z ∷ xs)) ≡ (elem v (z ∷ xs) && not (elem v ys)))
        same (ground (arith, ==_refl v))
  | inr e ↦ let ih = elem-minus v xs ys in ground arith
]

pub neighbors_skip :
    (org : Uuid) (x : Relationship) (rs : List Relationship) (frontier : List Uuid) (v : Uuid)
    → elem v (neighbors org rs frontier) ≡ true
    → elem v (neighbors org (x ∷ rs) frontier) ≡ true
unfolding neighbors
neighbors_skip org x rs frontier v h = elim (Bool-cases (touches org frontier x)) [
  | inl e ↦ rw e (ground arith)
  | inr e ↦ rw e h
]

pub neighbors_first :
    (org : Uuid) (x : Relationship) (rs : List Relationship) (frontier : List Uuid) (v : Uuid)
    → touches org frontier x ≡ true
    → related_id frontier x ≡ v
    → elem v (neighbors org (x ∷ rs) frontier) ≡ true
unfolding neighbors
neighbors_first org x rs frontier v t e = rw (t, e, ==_refl v)

-- What one relationship adds.
pub neighbors_cons :
    (org : Uuid) (x : Relationship) (rs : List Relationship) (frontier : List Uuid) (v : Uuid)
    → elem v (neighbors org (x ∷ rs) frontier) ≡ true
    → ((touches org frontier x ≡ true) × (v ≡ related_id frontier x))
      ⊎ (elem v (neighbors org rs frontier) ≡ true)
unfolding neighbors
neighbors_cons org x rs frontier v h = elim (Bool-cases (touches org frontier x)) [
  | inr e ↦ inr (rw e at h)
  | inl e ↦ pick e (rw e at h)
]
  where
    pick :
        touches org frontier x ≡ true
        → (v == related_id frontier x
            || elem v (map (related_id frontier) (filter (touches org frontier) rs)))
          ≡ true
        → ((touches org frontier x ≡ true) × (v ≡ related_id frontier x))
          ⊎ (elem v (map (related_id frontier) (filter (touches org frontier) rs)) ≡ true)
    pick t k = elim (Bool-cases (v == related_id frontier x)) [
      | inl same ↦ inl (t, (==_iff v (related_id frontier x)).0 same)
      | inr other ↦ inr (rw other at k)
    ]

pub touched_end :
    (org : Uuid) (x : Relationship) (frontier : List Uuid)
    → touches org frontier x ≡ true
    → (x.org_id ≡ org)
      × ((u : Uuid) × (elem u frontier ≡ true)
          × (((x.source_memory_id ≡ u) × (x.target_memory_id ≡ related_id frontier x))
              ⊎ ((x.target_memory_id ≡ u) × (x.source_memory_id ≡ related_id frontier x))))
touched_end org x frontier t = elim (Bool-cases (elem x.source_memory_id frontier)) [
  | inl e ↦ ((==_iff x.org_id org).0 (ground arith), (x.source_memory_id, e, inl (refl, rw e)))
  | inr e ↦
      ((==_iff x.org_id org).0 (ground arith), (x.target_memory_id, ground arith, inr (refl, rw e)))
]
