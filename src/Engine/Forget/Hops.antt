-- ===== src/Engine/Forget/Hops.antt =====
-- What the search of the cascade finds, by the distance from the given memories.
use z3rno_core.Prelude.{
  ℕ, zero, suc, ◌+◌, ◌≤◌, ◌≡◌, refl, sym, subst, true, false, List, [], ◌∷◌, ◌++◌, elem, In, ==_iff,
  Bool-cases, ◌⊎◌, inl, inr, ◌↔◌, arith,
}
use z3rno_core.Models.{Uuid}
use z3rno_core.Engine.State.{Relationship}
use z3rno_core.Engine.Forget.Related.{neighbors, minus, explore, find_related_memories}
use z3rno_core.Engine.Forget.Edges.{
  Within, here, hop, elem-append, elem-minus, neighbors_skip, neighbors_first, neighbors_cons,
  touched_end, Edge,
}

module _ (org : Uuid) (rels : List Relationship) where
  neighbors-Edge :
      (frontier : List Uuid) (rs : List Relationship) (v : Uuid)
      → ((r : Relationship) → In r rs → In r rels)
      → elem v (neighbors org rs frontier) ≡ true
      → (u : Uuid) × (elem u frontier ≡ true) × Edge org rels u v
  neighbors-Edge frontier [] v inc h = unfold neighbors in cc h
  neighbors-Edge frontier (r ∷ rs) v inc h = elim (neighbors_cons org r rs frontier v h) [
    | inr more ↦ neighbors-Edge frontier rs v (λ x m. inc x (inr m)) more
    | inl (t, same) ↦
        let (o, (u, there, ends)) = touched_end org r frontier t in
        (
          u,
          there,
          subst (Edge org rels u) (sym same)
              (record { rel = r; present = inc r (inl refl); of_org = o; ends = ends }),
        )
  ]

  Edge-neighbors :
      (frontier : List Uuid) (rs : List Relationship) (u v : Uuid) (r : Relationship)
      → In r rs
      → r.org_id ≡ org
      → elem u frontier ≡ true
      → ((r.source_memory_id ≡ u) × (r.target_memory_id ≡ v))
        ⊎ ((r.target_memory_id ≡ u) × (r.source_memory_id ≡ v))
      → (elem v frontier ≡ true) ⊎ (elem v (neighbors org rs frontier) ≡ true)
  Edge-neighbors frontier [] u v r m o f e = elim m [ ]
  Edge-neighbors frontier (x ∷ rs) u v r (inr m) o f e =
      elim (Edge-neighbors frontier rs u v r m o f e) [
        | inl old ↦ inl old
        | inr new ↦ inr (neighbors_skip org x rs frontier v new)
      ]
  Edge-neighbors frontier (x ∷ rs) u v r (inl same) o f (inl (s, t)) =
      let from : elem r.source_memory_id frontier ≡ true =
        subst (λ z. elem z frontier ≡ true) (sym s) f in
      inr (
        subst (λ z. elem v (neighbors org (z ∷ rs) frontier) ≡ true) same
          (neighbors_first org r rs frontier v (rw ((==_iff r.org_id org).1 o, from)) (rw from t)))
  Edge-neighbors frontier (x ∷ rs) u v r (inl same) o f (inr (t, s)) =
      elim (Bool-cases (elem r.source_memory_id frontier)) [
        | inl from ↦ inl (subst (λ z. elem z frontier ≡ true) s from)
        | inr from ↦
            let to : elem r.target_memory_id frontier ≡ true =
              subst (λ z. elem z frontier ≡ true) (sym t) f in
            inr (
              subst (λ z. elem v (neighbors org (z ∷ rs) frontier) ≡ true) same
                (neighbors_first org r rs frontier v (rw ((==_iff r.org_id org).1 o, from, to))
                  (rw from s)))
      ]

  module _ (ids : List Uuid) where
    -- After `k` rounds: what is visited is what lies within `k` hops, and whatever lies behind the
    -- frontier has been explored.
    record Round (k : ℕ) (frontier visited : List Uuid) : Type 0 where
      sound : (v : Uuid) → elem v visited ≡ true → Within org rels ids k v
      complete : (v : Uuid) → Within org rels ids k v → elem v visited ≡ true
      known : (v : Uuid) → elem v frontier ≡ true → elem v visited ≡ true
      explored :
          (u v : Uuid)
          → elem u visited ≡ true
          → elem u frontier ≡ false
          → Edge org rels u v
          → elem v visited ≡ true

    widen : {k : ℕ} {v : Uuid} → Within org rels ids k v → (n : ℕ) → k ≤ n → Within org rels ids n v
    widen (here e) n h = here e
    widen (hop w e) zero h = absurd (omega arith)
    widen (hop w e) (suc n) h = hop (widen w n (omega arith)) e

    first-Round : Round 0 ids ids
    first-Round = record {
      sound = λ v e. here e;
      complete = at_once;
      known = λ v e. e;
      explored = λ u v p q e. cc;
    }
      where
        at_once : (v : Uuid) → Within org rels ids 0 v → elem v ids ≡ true
        at_once v (here e) = e

    module _ (k : ℕ) (frontier visited : List Uuid) (round : Round k frontier visited) where
      abbrev next : List Uuid
      next = minus (neighbors org rels frontier) visited

      old_or_new :
          (v : Uuid)
          → elem v (visited ++ next) ≡ true
          → (elem v visited ≡ true) ⊎ (elem v next ≡ true)
      old_or_new v h = let e = elem-append v visited next in ground arith

      from_old : (v : Uuid) → elem v visited ≡ true → elem v (visited ++ next) ≡ true
      from_old v h = let e = elem-append v visited next in ground arith

      from_neighbors :
          (v : Uuid) → elem v (neighbors org rels frontier) ≡ true → elem v (visited ++ next) ≡ true
      from_neighbors v h =
          let e = elem-append v visited next in
          let f = elem-minus v (neighbors org rels frontier) visited in ground arith

      -- What is joined to something visited is visited after the round.
      next_has :
          (u v : Uuid) → elem u visited ≡ true → Edge org rels u v → elem v (visited ++ next) ≡ true
      next_has u v h e = elim (Bool-cases (elem u frontier)) [
        | inr behind ↦ from_old v (round.explored u v h behind e)
        | inl ahead ↦
            elim (Edge-neighbors frontier rels u v e.rel e.present e.of_org ahead e.ends) [
              | inl old ↦ from_old v (round.known v old)
              | inr new ↦ from_neighbors v new
            ]
      ]

      next_sound : (v : Uuid) → elem v (visited ++ next) ≡ true → Within org rels ids (suc k) v
      next_sound v h = elim (old_or_new v h) [
        | inl old ↦ widen (round.sound v old) (suc k) (omega arith)
        | inr new ↦
            let (u, there, edge) =
              neighbors-Edge frontier rels v (λ r m. m)
                (let f = elem-minus v (neighbors org rels frontier) visited in ground arith) in
            hop (round.sound u (round.known u there)) edge
      ]

      next_complete : (v : Uuid) → Within org rels ids (suc k) v → elem v (visited ++ next) ≡ true
      next_complete v (here e) = from_old v (round.complete v (here e))
      next_complete v (hop {u = u} w e) = next_has u v (round.complete u w) e

      next_explored :
          (u v : Uuid)
          → elem u (visited ++ next) ≡ true
          → elem u next ≡ false
          → Edge org rels u v
          → elem v (visited ++ next) ≡ true
      next_explored u v h q e = elim (old_or_new u h) [
        | inl old ↦ next_has u v old e
        | inr new ↦ cc
      ]

      next-Round : Round (suc k) next (visited ++ next)
      next-Round = record {
        sound = next_sound;
        complete = next_complete;
        known = λ v h. (let e = elem-append v visited next in ground arith);
        explored = next_explored;
      }

    closed :
        {k n : ℕ} {v : Uuid} {visited : List Uuid}
        → Round k [] visited
        → Within org rels ids n v
        → elem v visited ≡ true
    closed {v = v} round (here e) = round.complete v (here e)
    closed {v = v} round (hop {u = u} w e) = round.explored u v (closed round w) refl e

    explore-Within :
        (depth k n : ℕ) (frontier visited : List Uuid) (v : Uuid)
        → Round k frontier visited
        → k + depth ≡ n
        → (elem v (explore org rels depth frontier visited) ≡ true) ↔ Within org rels ids n v
    unfolding explore
    explore-Within zero k n frontier visited v round e = (
      (λ h. widen (round.sound v h) n (omega arith)),
      (λ w. round.complete v (widen w k (omega arith))),
    )
    explore-Within (suc depth) k n [] visited v round e =
        ((λ h. widen (round.sound v h) n (omega arith)), (λ w. closed round w))
    explore-Within (suc depth) k n (x ∷ xs) visited v round e =
        explore-Within depth (suc k) n (next k (x ∷ xs) visited round)
          (visited ++ next k (x ∷ xs) visited round) v (next-Round k (x ∷ xs) visited round)
          (omega arith)

-- The cascade finds exactly the memories that are at most `depth` relationships of the organisation
-- away from a given one and are not given themselves.
pub find_related_memories-Within :
    (org : Uuid) (rels : List Relationship) (ids : List Uuid) (depth : ℕ) (v : Uuid)
    → (elem v (find_related_memories org rels ids depth) ≡ true)
      ↔ (Within org rels ids depth v × (elem v ids ≡ false))
unfolding find_related_memories
find_related_memories-Within org rels ids depth v =
    let found =
      explore-Within org rels ids depth 0 depth ids ids v (first-Round org rels ids)
        (omega arith) in
    let e = elem-minus v (explore org rels depth ids ids) ids in
    (
      (λ h. (found.0 (ground arith), ground arith)),
      (λ w. let there = found.1 w.0 in let new = w.1 in ground arith),
    )
