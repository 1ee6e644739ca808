-- ===== src/Engine/Lifecycle/Ranked.antt =====
-- The rows that the cap takes, and the rows that it spares.
use z3rno_core.Prelude.{
  ℕ, ◌+◌, ◌<◌, ◌≤◌, ◌⊎◌, ltb, ◌≡◌, refl, sym, ap, ◌∙◌, ◌-◌, subst, Bool, true, false, not, ◌&&◌,
  List, [], ◌∷◌, map, filter, length, take, min, length-map, length-take, Bool-cases, inl, inr, In,
  All, arith,
}
use z3rno_core.Prelude.Filter.{All-take, All-In, All-mono}
use z3rno_core.Prelude.Distinct.{
  AreDistinct, sort-AreDistinct, filter-AreDistinct, elem-map, unique_key, filter-In,
}
use z3rno_core.Prelude.Ranked.{
  count, In-filter, In-sort, In-key, In-IsSorted, left_over, count-filter,
}
use z3rno_core.Prelude.Sort.{
  sort, IsSorted, length-sort, All-sort, sort-IsSorted, length-filter-sort,
}
use z3rno_core.Models.{Uuid, MemoryType}
use z3rno_core.Memories.Table.{Memory}
use z3rno_core.Memories.InPlace.{IsKeyed}
use z3rno_core.Memories.Deleted.{picks, mark_deleted, deleted_where}
use z3rno_core.Engine.Lifecycle.{is_counted, less_important}

-- The unpinned rows that the cap counts.
abbrev pub is_candidate : Uuid → Uuid → MemoryType → Memory → Bool
is_candidate org agent type m = is_counted org agent type m && not m.pinned

-- `m` is less important than `n`, or as important and no younger.
abbrev pub GoesBefore : Memory → Memory → Type 0
GoesBefore m n =
    (m.importance_score < n.importance_score)
    ⊎ ((m.importance_score ≡ n.importance_score) × (m.created_at ≤ n.created_at))

-- The table's key as lists have it.
keyed_ids : (xs : List Memory) → IsKeyed xs → AreDistinct (λ (x : Memory). x.id) xs
keyed_ids [] k = tt
keyed_ids (x ∷ xs) k = (k.0, keyed_ids xs k.1)

GoesBefore_lem : (m n : Memory) → less_important m n ≡ true → GoesBefore m n
GoesBefore_lem m n h = elim (Bool-cases (ltb m.importance_score n.importance_score)) [
  | inl e ↦ inl (ground arith)
  | inr e ↦ inr (ground arith, ground arith)
]

module _ (org agent : Uuid) (type : MemoryType) (excess : ℕ) (table : List Memory)
    (keyed : IsKeyed table) where
  abbrev candidate : Memory → Bool
  candidate = is_candidate org agent type

  abbrev ranked : List Memory
  ranked = sort less_important (filter candidate table)

  abbrev pub victims : List Uuid
  victims = map (λ m. m.id) (take excess ranked)

  ranked-IsSorted : IsSorted less_important ranked
  ranked-IsSorted =
      sort-IsSorted less_important (λ x y h. (ground arith)) (λ x y z h k. (ground arith))
        (filter candidate table)

  fits : All (λ x. In x table × (candidate x ≡ true)) (take excess ranked)
  fits =
      All-take _ excess ranked
        (All-sort less_important _ _ (filter-In candidate table table (λ x m. m)))

  -- A row with an id that is taken is the row that was taken.
  taken : (m : Memory) → In m table → picks victims m ≡ true → In m (take excess ranked)
  taken m i h =
      let (k, there, same) = elem-map (λ (x : Memory). x.id) m.id (take excess ranked) h in
      let known =
        All-In (λ x. In x table × (candidate x ≡ true)) (take excess ranked) k fits there in
      subst (λ z. In z (take excess ranked))
        (unique_key (λ (x : Memory). x.id) table k m (keyed_ids table keyed) known.0 i same) there

  -- Only candidates have the ids that are taken.
  pub chosen : (m : Memory) → In m table → picks victims m ≡ true → candidate m ≡ true
  chosen m i h =
      (All-In (λ x. In x table × (candidate x ≡ true)) (take excess ranked) m fits (taken m i h)).1

  -- A candidate that is not taken comes after those that are.
  spared :
      (n : Memory)
      → In n table
      → candidate n ≡ true
      → picks victims n ≡ false
      → All (λ m. less_important m n ≡ true) (take excess ranked)
  spared n i fits out =
      elim (In-IsSorted less_important excess ranked n ranked-IsSorted
        (In-sort less_important (filter candidate table) n (In-filter candidate table n i fits))) [
          | inl first ↦
              let found = In-key (λ (x : Memory). x.id) n (take excess ranked) first in absurd (cc)
          | inr before ↦ before
        ]

  pub order :
      All
        (λ m. All (GoesBefore m) (filter (λ n. candidate n && not (picks victims n)) table))
        (filter (picks victims) table)
  order =
      All-mono _ _ (filter (picks victims) table) outer
        (filter-In (picks victims) table table (λ x i. i))
    where
      outer :
          (m : Memory)
          → In m table × (picks victims m ≡ true)
          → All (GoesBefore m) (filter (λ n. candidate n && not (picks victims n)) table)
      outer m a =
          All-mono _ _ (filter (λ n. candidate n && not (picks victims n)) table)
            (λ n b. GoesBefore_lem m n (
              All-In (λ x. less_important x n ≡ true) (take excess ranked) m
                (spared n b.0 (let c = b.1 in ground arith) (let c = b.1 in ground arith))
                (taken m a.0 a.1)))
            (filter-In (λ n. candidate n && not (picks victims n)) table table (λ x i. i))

  pub length-victims : length victims ≡ min excess (count candidate table)
  length-victims =
      length-map (λ (r : Memory). r.id) (take excess ranked)
      ∙ length-take excess ranked
      ∙ ap (min excess) (length-sort less_important (filter candidate table))

  -- The rows that the cap counts are the candidates and the pinned ones, and no pinned row is taken.
  abbrev pinned : Memory → Bool
  pinned m = is_counted org agent type m && m.pinned

  count-counted :
      (xs : List Memory)
      → count (is_counted org agent type) xs ≡ count candidate xs + count pinned xs
  count-counted [] = refl
  count-counted (x ∷ xs) = let ih = count-counted xs in ground arith

  count-marked :
      (now : ℕ) (xs : List Memory)
      → ((m : Memory) → In m xs → picks victims m ≡ true → candidate m ≡ true)
      → count (is_counted org agent type) (map (deleted_where now (picks victims)) xs)
        ≡ count (λ m. candidate m && not (picks victims m)) xs + count pinned xs
  unfolding mark_deleted
  count-marked now [] only = refl
  count-marked now (x ∷ xs) only =
      let ih = count-marked now xs (λ m i. only m (inr i)) in
      elim (Bool-cases (picks victims x)) [
        | inl e ↦ (let c = only x (inl refl) e in rw e (ground arith))
        | inr e ↦ rw e (ground arith)
      ]

  count-left :
      count (λ m. candidate m && not (picks victims m)) table ≡ count candidate table - excess
  count-left =
      sym (count-filter (λ m. not (picks victims m)) candidate table)
      ∙ sym
          (length-filter-sort less_important (λ m. not (picks victims m)) (filter candidate table))
      ∙ left_over (λ (m : Memory). m.id) excess ranked
          (sort-AreDistinct (λ (m : Memory). m.id) less_important (filter candidate table)
            (filter-AreDistinct (λ (m : Memory). m.id) candidate table (keyed_ids table keyed)))
      ∙ ap (λ n. n - excess) (length-sort less_important (filter candidate table))

  pub counted_after :
      (now : ℕ)
      → count (is_counted org agent type) (map (deleted_where now (picks victims)) table)
          + length victims
        ≡ count (is_counted org agent type) table
  counted_after now =
      let a = count-marked now table chosen in
      let b = count-left in let c = count-counted table in let d = length-victims in omega arith
