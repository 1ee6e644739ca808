-- ===== src/Engine/RecallBatch/Flushes.antt =====
-- What the statements of a flush add to the counts.
use z3rno_core.Prelude.{
  ℕ, ◌+◌, ◌≡◌, refl, sym, ap, ap₂, ◌∙◌, subst, Bool, true, false, ◌&&◌, ◌||◌, List, [], ◌∷◌, map,
  any, elem, if◌then◌else◌, ◌==◌, ==_iff, Bool-cases, ◌⊎◌, inl, inr, arith,
}
use z3rno_core.Models.{Uuid}
use z3rno_core.Memories.Table.{Memory, has_id}
use z3rno_core.Memories.InPlace.{IsKeyed}
use z3rno_core.Audit.Tables.{distinct}
use z3rno_core.Engine.Forget.Targets.{IsUnique, elem-distinct, distinct-IsUnique}
use z3rno_core.Engine.RecallBatch.{
  Delta, of_org, delta_in, bumped, update_counts, or_drop, flush_orgs,
}
use z3rno_core.Engine.RecallBatch.Counts.{
  add_where, amount, IsPositive, of_org-IsPositive, delta_in-positive, delta_in-absent,
  delta_in-of_org, amount-absent,
}

abbrev pub counts_of : List Memory → List ℕ
counts_of table = map (λ m. m.recall_count) table

any_id :
    (id : Uuid) (f : Memory → Memory) (table : List Memory)
    → ((m : Memory) → (f m).id ≡ m.id)
    → any (has_id id) (map f table) ≡ any (has_id id) table
any_id id f [] same = refl
any_id id f (x ∷ xs) same =
    ap₂ (λ (u : ℕ) (b : Bool). (u == id) || b) (same x) (any_id id f xs same)

pub map-IsKeyed :
    (f : Memory → Memory) (table : List Memory)
    → ((m : Memory) → (f m).id ≡ m.id)
    → IsKeyed table
    → IsKeyed (map f table)
map-IsKeyed f [] same k = tt
map-IsKeyed f (x ∷ xs) same k = (
  any_id (f x).id f xs same ∙ subst (λ u. any (has_id u) xs ≡ false) (sym (same x)) k.0,
  map-IsKeyed f xs same k.1,
)

pub map_counts :
    (g : Memory → Memory) (n k : Memory → ℕ) (table : List Memory)
    → ((m : Memory) → n (g m) ≡ k m)
    → map n (map g table) ≡ map k table
map_counts g n k [] h = refl
map_counts g n k (x ∷ xs) h = ap₂ (λ (a : ℕ) (l : List ℕ). a ∷ l) (h x) (map_counts g n k xs h)

pub map_same_counts :
    (n k : Memory → ℕ) (table : List Memory)
    → ((m : Memory) → n m ≡ k m)
    → map n table ≡ map k table
map_same_counts n k [] h = refl
map_same_counts n k (x ∷ xs) h =
    ap₂ (λ (a : ℕ) (l : List ℕ). a ∷ l) (h x) (map_same_counts n k xs h)

module _ (now : ℕ) (ds : List Delta) (positive : IsPositive ds) where
  -- What the statement of one organisation does to a row.
  flushed : Uuid → Memory → Memory
  flushed org m =
      if (m.org_id == org) && any (λ d. d.memory_id == m.id) (of_org org ds)
      then bumped now (delta_in m.id (of_org org ds)) m
      else m

  one_org :
      (org : Uuid) (table : List Memory)
      → IsKeyed table
      → or_drop table (update_counts now org (of_org org ds) table) ≡ map (flushed org) table
  unfolding flushed update_counts
  one_org org table keyed = ap (or_drop table) (
      add_where now (λ m. (m.org_id == org) && any (λ d. d.memory_id == m.id) (of_org org ds))
        (λ m. delta_in m.id (of_org org ds)) table keyed
        (λ m h.
          delta_in-positive m.id (of_org org ds) (of_org-IsPositive org ds positive)
            (let a = (m.org_id == org) in ground arith)))

  flushed-id : (org : Uuid) (m : Memory) → (flushed org m).id ≡ m.id
  unfolding flushed
  flushed-id org m =
      elim (Bool-cases ((m.org_id == org) && any (λ d. d.memory_id == m.id) (of_org org ds))) [
        | inl e ↦ rw e
        | inr e ↦ rw e
      ]

  flushed-org_id : (org : Uuid) (m : Memory) → (flushed org m).org_id ≡ m.org_id
  unfolding flushed
  flushed-org_id org m =
      elim (Bool-cases ((m.org_id == org) && any (λ d. d.memory_id == m.id) (of_org org ds))) [
        | inl e ↦ rw e
        | inr e ↦ rw e
      ]

  flushed_count :
      (org : Uuid) (m : Memory)
      → (flushed org m).recall_count
        ≡ m.recall_count + (if m.org_id == org then amount org m.id ds else 0)
  unfolding flushed
  flushed_count org m = elim (Bool-cases (m.org_id == org)) [
    | inr e ↦ rw e (omega arith)
    | inl e ↦ elim (Bool-cases (any (λ d. d.memory_id == m.id) (of_org org ds))) [
      | inl f ↦ rw (e, f) (ap (λ n. m.recall_count + n) (delta_in-of_org org m.id ds))
      | inr f ↦
          let z : amount org m.id ds ≡ 0 =
            sym (delta_in-of_org org m.id ds) ∙ delta_in-absent m.id (of_org org ds) f in
          rw (e, f, z) (omega arith)
    ]
  ]

  -- What the statements of several add to the row of `id` in `org`.
  pub extra : List Uuid → Uuid → Uuid → ℕ
  extra [] org id = 0
  extra (o ∷ os) org id = (if org == o then amount o id ds else 0) + extra os org id

  pub flush_orgs-counts :
      (orgs : List Uuid) (table : List Memory)
      → IsKeyed table
      → counts_of (flush_orgs (λ o. true) now ds orgs table)
        ≡ map (λ m. m.recall_count + extra orgs m.org_id m.id) table
  unfolding flush_orgs extra
  flush_orgs-counts [] table keyed = map_same_counts _ _ table (λ m. (omega arith))
  flush_orgs-counts (o ∷ os) table keyed =
      ap (λ t. counts_of (flush_orgs (λ x. true) now ds os t)) (one_org o table keyed)
      ∙ flush_orgs-counts os (map (flushed o) table)
          (map-IsKeyed (flushed o) table (flushed-id o) keyed)
      ∙ map_counts (flushed o) (λ m. m.recall_count + extra os m.org_id m.id) _ table
          (λ m. rw (flushed_count o m, flushed-org_id o m, flushed-id o m) (omega arith))

  extra_absent : (orgs : List Uuid) (org id : Uuid) → elem org orgs ≡ false → extra orgs org id ≡ 0
  unfolding extra
  extra_absent [] org id h = refl
  extra_absent (o ∷ os) org id h = let ih = extra_absent os org id in ground arith

  extra_unique :
      (orgs : List Uuid) (org id : Uuid)
      → IsUnique orgs
      → extra orgs org id ≡ (if elem org orgs then amount org id ds else 0)
  unfolding extra
  extra_unique [] org id u = refl
  extra_unique (o ∷ os) org id u = elim (Bool-cases (org == o)) [
    | inl e ↦
        let same : org ≡ o = (==_iff org o).0 e in
        let gone : elem org os ≡ false = subst (λ z. elem z os ≡ false) (sym same) u.0 in
        rw (e, extra_absent os org id gone)
          (subst (λ z. amount z id ds + 0 ≡ amount org id ds) same (omega arith))
    | inr e ↦ rw (e, extra_unique os org id u.1) (omega arith)
  ]

  pub extra_all :
      (org id : Uuid) → extra (distinct [] (map (λ d. d.org_id) ds)) org id ≡ amount org id ds
  extra_all org id =
      extra_unique (distinct [] (map (λ d. d.org_id) ds)) org id
        (distinct-IsUnique [] (map (λ d. d.org_id) ds))
      ∙ by_case (Bool-cases (elem org (map (λ d. d.org_id) ds)))
    where
      seen : elem org (distinct [] (map (λ d. d.org_id) ds)) ≡ elem org (map (λ d. d.org_id) ds)
      seen = let e = elem-distinct org [] (map (λ d. d.org_id) ds) in ground arith

      by_case :
          (elem org (map (λ d. d.org_id) ds) ≡ true) ⊎ (elem org (map (λ d. d.org_id) ds) ≡ false)
          → (if elem org (distinct [] (map (λ d. d.org_id) ds)) then amount org id ds else 0)
            ≡ amount org id ds
      by_case (inl e) = rw (seen, e)
      by_case (inr e) = rw (seen, e) (sym (amount-absent org id ds e))
