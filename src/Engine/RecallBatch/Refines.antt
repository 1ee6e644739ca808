-- ===== src/Engine/RecallBatch/Refines.antt =====
-- The batched counts beside those of UPDATEs at once.
use z3rno_core.Prelude.{
  ℕ, ◌+◌, ◌≡◌, refl, sym, ap, ◌∙◌, subst, true, false, ◌&&◌, List, [], ◌∷◌, map, elem,
  if◌then◌else◌, ◌==◌, ==_iff, Bool-cases, inl, inr, All, arith,
}
use z3rno_core.Models.{Uuid}
use z3rno_core.Result.{Result, ok, ◌>>=◌}
use z3rno_core.Memories.Table.{Memory}
use z3rno_core.Memories.InPlace.{IsKeyed}
use z3rno_core.Audit.Tables.{distinct}
use z3rno_core.Engine.Forget.Targets.{IsUnique}
use z3rno_core.Engine.RecallBatch.{Batcher, add_all, bump, bumped, flush_once, bump_inline}
use z3rno_core.Engine.RecallBatch.Counts.{
  add_where, amount, amount-add_all, times, IsPositive, add_all-IsPositive,
}
use z3rno_core.Engine.RecallBatch.Flushes.{
  counts_of, map-IsKeyed, map_counts, map_same_counts, flush_orgs-counts, extra_all,
}

-- A recall: when, for whom, and the memories that it returned.
pub record Recall : Type 0 where
  pub at : ℕ
  pub org_id : Uuid
  pub memory_ids : List Uuid

-- How often a memory was returned, over a number of recalls.
abbrev pub total : List Recall → Uuid → Uuid → ℕ
total [] org id = 0
total (r ∷ rs) org id = (if r.org_id == org then times id r.memory_ids else 0) + total rs org id

abbrev pub bump_each : List Recall → Batcher → Batcher
bump_each [] b = b
bump_each (r ∷ rs) b = bump_each rs (bump r.org_id r.memory_ids b)

abbrev pub inline_each : List Recall → List Memory → Result (List Memory)
inline_each [] table = ok table
inline_each (r ∷ rs) table =
    bump_inline r.at r.org_id r.memory_ids table >>= λ done. inline_each rs done.0

-- An open batcher holds what was added.
pending_total :
    (rs : List Recall) (b : Batcher)
    → b.closed ≡ false
    → IsPositive b.pending
    → IsPositive (bump_each rs b).pending
      × ((org id : Uuid)
          → amount org id (bump_each rs b).pending ≡ amount org id b.pending + total rs org id)
unfolding bump
pending_total [] b open_ p = (p, λ org id. (omega arith))
pending_total (r ∷ rs) b open_ p =
    let b' : Batcher = record b {
      pending = add_all r.org_id r.memory_ids b.pending;
      wake = true;
      draining = true;
    } in
    let next : bump r.org_id r.memory_ids b ≡ b' = rw open_ in
    let (q, h) = pending_total rs b' open_ (add_all-IsPositive r.org_id r.memory_ids b.pending p) in
    (
      subst (λ z. IsPositive (bump_each rs z).pending) (sym next) q,
      λ org id.
          ap (λ z. amount org id (bump_each rs z).pending) next
          ∙ h org id
          ∙ ap (λ z. z + total rs org id) (amount-add_all org id r.org_id r.memory_ids b.pending)
          ∙ omega arith,
    )

times_absent : (id : Uuid) (ids : List Uuid) → elem id ids ≡ false → times id ids ≡ 0
times_absent id [] h = refl
times_absent id (x ∷ xs) h = let ih = times_absent id xs in ground arith

times_unique :
    (id : Uuid) (ids : List Uuid) → IsUnique ids → times id ids ≡ (if elem id ids then 1 else 0)
times_unique id [] u = refl
times_unique id (x ∷ xs) u = elim (Bool-cases (id == x)) [
  | inl e ↦
      let same : id ≡ x = (==_iff id x).0 e in
      let gone : elem id xs ≡ false = subst (λ z. elem z xs ≡ false) (sym same) u.0 in
      let z = times_absent id xs gone in ground arith
  | inr e ↦ (let ih = times_unique id xs u.1 in ground arith)
]

inline_one : ℕ → Uuid → List Uuid → Memory → Memory
inline_one now org ids m = if (m.org_id == org) && elem m.id ids then bumped now 1 m else m

inline-counts :
    (rs : List Recall) (table : List Memory)
    → IsKeyed table
    → All (λ r. IsUnique r.memory_ids) rs
    → (t : List Memory) × (inline_each rs table ≡ ok t)
      × (counts_of t ≡ map (λ m. m.recall_count + total rs m.org_id m.id) table)
unfolding bump_inline inline_one
inline-counts [] table keyed u = (table, refl, map_same_counts _ _ table (λ m. (omega arith)))
inline-counts (r ∷ rs) table keyed u =
    let f = inline_one r.at r.org_id r.memory_ids in
    let (t, e, h) = inline-counts rs (map f table) (map-IsKeyed f table keep_id keyed) u.1 in
    (
      t,
      ap (λ x. x >>= λ done. inline_each rs done.0)
            (add_where r.at (λ m. (m.org_id == r.org_id) && elem m.id r.memory_ids) (λ m. 1) table
              keyed (λ m g. (omega arith)))
          ∙ e,
      h ∙ map_counts f (λ m. m.recall_count + total rs m.org_id m.id) _ table row,
    )
  where
    keep_id : (m : Memory) → (inline_one r.at r.org_id r.memory_ids m).id ≡ m.id
    keep_id m = elim (Bool-cases ((m.org_id == r.org_id) && elem m.id r.memory_ids)) [
      | inl g ↦ rw g
      | inr g ↦ rw g
    ]

    row :
        (m : Memory)
        → (inline_one r.at r.org_id r.memory_ids m).recall_count
            + total rs
                (inline_one r.at r.org_id r.memory_ids m).org_id
                (inline_one r.at r.org_id r.memory_ids m).id
          ≡ m.recall_count + total (r ∷ rs) m.org_id m.id
    row m =
        let n = times_unique m.id r.memory_ids u.0 in
        elim (Bool-cases ((m.org_id == r.org_id) && elem m.id r.memory_ids)) [
          | inl g ↦ rw g (ground arith)
          | inr g ↦ rw g (ground arith)
        ]

-- Recalls that go through an open batcher with nothing pending, and one flush in which every
-- organisation's statement reaches the database, leave nothing pending and give each memory the
-- recall count that it has after an UPDATE at once for each of those recalls, none of which raises.
-- The ids are distinct in the table, and in each recall.
pub flush_once-bump :
    (rs : List Recall) (b : Batcher) (now : ℕ) (table : List Memory)
    → IsKeyed table
    → All (λ r. IsUnique r.memory_ids) rs
    → b.closed ≡ false
    → b.pending ≡ []
    → (t : List Memory) × (inline_each rs table ≡ ok t)
      × (counts_of (flush_once (λ org. true) now (bump_each rs b) table).1 ≡ counts_of t)
      × ((flush_once (λ org. true) now (bump_each rs b) table).0.pending ≡ [])
unfolding flush_once
flush_once-bump rs b now table keyed u open_ none_yet =
    let (t, e, h) = inline-counts rs table keyed u in
    let (p, held) = pending_total rs b open_ (subst IsPositive (sym none_yet) tt) in
    let ds = (bump_each rs b).pending in
    (
      t,
      e,
      flush_orgs-counts now ds p (distinct [] (map (λ d. d.org_id) ds)) table keyed
          ∙ map_same_counts _ _ table (λ m.
            ap (λ n. m.recall_count + n)
              (extra_all now ds p m.org_id m.id
                ∙ held m.org_id m.id
                ∙ ap (λ l. amount m.org_id m.id l + total rs m.org_id m.id) none_yet
                ∙ omega arith))
          ∙ sym h,
      refl,
    )
