-- ===== src/Engine/RecallBatch/Counts.antt =====
-- The batched counts against those of an UPDATE for each recall.
use z3rno_core.Prelude.{
  ℕ, ◌+◌, ◌≡◌, ◌<◌, refl, Bool, true, false, ◌&&◌, List, [], ◌∷◌, map, filter, any, elem, length,
  if◌then◌else◌, ◌==◌, ==_refl, Bool-cases, inl, inr, All, arith,
}
use text.Mathlib.TextPositions.{eq_refl}
use z3rno_core.Models.{Uuid}
use z3rno_core.Result.{ok}
use z3rno_core.Memories.Table.{Memory}
use z3rno_core.Memories.Scd.{in_place, only_recalled, update_where}
use z3rno_core.Memories.Refused.{same_number_refl, same_text_refl}
use z3rno_core.Memories.InPlace.{IsKeyed, update_where-in_place}
use z3rno_core.Memories.Deleted.{bool_eq_refl, type_eq_refl}
use z3rno_core.Engine.RecallBatch.{Delta, has_key, add_one, add_all, of_org, delta_in, bumped}

pub bumped-in_place : (now n : ℕ) (m : Memory) → 0 < n → in_place m (bumped now n m) ≡ true
unfolding in_place only_recalled
bumped-in_place now n m h =
    let moved : (m.recall_count + n == m.recall_count) ≡ false = ground arith in
    rw
      (
        moved,
        eq_refl m.content,
        same_text_refl m.summary,
        ==_refl m.importance_score,
        type_eq_refl m.memory_type,
        bool_eq_refl m.pinned,
        same_number_refl m.deleted_at,
      )
      (ground arith)

-- An UPDATE that adds `n m` to the rows with `where_`, all of them positive, is the map that does so.
pub add_where :
    (now : ℕ) (where_ : Memory → Bool) (n : Memory → ℕ) (table : List Memory)
    → IsKeyed table
    → ((m : Memory) → where_ m ≡ true → 0 < n m)
    → update_where now where_ (λ m. bumped now (n m) m) table
      ≡ ok (
        map (λ m. if where_ m then bumped now (n m) m else m) table,
        length (filter where_ table),
      )
add_where now where_ n table keyed positive =
    update_where-in_place now where_ (λ m. bumped now (n m) m) (λ m. refl)
      (λ m h. bumped-in_place now (n m) m (positive m h)) table keyed

-- What is pending for one key.
abbrev pub amount : Uuid → Uuid → List Delta → ℕ
amount org id [] = 0
amount org id (d ∷ ds) = if has_key org id d then d.delta else amount org id ds

amount-add_one :
    (org id org' id' : ℕ) (ds : List Delta)
    → amount org id (add_one org' id' ds)
      ≡ amount org id ds + (if (org' == org) && (id' == id) then 1 else 0)
unfolding add_one
amount-add_one org id org' id' [] = ground arith
amount-add_one org id org' id' (d ∷ ds) = let ih = amount-add_one org id org' id' ds in ground arith

-- How often `id` stands in the list.
abbrev pub times : Uuid → List Uuid → ℕ
times id [] = 0
times id (x ∷ xs) = (if x == id then 1 else 0) + times id xs

pub amount-add_all :
    (org id org' : ℕ) (ids : List Uuid) (ds : List Delta)
    → amount org id (add_all org' ids ds)
      ≡ amount org id ds + (if org' == org then times id ids else 0)
unfolding add_all
amount-add_all org id org' [] ds = ground arith
amount-add_all org id org' (x ∷ xs) ds =
    let ih = amount-add_all org id org' xs (add_one org' x ds) in
    let e = amount-add_one org id org' x ds in ground arith

abbrev pub IsPositive : List Delta → Type 0
IsPositive ds = All (λ d. 0 < d.delta) ds

add_one-IsPositive : (org id : ℕ) (ds : List Delta) → IsPositive ds → IsPositive (add_one org id ds)
unfolding add_one
add_one-IsPositive org id [] p = (omega arith, tt)
add_one-IsPositive org id (d ∷ ds) p = elim (Bool-cases (has_key org id d)) [
  | inl e ↦ rw e (omega arith, p.1)
  | inr e ↦ rw e (p.0, add_one-IsPositive org id ds p.1)
]

pub add_all-IsPositive :
    (org : ℕ) (ids : List Uuid) (ds : List Delta) → IsPositive ds → IsPositive (add_all org ids ds)
unfolding add_all
add_all-IsPositive org [] ds p = p
add_all-IsPositive org (x ∷ xs) ds p =
    add_all-IsPositive org xs (add_one org x ds) (add_one-IsPositive org x ds p)

pub of_org-IsPositive : (org : ℕ) (ds : List Delta) → IsPositive ds → IsPositive (of_org org ds)
of_org-IsPositive org [] p = tt
of_org-IsPositive org (d ∷ ds) p = elim (Bool-cases (d.org_id == org)) [
  | inl e ↦ rw e (p.0, of_org-IsPositive org ds p.1)
  | inr e ↦ rw e (of_org-IsPositive org ds p.1)
]

pub delta_in-positive :
    (id : ℕ) (ds : List Delta)
    → IsPositive ds
    → any (λ d. d.memory_id == id) ds ≡ true
    → 0 < delta_in id ds
delta_in-positive id [] p h = absurd (cc h)
delta_in-positive id (d ∷ ds) p h = elim (Bool-cases (d.memory_id == id)) [
  | inl e ↦ rw e p.0
  | inr e ↦ rw e (delta_in-positive id ds p.1 (rw e at h))
]

pub delta_in-absent :
    (id : ℕ) (ds : List Delta) → any (λ d. d.memory_id == id) ds ≡ false → delta_in id ds ≡ 0
delta_in-absent id [] h = refl
delta_in-absent id (d ∷ ds) h = let ih = delta_in-absent id ds in ground arith

pub delta_in-of_org :
    (org id : ℕ) (ds : List Delta) → delta_in id (of_org org ds) ≡ amount org id ds
delta_in-of_org org id [] = refl
delta_in-of_org org id (d ∷ ds) = elim (Bool-cases (d.org_id == org)) [
  | inl e ↦ rw (e, delta_in-of_org org id ds)
  | inr e ↦ rw (e, delta_in-of_org org id ds)
]

pub amount-absent :
    (org id : ℕ) (ds : List Delta)
    → elem org (map (λ d. d.org_id) ds) ≡ false
    → amount org id ds ≡ 0
amount-absent org id [] h = refl
amount-absent org id (d ∷ ds) h = let ih = amount-absent org id ds in ground arith
