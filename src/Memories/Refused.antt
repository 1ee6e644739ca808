-- ===== src/Memories/Refused.antt =====
-- An UPDATE that the trigger does not let through: the version that the trigger inserts has the id
-- of the row that it supersedes, which is still in the table.
use z3rno_core.Prelude.{
  ℕ, ◌≡◌, refl, Bool, true, false, ◌&&◌, Option, none, some, List, [], ◌∷◌, filter, any, ==_refl,
  Bool-cases, inl, inr, arith, is_none, String,
}
use text.Mathlib.TextPositions.{eq_refl}
use z3rno_core.Models.{Uuid}
use z3rno_core.Result.{raise, unique_violation}
use z3rno_core.Memories.Table.{Memory, has_id, same_number, same_text}
use z3rno_core.Memories.Scd.{in_place, supersede, update_row, update_rows, update_where}

pub same_number_refl : (o : Option ℕ) → same_number o o ≡ true
same_number_refl none = refl
same_number_refl (some a) = ==_refl a

pub same_text_refl : (o : Option String) → same_text o o ≡ true
same_text_refl none = refl
same_text_refl (some a) = eq_refl a

-- What the trigger looks at to let a row through: with none of it changed it makes a version.
pub in_place-false :
    (old new : Memory)
    → new.deleted_at ≡ old.deleted_at
    → new.recall_count ≡ old.recall_count
    → new.conversation_id ≡ old.conversation_id
    → new.turn_index ≡ old.turn_index
    → new.turn_role ≡ old.turn_role
    → in_place old new ≡ false
unfolding in_place
in_place-false old new d r c i t = rw (
  d,
  r,
  c,
  i,
  t,
  same_number_refl old.deleted_at,
  ==_refl old.recall_count,
  same_number_refl old.conversation_id,
  same_number_refl old.turn_index,
  same_text_refl old.turn_role,
)

any-supersede :
    (id other : Uuid) (now : ℕ) (table : List Memory)
    → any (has_id id) (supersede other now table) ≡ any (has_id id) table
unfolding supersede
any-supersede id other now [] = refl
any-supersede id other now (x ∷ xs) =
    let e = any-supersede id other now xs in
    elim (Bool-cases (has_id other x && is_none x.valid_to)) [
      | inl p ↦ rw (p, e)
      | inr p ↦ rw (p, e)
    ]

version-refused :
    (now : ℕ) (old new : Memory) (table : List Memory)
    → any (has_id old.id) table ≡ true
    → in_place old new ≡ false
    → update_row now old new table ≡ raise unique_violation
unfolding update_row
version-refused now old new table p q = rw (q, any-supersede old.id old.id now table, p)

first_match :
    (where_ : Memory → Bool) (table : List Memory)
    → any where_ table ≡ true
    → (x : Memory) × (rest : List Memory) × (filter where_ table ≡ x ∷ rest)
      × (where_ x ≡ true)
      × (any (has_id x.id) table ≡ true)
first_match where_ [] h = cc
first_match where_ (y ∷ ys) h = elim (Bool-cases (where_ y)) [
  | inl e ↦ (y, filter where_ ys, rw e, e, rw (==_refl y.id))
  | inr e ↦
      let (x, rest, found, good, here) = first_match where_ ys (ground arith) in
      (x, rest, rw e found, good, ground arith)
]

-- If a row matches and the trigger makes a version of every row that matches, the statement raises
-- the violation of the primary key.
pub update_where-refused :
    (now : ℕ) (where_ : Memory → Bool) (set : Memory → Memory) (table : List Memory)
    → ((m : Memory) → where_ m ≡ true → in_place m (set m) ≡ false)
    → any where_ table ≡ true
    → update_where now where_ set table ≡ raise unique_violation
unfolding update_where
update_where-refused now where_ set table makes h =
    let (x, rest, found, good, here) = first_match where_ table h in
    rw (found, update_rows, version-refused now x (set x) table here (makes x good))
