-- ===== src/Temporal/Queries/Single.antt =====
-- Reads by time of a memory whose row is in the table.
use z3rno_core.Prelude.{
  ℕ, ◌≡◌, refl, sym, subst, Bool, true, false, none, some, List, [], ◌∷◌, filter, any,
  if◌then◌else◌, ◌==◌, ==_refl, ==_iff, Bool-cases, inl, inr, In,
}
use z3rno_core.Prelude.Sort.{sort, insert}
use z3rno_core.Prelude.Filter.{filter-and}
use z3rno_core.Prelude.Distinct.{AreDistinct, In-any}
use z3rno_core.Memories.Table.{Memory, has_id}
use z3rno_core.Temporal.Queries.{is_valid_at, get_memory_at_time, get_memory_history}

module _ {A : Type 0} where
  filter_of_not_any : (p : A → Bool) (xs : List A) → any p xs ≡ false → filter p xs ≡ []
  filter_of_not_any p [] h = refl
  filter_of_not_any p (x ∷ xs) h = elim (Bool-cases (p x)) [
    | inl e ↦ cc (rw e at h)
    | inr e ↦ rw e (filter_of_not_any p xs (rw e at h))
  ]

  -- In a list without two elements of one key, one element has the key of an element.
  filter_key-single :
      (key : A → ℕ) (xs : List A) (x : A)
      → AreDistinct key xs
      → In x xs
      → filter (λ y. key y == key x) xs ≡ x ∷ []
  filter_key-single key [] x d i = elim i [ ]
  filter_key-single key (y ∷ ys) x d (inl same) =
      subst (λ z. filter (λ w. key w == key z) (y ∷ ys) ≡ z ∷ []) (sym same)
        (rw (==_refl (key y), filter_of_not_any (λ w. key w == key y) ys d.0))
  filter_key-single key (y ∷ ys) x d (inr later) =
      let there = In-any key x ys later in
      elim (Bool-cases (key y == key x)) [
        | inl e ↦
            let absent = d.0 in
            absurd (
              cc (
                subst (λ n. any (λ w. key w == n) ys ≡ true) (sym ((==_iff (key y) (key x)).0 e))
                    there,
                absent,
              ))
        | inr e ↦ rw e (filter_key-single key ys x d.1 later)
      ]

-- On a table whose ids are distinct, the history of a memory is its row alone, and a read at a time
-- gives this row where the time is within the row's validity, and nothing elsewhere.
pub get_memory_history-single :
    (ts : ℕ) (m : Memory) (table : List Memory)
    → AreDistinct (λ r. r.id) table
    → In m table
    → (get_memory_history m.id table ≡ m ∷ [])
      × (get_memory_at_time m.id ts table ≡ (if is_valid_at ts m then some m else none))
unfolding get_memory_history get_memory_at_time sort insert
get_memory_history-single ts m table d i =
    let one = filter_key-single (λ r. r.id) table m d i in
    (
      rw one refl,
      (rw (filter-and (has_id m.id) (is_valid_at ts) table, one)
          (elim (Bool-cases (is_valid_at ts m)) [ inl e ↦ rw e refl | inr e ↦ rw e refl ])),
    )
