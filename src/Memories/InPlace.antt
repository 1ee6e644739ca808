-- ===== src/Memories/InPlace.antt =====
-- An UPDATE whose rows the trigger lets through in place.
use z3rno_core.Prelude.{
  ℕ, ◌+◌, ◌≡◌, refl, ap, ap₂, ◌∙◌, subst, Bool, true, false, List, [], ◌∷◌, ◌++◌, map, filter, any,
  length, All, if◌then◌else◌, ==_refl, Bool-cases, inl, inr, arith, append_assoc,
}
use z3rno_core.Models.{Uuid}
use z3rno_core.Result.{Result, ok, ◌>>=◌}
use z3rno_core.Memories.Table.{Memory, has_id, replace}
use z3rno_core.Memories.Scd.{in_place, update_row, update_rows, update_where}

-- The ids are distinct, as the primary key has it.
abbrev pub IsKeyed : List Memory → Type 0
IsKeyed [] = Unit
IsKeyed (m ∷ ms) = (any (has_id m.id) ms ≡ false) × IsKeyed ms

replace-append :
    (id : Uuid) (m : Memory) (xs ys : List Memory)
    → replace id m (xs ++ ys) ≡ replace id m xs ++ replace id m ys
replace-append id m [] ys = refl
replace-append id m (x ∷ xs) ys =
    ap (◌∷◌ (if has_id id x then m else x)) (replace-append id m xs ys)

replace_absent :
    (id : Uuid) (m : Memory) (xs : List Memory) → any (has_id id) xs ≡ false → replace id m xs ≡ xs
replace_absent id m [] h = refl
replace_absent id m (x ∷ xs) h = elim (Bool-cases (has_id id x)) [
  | inl e ↦ absurd (ground arith)
  | inr e ↦ rw e (ap (◌∷◌ x) (replace_absent id m xs (ground arith)))
]

here : (x y : Memory) → (if has_id x.id x then y else x) ≡ y
here x y = rw (==_refl x.id)

replace_here :
    (x y : Memory) (before after : List Memory)
    → any (has_id x.id) before ≡ false
    → any (has_id x.id) after ≡ false
    → replace x.id y (before ++ x ∷ after) ≡ before ++ y ∷ after
replace_here x y before after p q =
    replace-append x.id y before (x ∷ after)
    ∙ ap₂ (λ (a b : List Memory). a ++ b) (replace_absent x.id y before p)
        (ap₂ (λ (a : Memory) (b : List Memory). a ∷ b) (here x y) (replace_absent x.id y after q))

any-snoc :
    (id : Uuid) (xs : List Memory) (y : Memory)
    → any (has_id id) xs ≡ false
    → has_id id y ≡ false
    → any (has_id id) (xs ++ y ∷ []) ≡ false
any-snoc id [] y p q = rw q
any-snoc id (x ∷ xs) y p q = let e = any-snoc id xs y in ground arith

absent_after :
    (x : Memory) (xs prefix : List Memory) (y : Memory)
    → y.id ≡ x.id
    → any (has_id x.id) xs ≡ false
    → All (λ z. any (has_id z.id) prefix ≡ false) xs
    → All (λ z. any (has_id z.id) (prefix ++ y ∷ []) ≡ false) xs
absent_after x [] prefix y e p q = tt
absent_after x (z ∷ zs) prefix y e p q =
    (any-snoc z.id prefix y q.0 (ground arith), absent_after x zs prefix y e (ground arith) q.1)

module _ (now : ℕ) (where_ : Memory → Bool) (set : Memory → Memory)
    (same_id : (m : Memory) → (set m).id ≡ m.id)
    (lets : (m : Memory) → where_ m ≡ true → in_place m (set m) ≡ true) where
  abbrev pub updated : Memory → Memory
  updated m = if where_ m then set m else m

  abbrev count_one : List Memory × ℕ → Result (List Memory × ℕ)
  count_one more = ok (more.0, 1 + more.1)

  abbrev rest_of : List Memory → List Memory × ℕ → Result (List Memory × ℕ)
  rest_of rest one = update_rows now set rest one.0 >>= λ more. ok (more.0, one.1 + more.1)

  step :
      (prefix : List Memory) (x : Memory) (xs : List Memory)
      → where_ x ≡ true
      → any (has_id x.id) xs ≡ false
      → any (has_id x.id) prefix ≡ false
      → update_row now x (set x) (prefix ++ x ∷ xs) ≡ ok (prefix ++ set x ∷ xs, 1)
  unfolding update_row
  step prefix x xs e p q =
      rw (lets x e) (ap (λ l. ok (l, 1)) (replace_here x (set x) prefix xs q p))

  update_rows-in_place :
      (prefix todo : List Memory)
      → IsKeyed todo
      → All (λ z. any (has_id z.id) prefix ≡ false) todo
      → update_rows now set (filter where_ todo) (prefix ++ todo)
        ≡ ok (prefix ++ map updated todo, length (filter where_ todo))
  unfolding update_rows update_row
  update_rows-in_place prefix [] k a = refl
  update_rows-in_place prefix (x ∷ xs) k a = elim (Bool-cases (where_ x)) [
    | inr e ↦ rw e (
        subst
          (λ l.
            update_rows now set (filter where_ xs) l
            ≡ ok (prefix ++ x ∷ map updated xs, length (filter where_ xs)))
          (append_assoc prefix (x ∷ []) xs)
          (update_rows-in_place (prefix ++ x ∷ []) xs k.1 (absent_after x xs prefix x refl k.0 a.1)
            ∙ ap (λ l. ok (l, length (filter where_ xs)))
                (append_assoc prefix (x ∷ []) (map updated xs))))
    | inl e ↦ rw e (
        ap (λ r. r >>= rest_of (filter where_ xs)) (step prefix x xs e k.0 a.0)
        ∙ ap (λ r. r >>= count_one)
            (subst
              (λ l.
                update_rows now set (filter where_ xs) l
                ≡ ok ((prefix ++ set x ∷ []) ++ map updated xs, length (filter where_ xs)))
              (append_assoc prefix (set x ∷ []) xs)
              (update_rows-in_place (prefix ++ set x ∷ []) xs k.1
                (absent_after x xs prefix (set x) (same_id x) k.0 a.1)))
        ∙ ap₂ (λ (l : List Memory) (n : ℕ). ok (l, n))
            (append_assoc prefix (set x ∷ []) (map updated xs)) (omega arith))
  ]

  -- An UPDATE of a table whose ids are distinct that keeps the ids, and that the trigger lets through on
  -- every matching row, rewrites the matching rows, counts them, and never
  -- raises.
  pub update_where-in_place :
      (table : List Memory)
      → IsKeyed table
      → update_where now where_ set table ≡ ok (map updated table, length (filter where_ table))
  unfolding update_where
  update_where-in_place table k = update_rows-in_place [] table k (nothing table)
    where
      nothing : (xs : List Memory) → All (λ z. false ≡ false) xs
      nothing [] = tt
      nothing (x ∷ xs) = (refl, nothing xs)
