-- ===== src/Prelude/Sort.antt =====
-- A stable sort by a Boolean order: Python's `sorted` and SQL's `ORDER BY`.
use mathlib.Core.List.{Permᴰ}
use mathlib.Core.List.Permᴰ
use mathlib.Core.Path.{◌≡◌, refl, sym, ap, ap₂, ◌∙◌}
use mathlib.Core.Bool.{Bool, true, false}
use mathlib.Core.List.{List, [], ◌∷◌}
use native.Mathlib.Omega.{arith}
use mathlib.Core.Logic.{inl, inr}
use z3rno_core.Prelude.Tests.{if◌then◌else◌, Bool-cases}
use z3rno_core.Prelude.Lists.{length, filter, All}
use Prim.Native.Nat.{suc}

module _ {ℓ} {A : Type ℓ} (le : A → A → Bool) where
  unfoldable pub insert : A → List A → List A
  insert x [] = x ∷ []
  insert x (y ∷ ys) = let rest = insert x ys in if le x y then x ∷ y ∷ ys else y ∷ rest

  unfoldable pub sort : List A → List A
  unfolding insert
  sort [] = []
  sort (x ∷ xs) = insert x (sort xs)

  -- Each element is below all that come after it.
  abbrev pub IsSorted : List A → Type 0
  IsSorted [] = Unit
  IsSorted (x ∷ xs) = All (λ y. le x y ≡ true) xs × IsSorted xs

  length-insert : (x : A) (ys : List A) → length (insert x ys) ≡ suc (length ys)
  unfolding insert
  length-insert x [] = refl
  length-insert x (y ∷ ys) = ground (arith, length-insert x ys)

  pub length-sort : (xs : List A) → length (sort xs) ≡ length xs
  unfolding sort
  length-sort [] = refl
  length-sort (x ∷ xs) = length-insert x (sort xs) ∙ ap suc (length-sort xs)

  insert-perm : (x : A) (ys : List A) → Permᴰ (insert x ys) (x ∷ ys)
  unfolding insert
  insert-perm x [] = Permᴰ.refl (x ∷ [])
  insert-perm x (y ∷ ys) =
      elim (le x y) as (λ b. Permᴰ (if b then x ∷ y ∷ ys else y ∷ insert x ys) (x ∷ y ∷ ys)) [
        | true ↦ Permᴰ.refl (x ∷ y ∷ ys)
        | false ↦ Permᴰ.trans (Permᴰ.cons refl (insert-perm x ys)) (Permᴰ.swap refl refl)
      ]

  pub sort-perm : (xs : List A) → Permᴰ (sort xs) xs
  unfolding sort
  sort-perm [] = Permᴰ.nil
  sort-perm (x ∷ xs) = Permᴰ.trans (insert-perm x (sort xs)) (Permᴰ.cons refl (sort-perm xs))

  All-insert : (P : A → Type 0) (x : A) (xs : List A) → P x → All P xs → All P (insert x xs)
  unfolding insert
  All-insert P x [] p a = (p, tt)
  All-insert P x (y ∷ ys) p a =
      elim (le x y) as (λ b. All P (if b then x ∷ y ∷ ys else y ∷ insert x ys)) [
        | true ↦ (p, a)
        | false ↦ (a.0, All-insert P x ys p a.1)
      ]

  pub All-sort : (P : A → Type 0) (xs : List A) → All P xs → All P (sort xs)
  unfolding sort
  All-sort P [] a = tt
  All-sort P (x ∷ xs) a = All-insert P x (sort xs) a.0 (All-sort P xs a.1)

  insert_first : (x : A) (ys : List A) → All (λ y. le x y ≡ true) ys → insert x ys ≡ x ∷ ys
  unfolding insert
  insert_first x [] h = refl
  insert_first x (y ∷ ys) h = ground arith

  -- What is sorted already is left as it is.
  pub sort_of_IsSorted : (xs : List A) → IsSorted xs → sort xs ≡ xs
  unfolding sort
  sort_of_IsSorted [] h = refl
  sort_of_IsSorted (x ∷ xs) h = ap (insert x) (sort_of_IsSorted xs h.1) ∙ insert_first x xs h.0

module _ {ℓ} {A : Type ℓ} (le : A → A → Bool) where
  -- How many of the elements pass a test does not depend on their order.
  length-filter-insert :
      (p : A → Bool) (x : A) (ys : List A)
      → length (filter p (insert le x ys)) ≡ length (filter p (x ∷ ys))
  unfolding insert
  length-filter-insert p x [] = refl
  length-filter-insert p x (y ∷ ys) = ground (arith, length-filter-insert p x ys)

  pub length-filter-sort :
      (p : A → Bool) (xs : List A) → length (filter p (sort le xs)) ≡ length (filter p xs)
  unfolding sort
  length-filter-sort p [] = refl
  length-filter-sort p (x ∷ xs) =
      length-filter-insert p x (sort le xs) ∙ (let ih = length-filter-sort p xs in ground arith)

module _ {A : Type 0} (le : A → A → Bool) (total : (x y : A) → le x y ≡ false → le y x ≡ true)
    (trans : (x y z : A) → le x y ≡ true → le y z ≡ true → le x z ≡ true) where
  below_all :
      (x y : A) (zs : List A)
      → le x y ≡ true
      → All (λ z. le y z ≡ true) zs
      → All (λ z. le x z ≡ true) zs
  below_all x y [] e a = tt
  below_all x y (z ∷ zs) e a = (trans x y z e a.0, below_all x y zs e a.1)

  insert-IsSorted : (x : A) (ys : List A) → IsSorted le ys → IsSorted le (insert le x ys)
  unfolding insert
  insert-IsSorted x [] s = (tt, tt)
  insert-IsSorted x (y ∷ ys) s = elim (Bool-cases (le x y)) [
    | inl e ↦ rw e ((e, below_all x y ys e s.0), s)
    | inr e ↦
        rw e (All-insert le (λ z. le y z ≡ true) x ys (total x y e) s.0, insert-IsSorted x ys s.1)
  ]

  pub sort-IsSorted : (xs : List A) → IsSorted le (sort le xs)
  unfolding sort
  sort-IsSorted [] = tt
  sort-IsSorted (x ∷ xs) = insert-IsSorted x (sort le xs) (sort-IsSorted xs)

  filter-insert :
      (p : A → Bool) (x : A) (ys : List A)
      → IsSorted le ys
      → filter p (insert le x ys) ≡ (if p x then insert le x (filter p ys) else filter p ys)
  unfolding insert
  filter-insert p x [] s = refl
  filter-insert p x (y ∷ ys) s = elim (Bool-cases (le x y)) [
    | inr e ↦ (let ih = filter-insert p x ys s.1 in ground arith)
    | inl e ↦ elim (Bool-cases (p x)) [
      | inr f ↦ rw (e, f)
      | inl f ↦
          rw (e, f) (sym (insert_first le x (filter p (y ∷ ys)) (All-filter_below x y ys e s.0)))
    ]
  ]
    where
      All-filter_below :
          (x y : A) (ys : List A)
          → le x y ≡ true
          → All (λ z. le y z ≡ true) ys
          → All (λ z. le x z ≡ true) (filter p (y ∷ ys))
      All-filter_below x y ys e a = kept (y ∷ ys) (e, below_all x y ys e a)
        where
          kept :
              (zs : List A) → All (λ z. le x z ≡ true) zs → All (λ z. le x z ≡ true) (filter p zs)
          kept [] b = tt
          kept (z ∷ zs) b = elim (Bool-cases (p z)) [
            | inl g ↦ rw g (b.0, kept zs b.1)
            | inr g ↦ rw g (kept zs b.1)
          ]

  -- Sorting what a filter keeps, or filtering what is sorted.
  pub filter-sort : (p : A → Bool) (xs : List A) → filter p (sort le xs) ≡ sort le (filter p xs)
  unfolding sort
  filter-sort p [] = refl
  filter-sort p (x ∷ xs) =
      filter-insert p x (sort le xs) (sort-IsSorted xs)
      ∙ ap (λ l. if p x then insert le x l else l) (filter-sort p xs)
      ∙ (elim (Bool-cases (p x)) [ inl e ↦ rw e | inr e ↦ rw e ])

-- The order that `ORDER BY` and `sorted` need of their key.
pub record IsLinear {ℓ} {A : Type ℓ} (le : A → A → Bool) : Type ℓ where
  pub total : (x y : A) → le x y ≡ false → le y x ≡ true
  pub trans : (x y z : A) → le x y ≡ true → le y z ≡ true → le x z ≡ true
  pub antisym : (x y : A) → le x y ≡ true → le y x ≡ true → x ≡ y

module _ {ℓ} {A : Type ℓ} (le : A → A → Bool) (lin : IsLinear le) where
  insert_comm :
      (x y : A) (zs : List A) → insert le x (insert le y zs) ≡ insert le y (insert le x zs)
  unfolding insert
  insert_comm x y [] = ground (arith, lin.total x y, lin.total y x, lin.antisym x y)
  insert_comm x y (z ∷ zs) = ground (
    arith,
    lin.total x y,
    lin.antisym x y,
    lin.total x z,
    lin.total y z,
    lin.trans x y z,
    lin.trans y x z,
    lin.total y x,
    insert_comm x y zs,
  )

  -- Two arrangements of the same elements sort to the same list.
  pub sort-eq_of_perm : {xs ys : List A} → Permᴰ xs ys → sort le xs ≡ sort le ys
  unfolding sort
  sort-eq_of_perm Permᴰ.nil = refl
  sort-eq_of_perm (Permᴰ.cons {b = b} {l₁ = l₁} e p) =
      ap (λ a. insert le a (sort le l₁)) e ∙ ap (insert le b) (sort-eq_of_perm p)
  sort-eq_of_perm (Permᴰ.swap {a = a} {b = b} {a' = a'} {b' = b'} {l = l} e f) =
      insert_comm a b (sort le l) ∙ ap₂ (λ u v. insert le u (insert le v (sort le l))) f e
  sort-eq_of_perm (Permᴰ.trans p q) = sort-eq_of_perm p ∙ sort-eq_of_perm q
