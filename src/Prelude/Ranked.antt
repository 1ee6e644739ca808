-- ===== src/Prelude/Ranked.antt =====
-- Counts of the rows of a list, and of those that `ORDER BY … LIMIT n` leaves over.
use z3rno_core.Prelude.Tests.{Bool-cases, ◌==◌, ==_refl}
use z3rno_core.Prelude.Lists.{
  filter, filter-append, take, drop, take-append-drop, elem, length, length-append, length-drop, In,
  All,
}
use z3rno_core.Prelude.Filter.{filter_of_All, All-In, IsSorted-take-drop}
use z3rno_core.Prelude.Sort.{sort, insert, IsSorted}
use z3rno_core.Prelude.Distinct.{AreDistinct, take-drop-apart}
use mathlib.Core.Path.{◌≡◌, refl, sym, ap, subst, ◌∙◌}
use mathlib.Core.Logic.{◌⊎◌, inl, inr}
use mathlib.Core.Bool.{Bool, true, false, not, ◌&&◌}
use mathlib.Core.List.{List, [], ◌∷◌, ◌++◌, map}
use native.Mathlib.Omega.{arith}
use Prim.Native.Nat.{ℕ, ◌+◌, ◌-◌}

module _ {A : Type 0} where
  abbrev pub count : (A → Bool) → List A → ℕ
  count p js = length (filter p js)

  pub count-filter :
      (p q : A → Bool) (js : List A) → count p (filter q js) ≡ count (λ j. q j && p j) js
  count-filter p q [] = refl
  count-filter p q (j ∷ js) = let ih = count-filter p q js in ground arith

  count_none : (p : A → Bool) (js : List A) → All (λ j. p j ≡ false) js → count p js ≡ 0
  count_none p [] a = refl
  count_none p (j ∷ js) a = rw a.0 (count_none p js a.1)

  count_every : (p : A → Bool) (js : List A) → All (λ j. p j ≡ true) js → count p js ≡ length js
  count_every p js a = ap length (filter_of_All p js a)

  -- What stands in a list stands in it filtered and sorted.
  pub In-filter : (p : A → Bool) (xs : List A) (x : A) → In x xs → p x ≡ true → In x (filter p xs)
  In-filter p [] x i h = i
  In-filter p (y ∷ ys) x (inl same) h =
      let e : p y ≡ true = subst (λ z. p z ≡ true) same h in rw e (inl same)
  In-filter p (y ∷ ys) x (inr later) h = elim (Bool-cases (p y)) [
    | inl e ↦ rw e (inr (In-filter p ys x later h))
    | inr e ↦ rw e (In-filter p ys x later h)
  ]

  In-insert :
      (le : A → A → Bool) (y : A) (ys : List A) (x : A) → In x (y ∷ ys) → In x (insert le y ys)
  unfolding insert
  In-insert le y [] x i = i
  In-insert le y (z ∷ zs) x i = elim (Bool-cases (le y z)) [
    | inl e ↦ rw e i
    | inr e ↦ rw e (past i (In-insert le y zs x))
  ]
    where
      past :
          In x (y ∷ (z ∷ zs)) → (In x (y ∷ zs) → In x (insert le y zs)) → In x (z ∷ insert le y zs)
      past (inl same) ih = inr (ih (inl same))
      past (inr (inl same)) ih = inl same
      past (inr (inr later)) ih = inr (ih (inr later))

  pub In-sort : (le : A → A → Bool) (xs : List A) (x : A) → In x xs → In x (sort le xs)
  unfolding sort
  In-sort le [] x i = i
  In-sort le (y ∷ ys) x (inl same) = In-insert le y (sort le ys) x (inl same)
  In-sort le (y ∷ ys) x (inr later) = In-insert le y (sort le ys) x (inr (In-sort le ys x later))

  In-append : (xs ys : List A) (x : A) → In x (xs ++ ys) → In x xs ⊎ In x ys
  In-append [] ys x i = inr i
  In-append (z ∷ zs) ys x (inl same) = inl (inl same)
  In-append (z ∷ zs) ys x (inr later) = elim (In-append zs ys x later) [
    | inl i ↦ inl (inr i)
    | inr i ↦ inr i
  ]

  -- What stands in a sorted list is among its first `n`, or not below any of them.
  pub In-IsSorted :
      (le : A → A → Bool) (n : ℕ) (xs : List A) (x : A)
      → IsSorted le xs
      → In x xs
      → In x (take n xs) ⊎ All (λ y. le y x ≡ true) (take n xs)
  In-IsSorted le n xs x sorted i =
      elim (In-append (take n xs) (drop n xs) x (subst (In x) (sym (take-append-drop n xs)) i)) [
        | inl first ↦ inl first
        | inr later ↦ inr (each (take n xs) later (IsSorted-take-drop le n xs sorted))
      ]
    where
      each :
          (ys : List A)
          → In x (drop n xs)
          → All (λ y. All (λ z. le y z ≡ true) (drop n xs)) ys
          → All (λ y. le y x ≡ true) ys
      each [] later a = tt
      each (y ∷ ys) later a =
          (All-In (λ z. le y z ≡ true) (drop n xs) x a.0 later, each ys later a.1)

module _ {A : Type 0} (key : A → ℕ) where
  own : (js : List A) → All (λ j. not (elem (key j) (map key js)) ≡ false) js
  own js = inside js (λ u h. h)
    where
      inside :
          (ks : List A)
          → ((u : ℕ) → elem u (map key ks) ≡ true → elem u (map key js) ≡ true)
          → All (λ j. not (elem (key j) (map key js)) ≡ false) ks
      inside [] inc = tt
      inside (k ∷ ks) inc =
          let here = inc (key k) (rw (==_refl (key k))) in
          (rw here, inside ks (λ u h. inc u (let b = (u == key k) in ground arith)))

  pub In-key : (x : A) (xs : List A) → In x xs → elem (key x) (map key xs) ≡ true
  In-key x [] i = elim i [ ]
  In-key x (y ∷ ys) (inl same) =
      subst (λ z. elem (key z) (map key (y ∷ ys)) ≡ true) (sym same) (rw (==_refl (key y)))
  In-key x (y ∷ ys) (inr later) =
      let ih = In-key x ys later in let b = (key x == key y) in ground arith

  -- Of ranked rows with distinct keys, the first `limit` are picked and the others are not.
  pub left_over :
      (limit : ℕ) (ranked : List A)
      → AreDistinct key ranked
      → count (λ j. not (elem (key j) (map key (take limit ranked)))) ranked ≡ length ranked - limit
  left_over limit ranked d =
      let out = λ (j : A). not (elem (key j) (map key (take limit ranked))) in
      ap (count out) (sym (take-append-drop limit ranked))
      ∙ ap length (filter-append out (take limit ranked) (drop limit ranked))
      ∙ length-append (filter out (take limit ranked)) (filter out (drop limit ranked))
      ∙ ap (λ n. n + count out (drop limit ranked))
          (count_none out (take limit ranked) (own (take limit ranked)))
      ∙ ap (λ n. 0 + n)
          (count_every out (drop limit ranked)
              (apart (drop limit ranked) (take-drop-apart key limit ranked d))
            ∙ length-drop limit ranked)
      ∙ omega arith
    where
      apart :
          (js : List A)
          → All (λ j. elem (key j) (map key (take limit ranked)) ≡ false) js
          → All (λ j. not (elem (key j) (map key (take limit ranked))) ≡ true) js
      apart [] a = tt
      apart (j ∷ js) a = (rw a.0, apart js a.1)
