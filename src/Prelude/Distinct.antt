-- ===== src/Prelude/Distinct.antt =====
-- Lists of which no two elements have one key.
use z3rno_core.Prelude.Tests.{Bool-cases, ◌==◌, ==_iff}
use z3rno_core.Prelude.Lists.{filter, any, take, drop, elem, In, All}
use z3rno_core.Prelude.Sort.{sort, insert}
use mathlib.Core.Path.{◌≡◌, refl, sym, ap, subst, ◌∙◌}
use mathlib.Core.Logic.{inl, inr}
use mathlib.Core.Bool.{Bool, true, false, ◌||◌}
use mathlib.Core.List.{List, [], ◌∷◌, map}
use native.Mathlib.Omega.{arith}
use Prim.Native.Nat.{ℕ, zero, suc}

module _ {A : Type 0} where
  pub any-filter : (p q : A → Bool) (xs : List A) → any q xs ≡ false → any q (filter p xs) ≡ false
  any-filter p q [] h = refl
  any-filter p q (x ∷ xs) h = let ih = any-filter p q xs in ground arith

  pub any-take : (n : ℕ) (q : A → Bool) (xs : List A) → any q xs ≡ false → any q (take n xs) ≡ false
  any-take zero q xs h = refl
  any-take (suc n) q [] h = refl
  any-take (suc n) q (x ∷ xs) h = let ih = any-take n q xs in ground arith

  any-insert :
      (le : A → A → Bool) (q : A → Bool) (x : A) (ys : List A)
      → any q (insert le x ys) ≡ (q x || any q ys)
  unfolding insert
  any-insert le q x [] = refl
  any-insert le q x (y ∷ ys) = let ih = any-insert le q x ys in ground arith

  pub any-sort : (le : A → A → Bool) (q : A → Bool) (xs : List A) → any q (sort le xs) ≡ any q xs
  unfolding sort
  any-sort le q [] = refl
  any-sort le q (x ∷ xs) = any-insert le q x (sort le xs) ∙ ap (λ b. q x || b) (any-sort le q xs)

module _ {A : Type 0} (key : A → ℕ) where
  abbrev pub AreDistinct : List A → Type 0
  AreDistinct [] = Unit
  AreDistinct (x ∷ xs) = (any (λ y. key y == key x) xs ≡ false) × AreDistinct xs

  pub filter-AreDistinct : (p : A → Bool) (xs : List A) → AreDistinct xs → AreDistinct (filter p xs)
  filter-AreDistinct p [] d = tt
  filter-AreDistinct p (x ∷ xs) d = elim (Bool-cases (p x)) [
    | inl e ↦ rw e (any-filter p (λ y. key y == key x) xs d.0, filter-AreDistinct p xs d.1)
    | inr e ↦ rw e (filter-AreDistinct p xs d.1)
  ]

  pub take-AreDistinct : (n : ℕ) (xs : List A) → AreDistinct xs → AreDistinct (take n xs)
  take-AreDistinct zero xs d = tt
  take-AreDistinct (suc n) [] d = tt
  take-AreDistinct (suc n) (x ∷ xs) d =
      (any-take n (λ y. key y == key x) xs d.0, take-AreDistinct n xs d.1)

  insert-AreDistinct :
      (le : A → A → Bool) (x : A) (ys : List A)
      → any (λ y. key y == key x) ys ≡ false
      → AreDistinct ys
      → AreDistinct (insert le x ys)
  unfolding insert
  insert-AreDistinct le x [] h d = (refl, tt)
  insert-AreDistinct le x (y ∷ ys) h d = elim (Bool-cases (le x y)) [
    | inl e ↦ rw e (h, d)
    | inr e ↦
        let other = any-insert le (λ z. key z == key y) x ys in
        let absent = d.0 in rw e (ground arith, insert-AreDistinct le x ys (ground arith) d.1)
  ]

  pub sort-AreDistinct :
      (le : A → A → Bool) (xs : List A) → AreDistinct xs → AreDistinct (sort le xs)
  unfolding sort
  sort-AreDistinct le [] d = tt
  sort-AreDistinct le (x ∷ xs) d =
      insert-AreDistinct le x (sort le xs) (any-sort le (λ y. key y == key x) xs ∙ d.0)
        (sort-AreDistinct le xs d.1)

  pub In-any : (x : A) (xs : List A) → In x xs → any (λ y. key y == key x) xs ≡ true
  In-any x [] i = elim i [ ]
  In-any x (y ∷ ys) (inl same) = let e = ap key same in ground arith
  In-any x (y ∷ ys) (inr later) = let ih = In-any x ys later in ground arith

  -- Elements of one key are one element.
  pub unique_key :
      (xs : List A) (x y : A) → AreDistinct xs → In x xs → In y xs → key x ≡ key y → x ≡ y
  unique_key [] x y d i j e = elim i [ ]
  unique_key (z ∷ zs) x y d (inl a) (inl b) e = a ∙ sym b
  unique_key (z ∷ zs) x y d (inl a) (inr j) e =
      let there = In-any y zs j in
      let k = ap key a in
      let absent = d.0 in
      absurd (cc (subst (λ n. any (λ w. key w == n) zs ≡ true) (sym e ∙ k) there, absent))
  unique_key (z ∷ zs) x y d (inr i) (inl b) e =
      let there = In-any x zs i in
      let k = ap key b in
      let absent = d.0 in
      absurd (cc (subst (λ n. any (λ w. key w == n) zs ≡ true) (e ∙ k) there, absent))
  unique_key (z ∷ zs) x y d (inr i) (inr j) e = unique_key zs x y d.1 i j e

  -- A key among those of a list is the key of an element.
  pub elem-map :
      (k : ℕ) (xs : List A) → elem k (map key xs) ≡ true → (x : A) × In x xs × (key x ≡ k)
  elem-map k [] h = cc h
  elem-map k (x ∷ xs) h = elim (Bool-cases (k == key x)) [
    | inl e ↦ (x, inl refl, sym ((==_iff k (key x)).0 e))
    | inr e ↦ (let (y, i, same) = elem-map k xs (rw e at h) in (y, inr i, same))
  ]

  -- The elements after the first `n` have other keys than those.
  pub take-drop-apart :
      (n : ℕ) (xs : List A)
      → AreDistinct xs
      → All (λ y. elem (key y) (map key (take n xs)) ≡ false) (drop n xs)
  take-drop-apart zero xs d = none_taken xs
    where
      none_taken : (ys : List A) → All (λ y. false ≡ false) ys
      none_taken [] = tt
      none_taken (y ∷ ys) = (refl, none_taken ys)
  take-drop-apart (suc n) [] d = tt
  take-drop-apart (suc n) (x ∷ xs) d =
      join (drop n xs) (take-drop-apart n xs d.1) (dropped n xs d.0)
    where
      dropped :
          (m : ℕ) (ys : List A)
          → any (λ y. key y == key x) ys ≡ false
          → any (λ y. key y == key x) (drop m ys) ≡ false
      dropped zero ys h = h
      dropped (suc m) [] h = refl
      dropped (suc m) (y ∷ ys) h = dropped m ys (let b = (key y == key x) in ground arith)

      join :
          (ys : List A)
          → All (λ y. elem (key y) (map key (take n xs)) ≡ false) ys
          → any (λ y. key y == key x) ys ≡ false
          → All (λ y. (key y == key x || elem (key y) (map key (take n xs))) ≡ false) ys
      join [] a h = tt
      join (y ∷ ys) a h =
          ((let f = a.0 in ground arith), join ys a.1 (let b = (key y == key x) in ground arith))

module _ {A : Type 0} where
  -- What a filter keeps is in the list, and passes its test.
  pub filter-In :
      (p : A → Bool) (xs all : List A)
      → ((x : A) → In x xs → In x all)
      → All (λ x. In x all × (p x ≡ true)) (filter p xs)
  filter-In p [] all inc = tt
  filter-In p (x ∷ xs) all inc = elim (Bool-cases (p x)) [
    | inl e ↦ rw e ((inc x (inl refl), e), filter-In p xs all (λ y i. inc y (inr i)))
    | inr e ↦ rw e (filter-In p xs all (λ y i. inc y (inr i)))
  ]
