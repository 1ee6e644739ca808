-- ===== src/Prelude/Filter.antt =====
-- What `filter`, `take` and `drop` keep of `All` and `IsSorted`.
use z3rno_core.Prelude.Tests.{Bool-cases}
use z3rno_core.Prelude.Lists.{filter, take, drop, All, In}
use z3rno_core.Prelude.Sort.{IsSorted}
use mathlib.Core.Path.{◌≡◌, refl, sym, ap, subst}
use mathlib.Core.Logic.{inl, inr}
use mathlib.Core.Bool.{Bool, true, false, ◌&&◌}
use mathlib.Core.List.{List, [], ◌∷◌, ◌++◌}
use native.Mathlib.Omega.{arith}
use Prim.Native.Nat.{ℕ, zero, suc}

module _ {A : Type 0} where
  pub All-mono : (P Q : A → Type 0) (xs : List A) → ((x : A) → P x → Q x) → All P xs → All Q xs
  All-mono P Q [] f h = tt
  All-mono P Q (x ∷ xs) f h = (f x h.0, All-mono P Q xs f h.1)

  pub All-filter : (P : A → Type 0) (p : A → Bool) (xs : List A) → All P xs → All P (filter p xs)
  All-filter P p [] h = tt
  All-filter P p (x ∷ xs) h = elim (Bool-cases (p x)) [
    | inl e ↦ rw e (h.0, All-filter P p xs h.1)
    | inr e ↦ rw e (All-filter P p xs h.1)
  ]

  -- What a filter keeps passes its test.
  pub filter-All : (p : A → Bool) (xs : List A) → All (λ x. p x ≡ true) (filter p xs)
  filter-All p [] = tt
  filter-All p (x ∷ xs) = elim (Bool-cases (p x)) [
    | inl e ↦ rw e (e, filter-All p xs)
    | inr e ↦ rw e (filter-All p xs)
  ]

  pub filter_of_All : (p : A → Bool) (xs : List A) → All (λ x. p x ≡ true) xs → filter p xs ≡ xs
  filter_of_All p [] h = refl
  filter_of_All p (x ∷ xs) h = rw h.0 (ap (◌∷◌ x) (filter_of_All p xs h.1))

  pub filter_of_none : (p : A → Bool) (xs : List A) → All (λ x. p x ≡ false) xs → filter p xs ≡ []
  filter_of_none p [] h = refl
  filter_of_none p (x ∷ xs) h = rw h.0 (filter_of_none p xs h.1)

  pub filter_comm : (p q : A → Bool) (xs : List A) → filter p (filter q xs) ≡ filter q (filter p xs)
  filter_comm p q [] = refl
  filter_comm p q (x ∷ xs) = ground (arith, filter_comm p q xs)

  -- `WHERE p AND q` is the rows of `WHERE p` with `q`.
  pub filter-and :
      (p q : A → Bool) (xs : List A) → filter (λ x. p x && q x) xs ≡ filter q (filter p xs)
  filter-and p q [] = refl
  filter-and p q (x ∷ xs) = elim (Bool-cases (p x)) [
    | inl e ↦ rw (e, filter-and p q xs)
    | inr e ↦ rw (e, filter-and p q xs)
  ]

  pub All-take : (P : A → Type 0) (n : ℕ) (xs : List A) → All P xs → All P (take n xs)
  All-take P zero xs h = tt
  All-take P (suc n) [] h = tt
  All-take P (suc n) (x ∷ xs) h = (h.0, All-take P n xs h.1)

  pub All-drop : (P : A → Type 0) (n : ℕ) (xs : List A) → All P xs → All P (drop n xs)
  All-drop P zero xs h = h
  All-drop P (suc n) [] h = tt
  All-drop P (suc n) (x ∷ xs) h = All-drop P n xs h.1

  pub IsSorted-filter :
      (le : A → A → Bool) (p : A → Bool) (xs : List A) → IsSorted le xs → IsSorted le (filter p xs)
  IsSorted-filter le p [] h = tt
  IsSorted-filter le p (x ∷ xs) h = elim (Bool-cases (p x)) [
    | inl e ↦ rw e (All-filter (λ y. le x y ≡ true) p xs h.0, IsSorted-filter le p xs h.1)
    | inr e ↦ rw e (IsSorted-filter le p xs h.1)
  ]

  pub IsSorted-mono :
      (le le' : A → A → Bool) (xs : List A)
      → ((x y : A) → le x y ≡ true → le' x y ≡ true)
      → IsSorted le xs
      → IsSorted le' xs
  IsSorted-mono le le' [] f h = tt
  IsSorted-mono le le' (x ∷ xs) f h = (
    All-mono (λ y. le x y ≡ true) (λ y. le' x y ≡ true) xs (f x) h.0,
    IsSorted-mono le le' xs f h.1,
  )

  pub IsSorted-take :
      (le : A → A → Bool) (n : ℕ) (xs : List A) → IsSorted le xs → IsSorted le (take n xs)
  IsSorted-take le zero xs h = tt
  IsSorted-take le (suc n) [] h = tt
  IsSorted-take le (suc n) (x ∷ xs) h =
      (All-take (λ y. le x y ≡ true) n xs h.0, IsSorted-take le n xs h.1)

  -- In a sorted list the first `n` are below the rest.
  pub IsSorted-take-drop :
      (le : A → A → Bool) (n : ℕ) (xs : List A)
      → IsSorted le xs
      → All (λ x. All (λ y. le x y ≡ true) (drop n xs)) (take n xs)
  IsSorted-take-drop le zero xs h = tt
  IsSorted-take-drop le (suc n) [] h = tt
  IsSorted-take-drop le (suc n) (x ∷ xs) h =
      (All-drop (λ y. le x y ≡ true) n xs h.0, IsSorted-take-drop le n xs h.1)

  pub IsSorted-append :
      (le : A → A → Bool) (xs ys : List A)
      → IsSorted le xs
      → IsSorted le ys
      → All (λ x. All (λ y. le x y ≡ true) ys) xs
      → IsSorted le (xs ++ ys)
  IsSorted-append le [] ys h k c = k
  IsSorted-append le (x ∷ xs) ys h k c = (join xs h.0 c.0, IsSorted-append le xs ys h.1 k c.1)
    where
      join :
          (zs : List A)
          → All (λ y. le x y ≡ true) zs
          → All (λ y. le x y ≡ true) ys
          → All (λ y. le x y ≡ true) (zs ++ ys)
      join [] u v = v
      join (z ∷ zs) u v = (u.0, join zs u.1 v)

  pub All-In : (P : A → Type 0) (xs : List A) (a : A) → All P xs → In a xs → P a
  All-In P [] a h m = elim m [ ]
  All-In P (x ∷ xs) a h (inl e) = subst P (sym e) h.0
  All-In P (x ∷ xs) a h (inr m) = All-In P xs a h.1 m

  pub All-and : (P Q : A → Type 0) (xs : List A) → All P xs → All Q xs → All (λ x. P x × Q x) xs
  All-and P Q [] h k = tt
  All-and P Q (x ∷ xs) h k = ((h.0, k.0), All-and P Q xs h.1 k.1)
