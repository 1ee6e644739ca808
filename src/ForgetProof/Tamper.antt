-- ===== src/ForgetProof/Tamper.antt =====
-- What a root commits to. Every conclusion is "or a collision of sha256", so nothing is assumed of
-- the hash but that its digests have one length.
use mathlib.Core.List.{Permᴰ}
use mathlib.Core.List.Permᴰ
use z3rno_core.Prelude.{
  ℕ, zero, suc, ◌≡◌, ◌≢◌, refl, sym, ap, ◌∙◌, ◌⊎◌, inl, inr, List, [], ◌∷◌, ◌++◌, map, length,
  length-map, subst, All, arith, ℕ_discrete,
}
use z3rno_core.Prelude.Sort.{sort, sort-perm, length-sort}
use z3rno_core.Models.{Bytes}
use z3rno_core.ForgetProof.Hex.{bytes_le}
use z3rno_core.ForgetProof.Hex.Laws.{append-inj}
use z3rno_core.ForgetProof.Leaves.{Leaf, digest}
use z3rno_core.ForgetProof.Tree.{root, next_level, reduce, build_merkle_root, build_merkle_root_lem}

Bytes-discrete : Discrete Bytes
Bytes-discrete = hlevel ℕ_discrete

-- Two inputs with one digest.
pub Collision : (Bytes → Bytes) → Type 0
Collision sha256 = (a : Bytes) × (b : Bytes) × (a ≢ b) × (sha256 a ≡ sha256 b)

module _ (sha256 : Bytes → Bytes) where
  pub hash_inj : (a b : Bytes) → sha256 a ≡ sha256 b → (a ≡ b) ⊎ Collision sha256
  unfolding Collision
  hash_inj a b e = elim (Bytes-discrete a b) [ yes p ↦ inl p | no n ↦ inr (a, b, n, e) ]

module _ (sha256 : Bytes → Bytes) (n : ℕ) (fixed : (a : Bytes) → length (sha256 a) ≡ n) where
  length-next_level :
      (xs ys : List Bytes)
      → length xs ≡ length ys
      → length (next_level sha256 xs) ≡ length (next_level sha256 ys)
  unfolding next_level
  length-next_level [] [] l = refl
  length-next_level (x ∷ []) (y ∷ []) l = refl
  length-next_level (x ∷ x' ∷ xs) (y ∷ y' ∷ ys) l =
      omega (arith, length-next_level xs ys (omega arith))
  length-next_level xs ys l = absurd (omega arith)

  abbrev Uniform : List Bytes → Type 0
  Uniform = All (λ d. length d ≡ n)

  next_level-Uniform : (xs : List Bytes) → Uniform (next_level sha256 xs)
  unfolding next_level
  next_level-Uniform [] = tt
  next_level-Uniform (x ∷ []) = (fixed (x ++ x), tt)
  next_level-Uniform (x ∷ y ∷ r) = (fixed (x ++ y), next_level-Uniform r)

  pair-inj :
      (a b c d : Bytes)
      → length a ≡ n
      → length c ≡ n
      → sha256 (a ++ b) ≡ sha256 (c ++ d)
      → ((a ≡ c) × (b ≡ d)) ⊎ Collision sha256
  pair-inj a b c d p q e = elim (hash_inj sha256 (a ++ b) (c ++ d) e) [
    | inl same ↦ inl (append-inj a c (p ∙ sym q) same)
    | inr clash ↦ inr clash
  ]

  next_level-inj :
      (xs ys : List Bytes)
      → Uniform xs
      → Uniform ys
      → length xs ≡ length ys
      → next_level sha256 xs ≡ next_level sha256 ys
      → (xs ≡ ys) ⊎ Collision sha256
  unfolding next_level
  next_level-inj [] [] u v l e = inl refl
  next_level-inj (x ∷ []) (y ∷ []) u v l e = elim (pair-inj x x y y u.0 v.0 (cc)) [
    | inl same ↦ inl (cc (same.0))
    | inr clash ↦ inr clash
  ]
  next_level-inj (x ∷ x' ∷ xs) (y ∷ y' ∷ ys) u v l e = elim (pair-inj x x' y y' u.0 v.0 (cc)) [
    | inl same ↦ elim (next_level-inj xs ys u.1.1 v.1.1 (omega arith) (cc)) [
      | inl rest ↦ inl (cc (same.0, same.1, rest))
      | inr clash ↦ inr clash
    ]
    | inr clash ↦ inr clash
  ]
  next_level-inj xs ys u v l e = absurd (omega arith)

  reduce-inj :
      (fuel : ℕ) (xs ys : List Bytes) {r : Bytes}
      → Uniform xs
      → Uniform ys
      → length xs ≡ length ys
      → reduce sha256 fuel xs ≡ root r
      → reduce sha256 fuel ys ≡ root r
      → (xs ≡ ys) ⊎ Collision sha256
  unfolding reduce
  reduce-inj fuel [] [] u v l p q = inl refl
  reduce-inj fuel (x ∷ []) (y ∷ []) u v l p q = inl (cc)
  reduce-inj zero (x ∷ x' ∷ xs) (y ∷ y' ∷ ys) u v l p q = cc
  reduce-inj (suc fuel) (x ∷ x' ∷ xs) (y ∷ y' ∷ ys) u v l p q =
      elim (reduce-inj fuel (next_level sha256 (x ∷ x' ∷ xs)) (next_level sha256 (y ∷ y' ∷ ys))
        (next_level-Uniform (x ∷ x' ∷ xs)) (next_level-Uniform (y ∷ y' ∷ ys))
        (length-next_level (x ∷ x' ∷ xs) (y ∷ y' ∷ ys) l) p q) [
          | inl same ↦ next_level-inj (x ∷ x' ∷ xs) (y ∷ y' ∷ ys) u v l same
          | inr clash ↦ inr clash
        ]
  reduce-inj fuel xs ys u v l p q = absurd (omega arith)

  digests-Uniform : (xs : List Leaf) → Uniform (map (digest sha256) xs)
  unfolding digest
  digests-Uniform [] = tt
  digests-Uniform (x ∷ xs) = (fixed _, digests-Uniform xs)

  Uniform-perm : {xs ys : List Bytes} → Permᴰ xs ys → Uniform xs → Uniform ys
  Uniform-perm Permᴰ.nil u = tt
  Uniform-perm (Permᴰ.cons e p) u = (ap length (sym e) ∙ u.0, Uniform-perm p u.1)
  Uniform-perm (Permᴰ.swap e f) u = (ap length (sym f) ∙ u.1.0, (ap length (sym e) ∙ u.0, u.1.1))
  Uniform-perm (Permᴰ.trans p q) u = Uniform-perm q (Uniform-perm p u)

  -- Two certificates over equally many memories with one root have the same leaf digests, up to
  -- order, or exhibit two inputs that sha256 confuses.
  pub build_merkle_root-commits :
      (xs ys : List Leaf) {r : Bytes}
      → length xs ≡ length ys
      → build_merkle_root sha256 xs ≡ root r
      → build_merkle_root sha256 ys ≡ root r
      → Permᴰ (map (digest sha256) xs) (map (digest sha256) ys) ⊎ Collision sha256
  build_merkle_root-commits xs ys {r} l p q =
      let level_x : List Bytes = sort bytes_le (map (digest sha256) xs) in
      let level_y : List Bytes = sort bytes_le (map (digest sha256) ys) in
      let same_length : length level_x ≡ length level_y = omega (
        arith,
        length-sort bytes_le (map (digest sha256) xs),
        length-sort bytes_le (map (digest sha256) ys),
        length-map (digest sha256) xs,
        length-map (digest sha256) ys,
      ) in
      let sorted_x = sort-perm bytes_le (map (digest sha256) xs) in
      let sorted_y = sort-perm bytes_le (map (digest sha256) ys) in
      elim (reduce-inj (length level_x) level_x level_y
        (Uniform-perm (Permᴰ.symm sorted_x) (digests-Uniform xs))
        (Uniform-perm (Permᴰ.symm sorted_y) (digests-Uniform ys)) same_length
        (sym (build_merkle_root_lem sha256 xs) ∙ p)
        (rw same_length (sym (build_merkle_root_lem sha256 ys) ∙ q))) [
          | inl same ↦ inl (
              Permᴰ.trans (subst (λ l. Permᴰ (map (digest sha256) xs) l) same (Permᴰ.symm sorted_x))
                sorted_y)
          | inr clash ↦ inr clash
        ]
