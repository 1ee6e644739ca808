-- ===== src/ForgetProof/Tree.antt =====
-- `build_merkle_root`: its definition, and what its result depends on.
use mathlib.Core.List.{Permᴰ}
use z3rno_core.Prelude.{
  ℕ, zero, suc, ◌≤◌, ◌<◌, ◌≡◌, ◌≢◌, true, refl, sym, Bool-cases, inl, inr, ap, ◌∙◌, List, [], ◌∷◌,
  ◌++◌, map, length, arith,
}
use z3rno_core.Prelude.Sort.{sort, sort-eq_of_perm, length-sort, sort_of_IsSorted}
use z3rno_core.Models.{Bytes}
use z3rno_core.ForgetProof.Hex.{bytes_le, bytes_le-IsLinear}
use z3rno_core.ForgetProof.Leaves.{Leaf, digest}

-- `out_of_fuel` is the model's own.
pub data Outcome : Type 0 where
  root : Bytes → Outcome
  value_error : Outcome
  out_of_fuel : Outcome

bytes_le_refl : (d : Bytes) → bytes_le d d ≡ true
bytes_le_refl d = elim (Bool-cases (bytes_le d d)) [
  | inl e ↦ e
  | inr e ↦ bytes_le-IsLinear.total d d e
]

module _ (sha256 : Bytes → Bytes) where
  -- The body of the `while`: neighbours are hashed together, an odd last node with itself.
  unfoldable pub next_level : List Bytes → List Bytes
  next_level [] = []
  next_level (left ∷ []) = sha256 (left ++ left) ∷ []
  next_level (left ∷ right ∷ rest) = sha256 (left ++ right) ∷ next_level rest

  -- `while len(level) > 1`, then `level[0]`.
  unfoldable pub reduce : ℕ → List Bytes → Outcome
  unfolding next_level
  reduce fuel [] = value_error
  reduce fuel (x ∷ []) = root x
  reduce zero (x ∷ y ∷ rest) = out_of_fuel
  reduce (suc fuel) (x ∷ y ∷ rest) = reduce fuel (next_level (x ∷ y ∷ rest))

  unfoldable pub build_merkle_root : List Leaf → Outcome
  unfolding reduce sort digest bytes_le
  build_merkle_root [] = value_error
  build_merkle_root (leaf ∷ leaves) =
      let level = sort bytes_le (map (digest sha256) (leaf ∷ leaves)) in reduce (length level) level

  next_level-shrinks :
      (x y : Bytes) (r : List Bytes) → length (next_level (x ∷ y ∷ r)) < length (x ∷ y ∷ r)
  unfolding next_level
  next_level-shrinks x y [] = omega arith
  next_level-shrinks x y (z ∷ []) = omega arith
  next_level-shrinks x y (z ∷ w ∷ r) = omega (arith, next_level-shrinks z w r)

  reduce_total :
      (fuel : ℕ) (level : List Bytes)
      → length level ≤ fuel
      → 0 < length level
      → (r : Bytes) × (reduce fuel level ≡ root r)
  unfolding reduce
  reduce_total fuel [] h k = absurd (omega arith)
  reduce_total fuel (x ∷ []) h k = (x, refl)
  reduce_total zero (x ∷ y ∷ r) h k = absurd (omega arith)
  reduce_total (suc fuel) (x ∷ y ∷ r) h k =
      reduce_total fuel (next_level (x ∷ y ∷ r)) (omega (arith, next_level-shrinks x y r))
        (omega arith)

  -- Every non-empty list of leaves has a root.
  pub build_merkle_root-total :
      (leaves : List Leaf) → leaves ≢ [] → (r : Bytes) × (build_merkle_root leaves ≡ root r)
  unfolding build_merkle_root
  build_merkle_root-total [] h = absurd (h refl)
  build_merkle_root-total (leaf ∷ leaves) h =
      let level : List Bytes = sort bytes_le (map (digest sha256) (leaf ∷ leaves)) in
      reduce_total (length level) level (omega arith)
        (omega (arith, length-sort bytes_le (map (digest sha256) (leaf ∷ leaves))))

  map-digest_perm :
      {xs ys : List Leaf} → Permᴰ xs ys → Permᴰ (map (digest sha256) xs) (map (digest sha256) ys)
  map-digest_perm Permᴰ.nil = Permᴰ.nil
  map-digest_perm (Permᴰ.cons e p) = Permᴰ.cons (ap (digest sha256) e) (map-digest_perm p)
  map-digest_perm (Permᴰ.swap e f) = Permᴰ.swap (ap (digest sha256) e) (ap (digest sha256) f)
  map-digest_perm (Permᴰ.trans p q) = Permᴰ.trans (map-digest_perm p) (map-digest_perm q)

  pub build_merkle_root_lem :
      (xs : List Leaf)
      → build_merkle_root xs
        ≡ reduce
            (length (sort bytes_le (map (digest sha256) xs)))
            (sort bytes_le (map (digest sha256) xs))
  unfolding build_merkle_root
  build_merkle_root_lem [] = refl
  build_merkle_root_lem (x ∷ xs) = refl

  -- The root does not depend on the order in which the leaves are given.
  pub build_merkle_root-perm :
      {xs ys : List Leaf} → Permᴰ xs ys → build_merkle_root xs ≡ build_merkle_root ys
  build_merkle_root-perm {xs} {ys} p =
      let e = sort-eq_of_perm bytes_le bytes_le-IsLinear (map-digest_perm p) in
      rw (build_merkle_root_lem xs, build_merkle_root_lem ys, e)

  -- The padding of an odd level shows: three leaves in the order of their digests, and the same
  -- three with the last one twice, have one root.
  pub build_merkle_root-padding :
      (a b c : Leaf)
      → bytes_le (digest sha256 a) (digest sha256 b) ≡ true
      → bytes_le (digest sha256 b) (digest sha256 c) ≡ true
      → build_merkle_root (a ∷ b ∷ c ∷ []) ≡ build_merkle_root (a ∷ b ∷ c ∷ c ∷ [])
  unfolding reduce
  build_merkle_root-padding a b c p q =
      let ac = bytes_le-IsLinear.trans _ _ _ p q in
      build_merkle_root_lem (a ∷ b ∷ c ∷ [])
      ∙ ap (λ l. reduce (length l) l)
          (sort_of_IsSorted bytes_le (map (digest sha256) (a ∷ b ∷ c ∷ []))
            ((p, (ac, tt)), ((q, tt), (tt, tt))))
      ∙ sym (
          build_merkle_root_lem (a ∷ b ∷ c ∷ c ∷ [])
          ∙ ap (λ l. reduce (length l) l)
              (sort_of_IsSorted bytes_le (map (digest sha256) (a ∷ b ∷ c ∷ c ∷ [])) (
                (p, (ac, (ac, tt))),
                ((q, (q, tt)), ((bytes_le_refl (digest sha256 c), tt), (tt, tt))),
              )))
