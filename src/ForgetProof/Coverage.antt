-- ===== src/ForgetProof/Coverage.antt =====
-- From the digests of the leaves to the memories: what a certificate's root says was forgotten.
use mathlib.Core.List.{Permᴰ}
use z3rno_core.Prelude.{
  ℕ, ◌^◌, ◌<◌, ◌≡◌, ◌≢◌, refl, sym, ap, ◌∙◌, ◌⊎◌, inl, inr, List, [], ◌∷◌, ◌++◌, map, length, All,
  In, subst, arith,
}
use z3rno_core.Prelude.Filter.{All-In}
use z3rno_core.Models.{Bytes}
use z3rno_core.ForgetProof.Hex.{uuid_str}
use z3rno_core.ForgetProof.Hex.Laws.{append-inj, length-uuid_str, uuid_str-inj}
use z3rno_core.ForgetProof.Leaves.{Leaf, or_dash, digest}
use z3rno_core.ForgetProof.Tree.{root, build_merkle_root}
use z3rno_core.ForgetProof.Tamper.{Collision, hash_inj, build_merkle_root-commits}

-- The leaves that the code builds: 128-bit identifiers, and hashes that hold no colon and are not
-- the placeholder.
pub record IsLeaf (l : Leaf) : Type 0 where
  pub id_fits : l.memory_id < 16 ^ 32
  pub no_colon : All (λ c. c ≢ b':') l.content_hash
  pub content_given : l.content_hash ≢ b'-' ∷ []
  pub audit_given : l.audit_entry_hash ≢ b'-' ∷ []

or_dash-inj : (a b : Bytes) → a ≢ b'-' ∷ [] → b ≢ b'-' ∷ [] → or_dash a ≡ or_dash b → a ≡ b
unfolding or_dash
or_dash-inj [] [] p q e = refl
or_dash-inj [] (y ∷ b) p q e = absurd (q (sym e))
or_dash-inj (x ∷ a) [] p q e = absurd (p e)
or_dash-inj (x ∷ a) (y ∷ b) p q e = e

or_dash-no_colon : (a : Bytes) → All (λ c. c ≢ b':') a → All (λ c. c ≢ b':') (or_dash a)
unfolding or_dash
or_dash-no_colon [] h = (omega arith, tt)
or_dash-no_colon (x ∷ a) h = h

-- Up to its first colon a text is determined.
colon-inj :
    (a b : Bytes) {c d : Bytes}
    → All (λ x. x ≢ b':') a
    → All (λ x. x ≢ b':') b
    → a ++ b':' ∷ c ≡ b ++ b':' ∷ d
    → (a ≡ b) × (c ≡ d)
colon-inj [] [] p q e = (refl, cc)
colon-inj [] (y ∷ b) p q e = absurd (q.0 (cc))
colon-inj (x ∷ a) [] p q e = absurd (p.0 (cc))
colon-inj (x ∷ a) (y ∷ b) {c} {d} p q e =
    let (same, rest) = colon-inj a b {c = c} {d = d} p.1 q.1 (cc) in (cc, rest)

tail_eq : {x y : ℕ} {a b : Bytes} → ◌≡◌ {A = Bytes} (x ∷ a) (y ∷ b) → a ≡ b
tail_eq e = cc

Leaf-eq :
    {a b : Leaf}
    → a.memory_id ≡ b.memory_id
    → a.content_hash ≡ b.content_hash
    → a.audit_entry_hash ≡ b.audit_entry_hash
    → a ≡ b
Leaf-eq p q r = λ i. record { memory_id = p i; content_hash = q i; audit_entry_hash = r i }

module _ (sha256 : Bytes → Bytes) where
  digest-inj :
      (a b : Leaf)
      → IsLeaf a
      → IsLeaf b
      → digest sha256 a ≡ digest sha256 b
      → (a ≡ b) ⊎ Collision sha256
  unfolding digest
  digest-inj a b p q e = elim (hash_inj sha256 _ _ e) [
    | inr clash ↦ inr clash
    | inl same ↦
        let (ids, rest) =
          append-inj (uuid_str a.memory_id) (uuid_str b.memory_id)
            (length-uuid_str a.memory_id ∙ sym (length-uuid_str b.memory_id)) same in
        let (contents, audits) =
          colon-inj (or_dash a.content_hash) (or_dash b.content_hash)
            (or_dash-no_colon a.content_hash p.no_colon)
            (or_dash-no_colon b.content_hash q.no_colon) (tail_eq rest) in
        inl (
          Leaf-eq {a = a} {b = b} (uuid_str-inj a.memory_id b.memory_id p.id_fits q.id_fits ids)
            (or_dash-inj a.content_hash b.content_hash p.content_given q.content_given contents)
            (or_dash-inj a.audit_entry_hash b.audit_entry_hash p.audit_given q.audit_given audits))
  ]

  In-map-digest :
      (a : Leaf) (xs : List Leaf) → In a xs → In (digest sha256 a) (map (digest sha256) xs)
  In-map-digest a [] m = elim m [ ]
  In-map-digest a (x ∷ xs) (inl e) = inl (ap (digest sha256) e)
  In-map-digest a (x ∷ xs) (inr m) = inr (In-map-digest a xs m)

  In-map_inv :
      (d : Bytes) (xs : List Leaf)
      → In d (map (digest sha256) xs)
      → (b : Leaf) × In b xs × (d ≡ digest sha256 b)
  In-map_inv d [] m = elim m [ ]
  In-map_inv d (x ∷ xs) (inl e) = (x, inl refl, e)
  In-map_inv d (x ∷ xs) (inr m) = let (b, there, e) = In-map_inv d xs m in (b, inr there, e)

In-perm : {xs ys : List Bytes} (d : Bytes) → Permᴰ xs ys → In d xs → In d ys
In-perm d Permᴰ.nil m = elim m [ ]
In-perm d (Permᴰ.cons e p) (inl m) = inl (m ∙ e)
In-perm d (Permᴰ.cons e p) (inr m) = inr (In-perm d p m)
In-perm d (Permᴰ.swap e f) (inl m) = inr (inl (m ∙ e))
In-perm d (Permᴰ.swap e f) (inr (inl m)) = inl (m ∙ f)
In-perm d (Permᴰ.swap e f) (inr (inr m)) = inr (inr m)
In-perm d (Permᴰ.trans p q) m = In-perm d q (In-perm d p m)

-- If two certificates have one root and equally many leaves, each memory with its hashes that the
-- one covers is covered by the other, or sha256 has a collision.
pub build_merkle_root-covers :
    (sha256 : Bytes → Bytes) (n : ℕ)
    → ((a : Bytes) → length (sha256 a) ≡ n)
    → (xs ys : List Leaf) (r : Bytes) (leaf : Leaf) → All IsLeaf xs
    → All IsLeaf ys
    → length xs ≡ length ys
    → build_merkle_root sha256 xs ≡ root r
    → build_merkle_root sha256 ys ≡ root r
    → In leaf xs
    → In leaf ys ⊎ Collision sha256
build_merkle_root-covers sha256 n fixed xs ys r leaf wx wy l p q m =
    elim (build_merkle_root-commits sha256 n fixed xs ys l p q) [
      | inr clash ↦ inr clash
      | inl perm ↦
          let (b, there, same) =
            In-map_inv sha256 (digest sha256 leaf) ys
              (In-perm (digest sha256 leaf) perm (In-map-digest sha256 leaf xs m)) in
          elim (digest-inj sha256 leaf b (All-In IsLeaf xs leaf wx m) (All-In IsLeaf ys b wy there)
            same) [ inl e ↦ inl (subst (λ z. In z ys) (sym e) there) | inr clash ↦ inr clash ]
    ]
