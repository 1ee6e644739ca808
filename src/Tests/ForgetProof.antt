-- ===== src/Tests/ForgetProof.antt =====
-- forget_proof/certificate.py at small certificates, with a toy hash.
use mathlib.Core.List.{Permᴰ}
use z3rno_core.Prelude.{
  ℕ, ◌+◌, ◌%◌, ◌^◌, ◌<◌, ◌++◌, ◌&&◌, ◌≡◌, ◌≢◌, refl, Bool, true, false, none, List, [], ◌∷◌, arith,
  ◌⊎◌, inl, inr, In, ◌==◌,
}
use z3rno_core.Models.{Bytes}
use z3rno_core.ForgetProof.Leaves.{Leaf}
use z3rno_core.ForgetProof.Tree.{
  root, build_merkle_root, build_merkle_root-total, build_merkle_root-perm,
  build_merkle_root-padding,
}
use z3rno_core.ForgetProof.Tamper.{Collision}
use z3rno_core.ForgetProof.Coverage.{IsLeaf, build_merkle_root-covers}
use z3rno_core.ForgetProof.Sign.{
  ForgetCertificate, Body, SignatureScheme, sign_certificate, verify_certificate,
  verify-sign_certificate,
}

abbrev pub sum : Bytes → ℕ
sum [] = 1
sum (b ∷ bs) = b + sum bs

abbrev pub toy_hash : Bytes → Bytes
toy_hash bs = (sum bs % 251) ∷ []

abbrev pub s_eq : Bytes → Bytes → Bool
s_eq [] [] = true
s_eq [] (y ∷ ys) = false
s_eq (x ∷ xs) [] = false
s_eq (x ∷ xs) (y ∷ ys) = x == y && s_eq xs ys

pub s_eq_refl : (m : Bytes) → s_eq m m ≡ true
s_eq_refl [] = refl
s_eq_refl (x ∷ xs) = let e = s_eq_refl xs in ground arith

abbrev leaf : ℕ → Leaf
leaf n = record { memory_id = n; content_hash = b'a' ∷ n ∷ []; audit_entry_hash = [] }

abbrev abc : List Leaf
abc = leaf 1 ∷ leaf 2 ∷ leaf 3 ∷ []

abbrev cba : List Leaf
cba = leaf 3 ∷ leaf 2 ∷ leaf 1 ∷ []

root_abc : build_merkle_root toy_hash abc ≡ root (140 ∷ [])
unfolding build_merkle_root
root_abc = refl

root_cba : build_merkle_root toy_hash cba ≡ root (140 ∷ [])
unfolding build_merkle_root
root_cba = refl

leaf-IsLeaf : (n : ℕ) → n < 16 ^ 32 → n ≢ b':' → IsLeaf (leaf n)
leaf-IsLeaf n fits other = record {
  id_fits = fits;
  no_colon = (omega arith, (other, tt));
  content_given = λ e. cc;
  audit_given = λ e. cc;
}

build_merkle_root-total_example : (r : Bytes) × (build_merkle_root toy_hash abc ≡ root r)
build_merkle_root-total_example = build_merkle_root-total toy_hash abc (λ e. cc)

build_merkle_root-perm_example :
    build_merkle_root toy_hash (leaf 1 ∷ leaf 2 ∷ [])
    ≡ build_merkle_root toy_hash (leaf 2 ∷ leaf 1 ∷ [])
build_merkle_root-perm_example =
    build_merkle_root-perm toy_hash (Permᴰ.swap {a = leaf 1} {b = leaf 2} {l = []} refl refl)

build_merkle_root-covers_example : In (leaf 2) cba ⊎ Collision toy_hash
build_merkle_root-covers_example =
    build_merkle_root-covers toy_hash 1 (λ a. refl) abc cba (140 ∷ []) (leaf 2)
      (
        leaf-IsLeaf 1 (omega arith) (omega arith),
        (
          leaf-IsLeaf 2 (omega arith) (omega arith),
          (leaf-IsLeaf 3 (omega arith) (omega arith), tt),
        ),
      )
      (
        leaf-IsLeaf 3 (omega arith) (omega arith),
        (
          leaf-IsLeaf 2 (omega arith) (omega arith),
          (leaf-IsLeaf 1 (omega arith) (omega arith), tt),
        ),
      )
      refl root_abc root_cba (inr (inl refl))

build_merkle_root-padding_example :
    build_merkle_root toy_hash (leaf 1 ∷ leaf 1 ∷ leaf 1 ∷ [])
    ≡ build_merkle_root toy_hash (leaf 1 ∷ leaf 1 ∷ leaf 1 ∷ leaf 1 ∷ [])
unfolding build_merkle_root
build_merkle_root-padding_example =
    build_merkle_root-padding toy_hash (leaf 1) (leaf 1) (leaf 1) refl refl

-- A signature that is the signed text itself.
abbrev pub echo : SignatureScheme
echo = record {
  PrivateKey = Unit {0};
  PublicKey = Unit {0};
  public_key = λ k. tt;
  sign = λ k m. m;
  verify = λ k s m. s_eq s m;
  verify-sign = λ k m. s_eq_refl m;
}

abbrev certificate : ForgetCertificate
certificate = record {
  cert_id = 1;
  org_id = 7;
  memory_ids = 1 ∷ 2 ∷ [];
  merkle_root = 140 ∷ [];
  signer_key_id = [];
  signed_at = 5;
  hard_delete = true;
  audit_seq_start = none;
  audit_seq_end = none;
  signature = [];
  agent_id = none;
}

abbrev pub dumps : Body → Bytes
dumps b = b.cert_id ++ b.merkle_root

verify-sign_certificate_example :
    verify_certificate echo dumps
      (record certificate {
        memory_ids = 2 ∷ 1 ∷ [];
        signature = sign_certificate echo dumps certificate tt;
      })
      tt
    ≡ true
verify-sign_certificate_example =
    verify-sign_certificate echo dumps certificate (2 ∷ 1 ∷ []) tt (Permᴰ.swap refl refl)
