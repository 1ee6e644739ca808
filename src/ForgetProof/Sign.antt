-- ===== src/ForgetProof/Sign.antt =====
-- `ForgetCertificate`, the body that is signed, `sign_certificate` and `verify_certificate`.
use mathlib.Core.List.{Permᴰ}
use z3rno_core.Prelude.{ℕ, ◌≡◌, ap, ◌∙◌, Bool, true, Option, List, map}
use z3rno_core.Prelude.Sort.{sort, sort-eq_of_perm}
use z3rno_core.Models.{Bytes, Uuid}
use z3rno_core.ForgetProof.Hex.{uuid_str, bytes_le, bytes_le-IsLinear}

pub record ForgetCertificate : Type 0 where
  pub cert_id : Uuid
  pub org_id : Uuid
  pub memory_ids : List Uuid
  pub merkle_root : Bytes
  pub signer_key_id : Bytes
  pub signed_at : ℕ
  pub hard_delete : Bool
  pub audit_seq_start : Option ℕ
  pub audit_seq_end : Option ℕ
  pub signature : Bytes
  pub agent_id : Option Uuid

-- The dict `body`; its JSON text is a parameter of `canonical_payload`.
pub record Body : Type 0 where
  pub cert_id : Bytes
  pub org_id : Bytes
  pub memory_ids : List Bytes
  pub merkle_root : Bytes
  pub signer_key_id : Bytes
  pub signed_at : ℕ
  pub hard_delete : Bool
  pub audit_seq_start : Option ℕ
  pub audit_seq_end : Option ℕ

unfoldable pub body : ForgetCertificate → Body
unfolding uuid_str
body cert = record {
  cert_id = uuid_str cert.cert_id;
  org_id = uuid_str cert.org_id;
  memory_ids = sort bytes_le (map uuid_str cert.memory_ids);
  merkle_root = cert.merkle_root;
  signer_key_id = cert.signer_key_id;
  signed_at = cert.signed_at;
  hard_delete = cert.hard_delete;
  audit_seq_start = cert.audit_seq_start;
  audit_seq_end = cert.audit_seq_end;
}

-- An ed25519 library: a key pair's two halves, and that what one half signs the other accepts.
pub record SignatureScheme : Type 1 where
  pub PrivateKey : Type 0
  pub PublicKey : Type 0
  pub public_key : PrivateKey → PublicKey
  pub sign : PrivateKey → Bytes → Bytes
  pub verify : PublicKey → Bytes → Bytes → Bool
  pub verify-sign : (k : PrivateKey) (m : Bytes) → verify (public_key k) (sign k m) m ≡ true

module _ (scheme : SignatureScheme) (dumps : Body → Bytes) where
  open scheme use {PrivateKey, PublicKey, public_key, sign, verify, verify-sign}

  unfoldable pub canonical_payload : ForgetCertificate → Bytes
  unfolding body
  canonical_payload cert = dumps (body cert)

  unfoldable pub sign_certificate : ForgetCertificate → PrivateKey → Bytes
  unfolding canonical_payload
  sign_certificate cert signing_key = sign signing_key (canonical_payload cert)

  unfoldable pub verify_certificate : ForgetCertificate → PublicKey → Bool
  unfolding canonical_payload
  verify_certificate cert verifying_key =
      verify verifying_key cert.signature (canonical_payload cert)

map-uuid_str_perm : {xs ys : List Uuid} → Permᴰ xs ys → Permᴰ (map uuid_str xs) (map uuid_str ys)
map-uuid_str_perm Permᴰ.nil = Permᴰ.nil
map-uuid_str_perm (Permᴰ.cons e p) = Permᴰ.cons (ap uuid_str e) (map-uuid_str_perm p)
map-uuid_str_perm (Permᴰ.swap e f) = Permᴰ.swap (ap uuid_str e) (ap uuid_str f)
map-uuid_str_perm (Permᴰ.trans p q) = Permᴰ.trans (map-uuid_str_perm p) (map-uuid_str_perm q)

-- A certificate that carries its own signature verifies under the signer's public key, also when
-- it lists its memories in another order than the signer did.
pub verify-sign_certificate :
    (scheme : SignatureScheme) (dumps : Body → Bytes) (cert : ForgetCertificate)
    (listed : List Uuid) (key : scheme.PrivateKey)
    → Permᴰ listed cert.memory_ids
    → verify_certificate scheme dumps
        (record cert { memory_ids = listed; signature = sign_certificate scheme dumps cert key })
        (scheme.public_key key)
      ≡ true
unfolding verify_certificate sign_certificate canonical_payload body
verify-sign_certificate scheme dumps cert listed key p =
    let e = sort-eq_of_perm bytes_le bytes_le-IsLinear (map-uuid_str_perm p) in
    ap
      (λ ms.
        scheme.verify (scheme.public_key key) (scheme.sign key (dumps (body cert)))
          (dumps (record (body cert) { memory_ids = ms })))
      e
    ∙ scheme.verify-sign key (dumps (body cert))
