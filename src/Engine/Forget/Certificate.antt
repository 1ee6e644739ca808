-- ===== src/Engine/Forget/Certificate.antt =====
-- The certificate of a `forget` with a signing key.
use z3rno_core.Prelude.{
  ℕ, ◌≡◌, refl, sym, ap, ap₂, ◌∙◌, subst, Bool, true, false, ◌&&◌, String, Option, none, some, List,
  [], ◌∷◌, ◌++◌, map, filter, any, elem, head?, length, ◌==◌, ==_iff, ==_refl, Bool-cases, inl, inr,
  arith,
}
use z3rno_core.Models.{Uuid, Bytes}
use z3rno_core.Result.{ok}
use z3rno_core.Memories.Table.{Memory, has_id}
use z3rno_core.Memories.InPlace.{IsKeyed}
use z3rno_core.Memories.Deleted.{deleted_where}
use z3rno_core.ForgetProof.Leaves.{Leaf, Hashes, get_hash, build_leaves}
use z3rno_core.ForgetProof.Tree.{root, build_merkle_root, build_merkle_root-total}
use z3rno_core.ForgetProof.Sign.{
  ForgetCertificate, Body, SignatureScheme, sign_certificate, verify_certificate, canonical_payload,
  body,
}
use z3rno_core.Engine.State.{State, active, Context}
use z3rno_core.Engine.Forget.Delete.{
  Signer, Request, ForgetResult, named, targets, soft_matches, hard_matches, hard_delete, delete,
  operation_of, snapshot_content_hashes, content_hashes, audit_each, new_certificate,
  insert_certificate, emit_forget_certificate, after_delete, forget,
}
use z3rno_core.Engine.Forget.After.{audit_each_lem, forget_of_delete, some_target}
use z3rno_core.Engine.Forget.Outcome.{soft_delete_lem}

-- The digest of what a row holds, and nothing where there is no row.
abbrev pub digest_of : Signer → Option Memory → Bytes
digest_of k none = []
digest_of k (some m) = k.hexdigest m.content

-- The leaf for a memory: its id, with the digest of the content of its row in the organisation.
abbrev pub leaf_for : Signer → Uuid → List Memory → Uuid → Leaf
leaf_for k org table id = record {
  memory_id = id;
  content_hash = digest_of k (head? (filter (λ m. (m.org_id == org) && has_id id m) table));
  audit_entry_hash = [];
}

get_hash-snapshot :
    (k : Signer) (org : Uuid) (ids : List Uuid) (id : Uuid) (table : List Memory)
    → elem id ids ≡ true
    → get_hash id (map (λ m. (m.id, k.hexdigest m.content)) (filter (hard_matches org ids) table))
      ≡ digest_of k (head? (filter (λ m. (m.org_id == org) && has_id id m) table))
unfolding get_hash
get_hash-snapshot k org ids id [] h = refl
get_hash-snapshot k org ids id (m ∷ ms) h =
    let ih = get_hash-snapshot k org ids id ms h in
    elim (Bool-cases (m.org_id == org)) [
      | inr other ↦ rw other ih
      | inl own ↦ elim (Bool-cases (m.id == id)) [
        | inl same ↦
            let here : elem m.id ids ≡ true =
              subst (λ z. elem z ids ≡ true) (sym ((==_iff m.id id).0 same)) h in
            rw (own, here, same)
        | inr different ↦ elim (Bool-cases (elem m.id ids)) [
          | inl among ↦ rw (own, among, different) ih
          | inr out ↦ rw (own, out, different) ih
        ]
      ]
    ]

build_leaves-snapshot :
    (k : Signer) (org : Uuid) (s : State) (ids rest : List Uuid)
    → ((v : Uuid) → elem v rest ≡ true → elem v ids ≡ true)
    → build_leaves rest (some (snapshot_content_hashes k org ids s)) none
      ≡ map (leaf_for k org s.memories) rest
unfolding build_leaves snapshot_content_hashes get_hash
build_leaves-snapshot k org s ids [] inc = refl
build_leaves-snapshot k org s ids (v ∷ vs) inc =
    let here = get_hash-snapshot k org ids v s.memories (inc v (rw (==_refl v))) in
    let ih =
      build_leaves-snapshot k org s ids vs (λ w h. inc w (let b = (w == v) in ground arith)) in
    ap₂
      (λ (h : Bytes) (l : List Leaf).
        let leaf : Leaf = record { memory_id = v; content_hash = h; audit_entry_hash = [] } in
        leaf ∷ l)
      here ih

-- The call after the deletion, under a fresh certificate id and a root for its leaves.
after_delete-certificate :
    (details : Uuid → String) (org : Uuid) (r : Request) (c : Context) (now : ℕ) (before : State)
    (hashes : Hashes) (s : State) (n : ℕ) (k : Signer) (merkle : Bytes)
    → r.signing_key ≡ some k
    → any (λ x. x.cert_id == k.cert_id) s.certificates ≡ false
    → build_merkle_root k.sha256 (build_leaves (targets org r before) (some hashes) none)
      ≡ root merkle
    → (s' : State) × ((after_delete details org r c now before hashes (s, n)).0 ≡ active s')
      × (s'.certificates
          ≡ s.certificates
            ++ new_certificate k org c.agent_id (targets org r before) r.hard_delete merkle ∷ [])
      × ((after_delete details org r c now before hashes (s, n)).1.cert_id ≡ some k.cert_id)
      × ((after_delete details org r c now before hashes (s, n)).1.merkle_root ≡ merkle)
unfolding after_delete emit_forget_certificate insert_certificate
after_delete-certificate details org r c now before hashes s n k merkle keyed fresh e =
    let ids = targets org r before in
    let s1 = audit_each org (operation_of r.hard_delete) details c now ids s in
    let (m, rel, kept, v) = audit_each_lem org (operation_of r.hard_delete) details c now ids s in
    let cert = new_certificate k org c.agent_id ids r.hard_delete merkle in
    let s' : State = record s1 { certificates = s1.certificates ++ cert ∷ [] } in
    let free : any (λ x. x.cert_id == k.cert_id) s1.certificates ≡ false =
      ap (any (λ x. x.cert_id == k.cert_id)) kept ∙ fresh in
    let signed : emit_forget_certificate (some k) org c.agent_id ids hashes r.hard_delete s1
        ≡ (active s', (some k.cert_id, merkle)) =
      rw (e, free) in
    let emitted =
      ap (λ key. emit_forget_certificate key org c.agent_id ids hashes r.hard_delete s1) keyed
      ∙ signed in
    (
      s',
      ap (λ x. x.0) emitted,
      ap (λ l. l ++ cert ∷ []) kept,
      ap (λ x. x.1.0) emitted,
      ap (λ x. x.1.1) emitted,
    )

-- Either deletion returns, and keeps the certificates.
delete-certificates :
    (org : Uuid) (ids : List Uuid) (now : ℕ) (s : State) (hard : Bool)
    → IsKeyed s.memories
    → (s1 : State) × (n : ℕ) × (delete org hard ids now s ≡ ok (s1, n))
      × (s1.certificates ≡ s.certificates)
unfolding hard_delete
delete-certificates org ids now s true keyed =
    ((hard_delete org ids s).0, (hard_delete org ids s).1, refl, refl)
delete-certificates org ids now s false keyed = (
  record s { memories = map (deleted_where now (soft_matches org ids)) s.memories },
  length (filter (soft_matches org ids) s.memories),
  soft_delete_lem org ids now s keyed,
  refl,
)

module _ (scheme : SignatureScheme) (dumps : Body → Bytes) where
  open scheme use {PrivateKey, PublicKey, public_key, sign, verify, verify-sign}

  -- A soft or hard `forget` that names a memory, with a signing key whose certificate id is fresh and on
  -- a table whose ids are distinct, returns and adds exactly one certificate. It is of the organisation
  -- and the kind of deletion, it lists the targets, and it verifies under the signer's public key. Its
  -- Merkle root is over one leaf for each target, with the digest of the content that the organisation's
  -- row of that id had before the call, and nothing where it had no such row. The result has the
  -- certificate's id and root.
  pub forget-certificate :
      (key : PrivateKey) (k : Signer) (details : Uuid → String) (org : Uuid) (r : Request)
      (c : Context) (now : ℕ) (s : State) (u : Uuid) (us : List Uuid)
      → IsKeyed s.memories
      → named r ≡ u ∷ us
      → r.signing_key ≡ some k
      → k.sign ≡ (λ cert. sign_certificate scheme dumps cert key)
      → any (λ x. x.cert_id == k.cert_id) s.certificates ≡ false
      → (s' : State) × (result : ForgetResult) × (cert : ForgetCertificate) × (forget details org r
            c now s
          ≡ ok (active s', result))
        × (s'.certificates ≡ s.certificates ++ cert ∷ [])
        × (cert.org_id ≡ org)
        × (cert.hard_delete ≡ r.hard_delete)
        × (cert.memory_ids ≡ targets org r s)
        × (build_merkle_root k.sha256 (map (leaf_for k org s.memories) (targets org r s))
            ≡ root cert.merkle_root)
        × (verify_certificate scheme dumps cert (public_key key) ≡ true)
        × (result.cert_id ≡ some cert.cert_id)
        × (result.merkle_root ≡ cert.merkle_root)
  unfolding verify_certificate sign_certificate canonical_payload body
  forget-certificate key k details org r c now s u us keyed given signer signs fresh =
      let ids = targets org r s in
      let hashes = snapshot_content_hashes k org ids s in
      let (v, vs, some_id) = some_target org r s u us given in
      let leaves = map (leaf_for k org s.memories) ids in
      let (merkle, e) = build_merkle_root-total k.sha256 leaves (λ h. cc (some_id, h)) in
      let (s1, n, deleted, kept) = delete-certificates org ids now s r.hard_delete keyed in
      let (s', t, certs, id, m) =
        after_delete-certificate details org r c now s hashes s1 n k merkle signer
          (ap (any (λ x. x.cert_id == k.cert_id)) kept ∙ fresh)
          (ap (build_merkle_root k.sha256) (build_leaves-snapshot k org s ids ids (λ w h. h))
            ∙ e) in
      (
        s',
        (after_delete details org r c now s hashes (s1, n)).1,
        new_certificate k org c.agent_id ids r.hard_delete merkle,
        forget_of_delete details org r c now s u us (s1, n) given deleted
            ∙ ap
                (λ key.
                  ok (after_delete details org r c now s (content_hashes key org ids s) (s1, n)))
                signer
            ∙ ap (λ x. ok (x, (after_delete details org r c now s hashes (s1, n)).1)) t,
        certs ∙ ap (λ l. l ++ new_certificate k org c.agent_id ids r.hard_delete merkle ∷ []) kept,
        refl,
        refl,
        refl,
        e,
        subst
            (λ f.
              verify_certificate scheme dumps
                (new_certificate (record k { sign = f }) org c.agent_id ids r.hard_delete merkle)
                (public_key key)
              ≡ true)
            (sym signs) (verify-sign key _),
        id,
        m,
      )
