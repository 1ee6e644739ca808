-- ===== src/Engine/Forget/Delete.antt =====
-- `forget` with its soft and its hard deletion, and the certificate that it issues.
use z3rno_core.Prelude.{
  ℕ, Bool, true, false, not, ◌&&◌, ◌||◌, String, Option, none, some, List, [], ◌∷◌, ◌++◌, map,
  filter, any, elem, length, is_none, if◌then◌else◌, ◌==◌,
}
use z3rno_core.Models.{Uuid, Bytes, AuditOperation}
use z3rno_core.Result.{Result, ok, forget_error, ◌>>=◌, refuse}
use z3rno_core.Memories.Table.{Memory, has_id}
use z3rno_core.Memories.Scd.{update_where}
use z3rno_core.Memories.Deleted.{mark_deleted}
use z3rno_core.ForgetProof.Leaves.{Hashes, build_leaves}
use z3rno_core.ForgetProof.Tree.{Outcome, root, build_merkle_root}
use z3rno_core.ForgetProof.Sign.{ForgetCertificate}
use z3rno_core.Audit.Tables.{distinct}
use z3rno_core.Engine.State.{State, Transaction, active, aborted, Context, Relationship, audited}
use z3rno_core.Engine.Forget.Related.{find_related_memories}

-- What the signing of a certificate needs: the digest of a text in hexadecimal, the hash of the
-- tree, the signature of a certificate, and what `uuid4()` and the clock give.
pub record Signer : Type 0 where
  pub hexdigest : String → Bytes
  pub sha256 : Bytes → Bytes
  pub sign : ForgetCertificate → Bytes
  pub key_id : Bytes
  pub cert_id : Uuid
  pub signed_at : ℕ

pub record Request : Type 0 where
  pub memory_id : Option Uuid
  pub memory_ids : List Uuid
  pub hard_delete : Bool
  pub cascade : Bool
  pub cascade_depth : ℕ
  pub signing_key : Option Signer

pub record ForgetResult : Type 0 where
  pub deleted_count : ℕ
  pub hard_deleted : Bool
  pub cascade_count : ℕ
  pub memory_ids : List Uuid
  pub cert_id : Option Uuid
  pub merkle_root : Bytes
  pub signer_key_id : Bytes

abbrev singleton : Option Uuid → List Uuid
singleton none = []
singleton (some u) = u ∷ []

-- The ids that the caller names.
abbrev pub named : Request → List Uuid
named r = singleton r.memory_id ++ r.memory_ids

abbrev pub cascaded : Uuid → Request → State → List Uuid
cascaded org r s =
    if r.cascade then find_related_memories org s.relationships (named r) r.cascade_depth else []

-- `list(set(targets))`, in one of its orders.
unfoldable pub targets : Uuid → Request → State → List Uuid
unfolding distinct
targets org r s = distinct [] (named r ++ cascaded org r s)

-- The rows that a soft deletion matches, and a hard one.
abbrev pub soft_matches : Uuid → List Uuid → Memory → Bool
soft_matches org ids m = (m.org_id == org) && (elem m.id ids && is_none m.deleted_at)

abbrev pub hard_matches : Uuid → List Uuid → Memory → Bool
hard_matches org ids m = (m.org_id == org) && elem m.id ids

abbrev pub linked : Uuid → List Uuid → Relationship → Bool
linked org ids r = (r.org_id == org) && (elem r.source_memory_id ids || elem r.target_memory_id ids)

-- At a row that is deleted: the foreign keys of the relationships are ON DELETE CASCADE, in every
-- organisation.
abbrev pub dangling : List Memory → Relationship → Bool
dangling gone r = any (has_id r.source_memory_id) gone || any (has_id r.target_memory_id) gone

abbrev pub severed : Uuid → List Uuid → List Memory → Relationship → Bool
severed org ids table r = linked org ids r || dangling (filter (hard_matches org ids) table) r

unfoldable pub soft_delete : Uuid → List Uuid → ℕ → State → Result (State × ℕ)
unfolding update_where mark_deleted
soft_delete org ids now s =
    update_where now (soft_matches org ids) (mark_deleted now) s.memories >>= λ done.
    ok (record s { memories = done.0 }, done.1)

-- `_hard_delete` without the AGE graph, whose deletion is best effort under a savepoint.
unfoldable pub hard_delete : Uuid → List Uuid → State → State × ℕ
hard_delete org ids s = (
  record s {
    relationships = filter (λ r. not (severed org ids s.memories r)) s.relationships;
    memories = filter (λ m. not (hard_matches org ids m)) s.memories;
  },
  length (filter (hard_matches org ids) s.memories),
)

-- The `for mid in targets` loop; `details` is the JSON text for each id.
unfoldable pub audit_each :
    Uuid → AuditOperation → (Uuid → String) → Context → ℕ → List Uuid → State → State
unfolding audited
audit_each org operation details c now [] s = s
audit_each org operation details c now (mid ∷ rest) s =
    audit_each org operation details c now rest
      (audited org operation (some mid) none (details mid) c now s)

unfoldable pub snapshot_content_hashes : Signer → Uuid → List Uuid → State → Hashes
snapshot_content_hashes k org ids s =
    map (λ m. (m.id, k.hexdigest m.content)) (filter (hard_matches org ids) s.memories)

abbrev or_default : Bytes → Bytes
or_default [] = b'd' ∷ b'e' ∷ b'f' ∷ b'a' ∷ b'u' ∷ b'l' ∷ b't' ∷ []
or_default (b ∷ bs) = b ∷ bs

-- The certificate that `_emit_forget_certificate` signs and inserts.
abbrev pub new_certificate :
    Signer → Uuid → Option Uuid → List Uuid → Bool → Bytes → ForgetCertificate
new_certificate k org agent ids hard merkle =
    let unsigned : ForgetCertificate = record {
      cert_id = k.cert_id;
      org_id = org;
      memory_ids = ids;
      merkle_root = merkle;
      signer_key_id = or_default k.key_id;
      signed_at = k.signed_at;
      hard_delete = hard;
      audit_seq_start = none;
      audit_seq_end = none;
      signature = [];
      agent_id = agent;
    } in
    record unsigned { signature = k.sign unsigned }

-- `forget` catches the exception of an INSERT that the primary key refuses, and sets no savepoint.
unfoldable pub insert_certificate : ForgetCertificate → State → Transaction × (Option Uuid × Bytes)
insert_certificate cert s =
    if any (λ c. c.cert_id == cert.cert_id) s.certificates then (aborted, (none, [])) else (
      active (record s { certificates = s.certificates ++ cert ∷ [] }),
      (some cert.cert_id, cert.merkle_root),
    )

abbrev pub with_root :
    Signer
    → Uuid
    → Option Uuid
    → List Uuid
    → Bool
    → State
    → Outcome
    → Transaction × (Option Uuid × Bytes)
with_root k org agent ids hard s (root r) =
    insert_certificate (new_certificate k org agent ids hard r) s
with_root k org agent ids hard s _ = (active s, (none, []))

-- `_emit_forget_certificate` under its `try`. Without a key nothing is emitted.
unfoldable pub emit_forget_certificate :
    Option Signer
    → Uuid
    → Option Uuid
    → List Uuid
    → Hashes
    → Bool
    → State
    → Transaction × (Option Uuid × Bytes)
unfolding insert_certificate build_leaves build_merkle_root
emit_forget_certificate none org agent ids hashes hard s = (active s, (none, []))
emit_forget_certificate (some k) org agent ids hashes hard s =
    with_root k org agent ids hard s
      (build_merkle_root k.sha256 (build_leaves ids (some hashes) none))

-- The snapshot is taken where there is a key to sign with.
abbrev pub content_hashes : Option Signer → Uuid → List Uuid → State → Hashes
content_hashes none org ids s = []
content_hashes (some k) org ids s = snapshot_content_hashes k org ids s

abbrev key_id_of : Option Signer → Option Uuid → Bytes
key_id_of (some k) (some c) = k.key_id
key_id_of _ _ = []

abbrev pub operation_of : Bool → AuditOperation
operation_of hard = if hard then AuditOperation.gdpr_delete else AuditOperation.forget

abbrev pub delete : Uuid → Bool → List Uuid → ℕ → State → Result (State × ℕ)
delete org hard ids now s = if hard then ok (hard_delete org ids s) else soft_delete org ids now s

-- What `forget` does once the rows are deleted. `hashes` was taken before.
unfoldable pub after_delete :
    (Uuid → String)
    → Uuid
    → Request
    → Context
    → ℕ
    → State
    → Hashes
    → State × ℕ
    → Transaction × ForgetResult
unfolding targets distinct audit_each emit_forget_certificate
after_delete details org r c now before hashes (s, deleted) =
    let ids = targets org r before in
    let audited_state = audit_each org (operation_of r.hard_delete) details c now ids s in
    let emitted =
      emit_forget_certificate r.signing_key org c.agent_id ids hashes r.hard_delete audited_state in
    (
      emitted.0,
      record {
        deleted_count = deleted;
        hard_deleted = r.hard_delete;
        cascade_count = length (distinct [] (cascaded org r before));
        memory_ids = ids;
        cert_id = emitted.1.0;
        merkle_root = emitted.1.1;
        signer_key_id = key_id_of r.signing_key emitted.1.0;
      },
    )

abbrev pub is_empty : List Uuid → Bool
is_empty [] = true
is_empty (u ∷ us) = false

unfoldable pub forget :
    (Uuid → String) → Uuid → Request → Context → ℕ → State → Result (Transaction × ForgetResult)
unfolding targets snapshot_content_hashes soft_delete hard_delete after_delete
forget details org r c now s = refuse (is_empty (named r)) forget_error >>= λ _.
    (let hashes = content_hashes r.signing_key org (targets org r s) s in
      delete org r.hard_delete (targets org r s) now s >>= λ done.
      ok (after_delete details org r c now s hashes done))
