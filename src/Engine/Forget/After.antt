-- ===== src/Engine/Forget/After.antt =====
-- The part of `forget` after the deletion: auditing and the emission of a certificate.
use z3rno_core.Prelude.{
  ℕ, ◌≡◌, refl, sym, ap, ◌∙◌, subst, Bool, true, false, String, Option, none, some, List, [], ◌∷◌,
  ◌++◌, map, any, ◌==◌, Bool-cases, inl, inr, append_assoc, append-nil, if◌then◌else◌,
}
use z3rno_core.Models.{Uuid, AuditOperation}
use z3rno_core.Result.{ok, forget_error, ◌>>=◌, refuse}
use z3rno_core.ForgetProof.Leaves.{Hashes, build_leaves}
use z3rno_core.ForgetProof.Tree.{build_merkle_root-total}
use z3rno_core.ForgetProof.Sign.{ForgetCertificate}
use z3rno_core.Audit.Tables
use z3rno_core.Audit.Tables.{Event, distinct, enqueue_audit_entry}
use z3rno_core.Engine.State.{State, Transaction, active, aborted, commit, Context, audited}
use z3rno_core.Engine.Forget.Delete.{
  Signer, Request, named, targets, audit_each, insert_certificate, emit_forget_certificate,
  new_certificate, cascaded, content_hashes, operation_of, after_delete, forget, delete, is_empty,
}

abbrev pub events : State → List Event
events s = map (λ p. p.event) s.audit.pending

-- The event of one target.
abbrev pub event_of : Uuid → AuditOperation → (Uuid → String) → Context → Uuid → Event
event_of org operation details c mid = record {
  org_id = org;
  agent_id = c.agent_id;
  user_id = c.user_id;
  operation = operation;
  memory_id = some mid;
  memory_type = none;
  details = details mid;
  api_key_id = c.api_key_id;
  ip_address = c.ip_address;
  user_agent = c.user_agent;
  request_id = c.request_id;
}

map-append : {A B : Type 0} (f : A → B) (xs ys : List A) → map f (xs ++ ys) ≡ map f xs ++ map f ys
map-append f [] ys = refl
map-append f (x ∷ xs) ys = ap (◌∷◌ (f x)) (map-append f xs ys)

-- Auditing leaves the rest of the state alone and enqueues one event for each target, in order.
pub audit_each_lem :
    (org : Uuid) (operation : AuditOperation) (details : Uuid → String) (c : Context) (now : ℕ)
    (ids : List Uuid) (s : State)
    → ((audit_each org operation details c now ids s).memories ≡ s.memories)
      × ((audit_each org operation details c now ids s).relationships ≡ s.relationships)
      × ((audit_each org operation details c now ids s).certificates ≡ s.certificates)
      × (events (audit_each org operation details c now ids s)
          ≡ events s ++ map (event_of org operation details c) ids)
unfolding audit_each audited enqueue_audit_entry
audit_each_lem org operation details c now [] s = (refl, refl, refl, sym (append-nil (events s)))
audit_each_lem org operation details c now (mid ∷ rest) s =
    let (m, r, k, e) =
      audit_each_lem org operation details c now rest
        (audited org operation (some mid) none (details mid) c now s) in
    (
      m,
      r,
      k,
      e
          ∙ ap (λ l. l ++ map (event_of org operation details c) rest)
              (map-append (λ p. p.event) s.audit.pending _)
          ∙ append_assoc (events s) (event_of org operation details c mid ∷ [])
              (map (event_of org operation details c) rest),
    )

-- A key whose certificate id is taken already.
abbrev pub is_taken : Option Signer → List ForgetCertificate → Bool
is_taken none certs = false
is_taken (some k) certs = any (λ c. c.cert_id == k.cert_id) certs

-- The id of the certificate that is issued.
abbrev pub issued : Option Signer → List ForgetCertificate → Option Uuid
issued none certs = none
issued (some k) certs = if is_taken (some k) certs then none else some k.cert_id

-- What the call leaves the transaction in, and a COMMIT the database.
abbrev pub or_aborted : Bool → State → Transaction
or_aborted taken s' = if taken then aborted else active s'

pub commit-or_aborted :
    (taken : Bool) (s s' : State) → commit s (or_aborted taken s') ≡ (if taken then s else s')
commit-or_aborted true s s' = refl
commit-or_aborted false s s' = refl

-- The emission for at least one id: the transaction is aborted where the certificate's id is taken, and
-- otherwise goes on with the rows and the queue as they were.
emit_lem :
    (k : Option Signer) (org : Uuid) (agent : Option Uuid) (u : Uuid) (us : List Uuid)
    (hashes : Hashes) (hard : Bool) (s : State)
    → (s' : State) × ((emit_forget_certificate k org agent (u ∷ us) hashes hard s).0
        ≡ or_aborted (is_taken k s.certificates) s')
      × ((emit_forget_certificate k org agent (u ∷ us) hashes hard s).1.0 ≡ issued k s.certificates)
      × (s'.memories ≡ s.memories)
      × (s'.relationships ≡ s.relationships)
      × (s'.audit ≡ s.audit)
unfolding emit_forget_certificate insert_certificate build_leaves
emit_lem none org agent u us hashes hard s = (s, refl, refl, refl, refl, refl)
emit_lem (some k) org agent u us hashes hard s =
    let (r, e) =
      build_merkle_root-total k.sha256 (build_leaves (u ∷ us) (some hashes) none) (λ e. cc e) in
    let cert = new_certificate k org agent (u ∷ us) hard r in
    let s' : State = record s { certificates = s.certificates ++ cert ∷ [] } in
    elim (Bool-cases (is_taken (some k) s.certificates)) [
      | inl taken ↦ (s', rw (e, taken), rw (e, taken), refl, refl, refl)
      | inr fresh ↦ (s', rw (e, fresh), rw (e, fresh), refl, refl, refl)
    ]

-- What follows the deletion: the rows stay as the deletion left them, the queue grows by one event
-- for each target, and the result names the targets and the number of deleted rows.
pub after_delete_lem :
    (details : Uuid → String) (org : Uuid) (r : Request) (c : Context) (now : ℕ) (before : State)
    (hashes : Hashes) (s : State) (n : ℕ) (u : Uuid) (us : List Uuid)
    → targets org r before ≡ u ∷ us
    → (s' : State) × ((after_delete details org r c now before hashes (s, n)).0
        ≡ or_aborted (is_taken r.signing_key s.certificates) s')
      × (s'.memories ≡ s.memories)
      × (s'.relationships ≡ s.relationships)
      × (events s'
          ≡ events s
            ++ map (event_of org (operation_of r.hard_delete) details c) (targets org r before))
      × ((after_delete details org r c now before hashes (s, n)).1.deleted_count ≡ n)
      × ((after_delete details org r c now before hashes (s, n)).1.memory_ids
          ≡ targets org r before)
      × ((after_delete details org r c now before hashes (s, n)).1.cert_id
          ≡ issued r.signing_key s.certificates)
unfolding after_delete
after_delete_lem details org r c now before hashes s n u us some_target =
    let ids = targets org r before in
    let (m, rel, k, e) = audit_each_lem org (operation_of r.hard_delete) details c now ids s in
    let s1 = audit_each org (operation_of r.hard_delete) details c now ids s in
    let (s', t', i', m', rel', a') =
      subst
        (λ l.
          (s2 : State) × ((emit_forget_certificate r.signing_key org c.agent_id l hashes
              r.hard_delete s1).0
            ≡ or_aborted (is_taken r.signing_key s1.certificates) s2)
          × ((emit_forget_certificate r.signing_key org c.agent_id l hashes r.hard_delete s1).1.0
              ≡ issued r.signing_key s1.certificates)
          × (s2.memories ≡ s1.memories)
          × (s2.relationships ≡ s1.relationships)
          × (s2.audit ≡ s1.audit))
        (sym some_target) (emit_lem r.signing_key org c.agent_id u us hashes r.hard_delete s1) in
    (
      s',
      t' ∙ ap (λ l. or_aborted (is_taken r.signing_key l) s') k,
      m' ∙ m,
      rel' ∙ rel,
      ap (λ (a : Tables.Db). map (λ p. p.event) a.pending) a' ∙ e,
      refl,
      refl,
      i' ∙ ap (issued r.signing_key) k,
    )

pub forget_of_delete :
    (details : Uuid → String) (org : Uuid) (r : Request) (c : Context) (now : ℕ) (s : State)
    (u : Uuid) (us : List Uuid) (done : State × ℕ)
    → named r ≡ u ∷ us
    → delete org r.hard_delete (targets org r s) now s ≡ ok done
    → forget details org r c now s
      ≡ ok (
          after_delete details org r c now s
            (content_hashes r.signing_key org (targets org r s) s)
            done)
unfolding forget
forget_of_delete details org r c now s u us done given e =
    let hashes = content_hashes r.signing_key org (targets org r s) s in
    ap
      (λ l. refuse (is_empty l) forget_error >>= λ _.
        (delete org r.hard_delete (targets org r s) now s >>= λ d.
        ok (after_delete details org r c now s hashes d)))
      given
    ∙ ap (λ x. x >>= λ d. ok (after_delete details org r c now s hashes d)) e

-- A request that names a memory has a target.
pub some_target :
    (org : Uuid) (r : Request) (s : State) (u : Uuid) (us : List Uuid)
    → named r ≡ u ∷ us
    → (v : Uuid) × (vs : List Uuid) × (targets org r s ≡ v ∷ vs)
unfolding targets distinct
some_target org r s u us given =
    let all = us ++ cascaded org r s in
    (u, distinct (u ∷ []) all, ap (λ l. distinct [] (l ++ cascaded org r s)) given)
