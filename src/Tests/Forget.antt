-- ===== src/Tests/Forget.antt =====
-- `forget` of memory 1 of four, with a cascade of one hop.
use z3rno_core.Prelude.{
  ◌≡◌, refl, String, Bool, true, false, not, none, some, [], ◌∷◌, ◌++◌, map, filter, length, All,
  elem, if◌then◌else◌, ◌⊎◌, ◌↔◌,
}
use z3rno_core.Models.{Uuid, AuditOperation}
use z3rno_core.Result.{ok}
use z3rno_core.Memories.Deleted.{deleted_where}
use z3rno_core.ForgetProof.Tree.{root, build_merkle_root}
use z3rno_core.ForgetProof.Sign.{ForgetCertificate, sign_certificate, verify_certificate}
use z3rno_core.Engine.State.{State, Transaction, active, aborted, commit}
use z3rno_core.Engine.Forget.Related.{find_related_memories}
use z3rno_core.Engine.Forget.Edges.{Within}
use z3rno_core.Engine.Forget.Hops.{find_related_memories-Within}
use z3rno_core.Engine.Forget.Delete.{
  Signer, Request, ForgetResult, named, targets, soft_matches, hard_matches, severed, forget,
}
use z3rno_core.Engine.Forget.After.{events, event_of, is_taken, issued, or_aborted}
use z3rno_core.Engine.Forget.Outcome.{soft_forget_lem, hard_forget_lem}
use z3rno_core.Engine.Forget.Targets.{IsUnique, targets_lem}
use z3rno_core.Engine.Forget.Certificate.{leaf_for, forget-certificate}
use z3rno_core.Tests.Rows.{joined, four, caller}
use z3rno_core.Tests.ForgetProof.{echo, dumps, toy_hash}

abbrev request : Bool → Request
request hard = record {
  memory_id = some 1;
  memory_ids = [];
  hard_delete = hard;
  cascade = true;
  cascade_depth = 1;
  signing_key = none;
}

abbrev details : Uuid → String
details id = "{}"

cascade_run : targets 7 (request false) four ≡ 1 ∷ 2 ∷ []
unfolding targets find_related_memories
cascade_run = refl

find_related_memories-Within_example :
    (elem 3 (find_related_memories 7 joined (1 ∷ []) 2) ≡ true)
    ↔ (Within 7 joined (1 ∷ []) 2 3 × (elem 3 (1 ∷ []) ≡ false))
find_related_memories-Within_example = find_related_memories-Within 7 joined (1 ∷ []) 2 3

targets_lem_example :
    IsUnique (targets 7 (request false) four)
    × ((v : Uuid)
        → (elem v (targets 7 (request false) four) ≡ true) ↔ (
            (elem v (named (request false)) ≡ true)
            ⊎ ((true ≡ true) × Within 7 four.relationships (named (request false)) 1 v)))
targets_lem_example = targets_lem 7 (request false) four

abbrev signer : Signer
signer = record {
  hexdigest = λ s. b'a' ∷ [];
  sha256 = toy_hash;
  sign = λ cert. sign_certificate echo dumps cert tt;
  key_id = [];
  cert_id = 50;
  signed_at = 9;
}

abbrev signed : Bool → Request
signed hard = record (request hard) { signing_key = some signer }

soft_forget_lem_example :
    (t : Transaction) × (s' : State) × (result : ForgetResult) × (forget details 7
        (signed false)
        caller
        9
        four
      ≡ ok (t, result))
    × (t ≡ or_aborted (is_taken (some signer) four.certificates) s')
    × (commit four t ≡ (if is_taken (some signer) four.certificates then four else s'))
    × (s'.memories
        ≡ map (deleted_where 9 (soft_matches 7 (targets 7 (signed false) four))) four.memories)
    × (s'.relationships ≡ four.relationships)
    × (events s'
        ≡ events four
          ++ map (event_of 7 AuditOperation.forget details caller) (targets 7 (signed false) four))
    × (result.deleted_count
        ≡ length (filter (soft_matches 7 (targets 7 (signed false) four)) four.memories))
    × (result.memory_ids ≡ targets 7 (signed false) four)
    × (result.cert_id ≡ issued (some signer) four.certificates)
soft_forget_lem_example =
    soft_forget_lem details 7 (signed false) caller 9 four 1 [] (refl, (refl, (refl, (refl, tt))))
      refl refl

hard_forget_lem_example :
    (t : Transaction) × (s' : State) × (result : ForgetResult) × (forget details 7
        (signed true)
        caller
        9
        four
      ≡ ok (t, result))
    × (t ≡ or_aborted (is_taken (some signer) four.certificates) s')
    × (commit four t ≡ (if is_taken (some signer) four.certificates then four else s'))
    × All (λ m. hard_matches 7 (targets 7 (signed true) four) m ≡ false) s'.memories
    × All (λ l. severed 7 (targets 7 (signed true) four) four.memories l ≡ false) s'.relationships
    × (s'.memories
        ≡ filter (λ m. not (hard_matches 7 (targets 7 (signed true) four) m)) four.memories)
    × (s'.relationships
        ≡ filter
            (λ l. not (severed 7 (targets 7 (signed true) four) four.memories l))
            four.relationships)
    × (result.deleted_count
        ≡ length (filter (hard_matches 7 (targets 7 (signed true) four)) four.memories))
    × (events s'
        ≡ events four
          ++ map
              (event_of 7 AuditOperation.gdpr_delete details caller)
              (targets 7 (signed true) four))
    × (result.cert_id ≡ issued (some signer) four.certificates)
hard_forget_lem_example = hard_forget_lem details 7 (signed true) caller 9 four 1 [] refl refl

-- With a certificate of the same id in the table, the call returns and nothing of it lasts.
abbrev other_cert : ForgetCertificate
other_cert = record {
  cert_id = 50;
  org_id = 7;
  memory_ids = 9 ∷ [];
  merkle_root = [];
  signer_key_id = [];
  signed_at = 1;
  hard_delete = true;
  audit_seq_start = none;
  audit_seq_end = none;
  signature = [];
  agent_id = none;
}

abbrev crowded : State
crowded = record four { certificates = other_cert ∷ [] }

aborted_run :
    (result : ForgetResult) × (forget details 7 (signed true) caller 9 crowded
      ≡ ok (aborted, result))
unfolding forget find_related_memories
aborted_run = (_, refl)

forget-certificate_example :
    (s' : State) × (result : ForgetResult) × (cert : ForgetCertificate) × (forget details 7
        (signed true)
        caller
        9
        four
      ≡ ok (active s', result))
    × (s'.certificates ≡ four.certificates ++ cert ∷ [])
    × (cert.org_id ≡ 7)
    × (cert.hard_delete ≡ true)
    × (cert.memory_ids ≡ targets 7 (signed true) four)
    × (build_merkle_root toy_hash
          (map (leaf_for signer 7 four.memories) (targets 7 (signed true) four))
        ≡ root cert.merkle_root)
    × (verify_certificate echo dumps cert tt ≡ true)
    × (result.cert_id ≡ some cert.cert_id)
    × (result.merkle_root ≡ cert.merkle_root)
forget-certificate_example =
    forget-certificate echo dumps tt signer details 7 (signed true) caller 9 four 1 []
      (refl, (refl, (refl, (refl, tt)))) refl refl refl refl
