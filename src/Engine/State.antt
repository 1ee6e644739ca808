-- ===== src/Engine/State.antt =====
-- The tables that the engine writes.
use z3rno_core.Prelude.{ℕ, String, Option, List, Bool, true, ◌&&◌}
use Prim.Native.Char.{code}
use z3rno_core.Prelude.{leb, ◌==◌, ◌||◌}
use z3rno_core.Models.{Uuid, MemoryType, AuditOperation, RelationshipType}
use z3rno_core.Memories.Table.{Memory}
use z3rno_core.Audit.Tables
use z3rno_core.Audit.Tables.{Event}
use z3rno_core.Temporal.Versions.{MemoVersion}
use z3rno_core.ForgetProof.Sign.{ForgetCertificate}

pub record Relationship : Type 0 where
  pub id : Uuid
  pub org_id : Uuid
  pub source_memory_id : Uuid
  pub target_memory_id : Uuid
  pub relationship_type : RelationshipType
  pub weight : ℕ
  pub metadata : String

pub record State : Type 0 where
  pub memories : List Memory
  pub relationships : List Relationship
  pub certificates : List ForgetCertificate
  pub versions : List MemoVersion
  pub audit : Tables.Db

-- A statement that the database refuses aborts the transaction, also where its exception is caught:
-- every later statement is refused too.
pub data Transaction : Type 0 where
  active : State → Transaction
  aborted : Transaction

-- COMMIT rolls an aborted transaction back to where it began.
abbrev pub commit : State → Transaction → State
commit start (active s) = s
commit start aborted = start

-- What every operation hands on to the audit log.
pub record Context : Type 0 where
  pub agent_id : Option Uuid
  pub user_id : Option Uuid
  pub api_key_id : Option Uuid
  pub ip_address : Option String
  pub user_agent : Option String
  pub request_id : Option String

-- `create_audit_entry`
unfoldable pub audited :
    Uuid → AuditOperation → Option Uuid → Option MemoryType → String → Context → ℕ → State → State
audited org operation memory_id memory_type details c now s = record s {
  audit =
      Tables.enqueue_audit_entry
        (record {
          org_id = org;
          agent_id = c.agent_id;
          user_id = c.user_id;
          operation = operation;
          memory_id = memory_id;
          memory_type = memory_type;
          details = details;
          api_key_id = c.api_key_id;
          ip_address = c.ip_address;
          user_agent = c.user_agent;
          request_id = c.request_id;
        })
        now s.audit;
}

-- Python's white space, by code point.
unfoldable pub is_space : ℕ → Bool
is_space c =
    (leb 9 c && leb c 13)
    || ((leb 28 c && leb c 32)
        || ((c == 0x85)
            || ((c == 0xa0)
                || ((c == 0x1680)
                    || ((leb 0x2000 c && leb c 0x200a)
                        || ((c == 0x2028)
                            || ((c == 0x2029)
                                || ((c == 0x202f) || ((c == 0x205f) || (c == 0x3000))))))))))

-- `not s or not s.strip()`
unfoldable pub is_blank : String → Bool
unfolding is_space
is_blank String.[] = true
is_blank (String.◌∷◌ c s) = is_space (code c) && is_blank s
