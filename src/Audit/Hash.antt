-- ===== src/Audit/Hash.antt =====
-- `compute_row_hash` and the row data that it is given. sha256 and the canonical JSON text of the
-- row data are parameters.
use z3rno_core.Prelude.{ℕ, String, Option, none, some, ◌++◌, []}
use z3rno_core.Models.{Uuid, Bytes, MemoryType, AuditOperation}
use z3rno_core.Audit.Tables.{Event}

-- The dict `row_data`.
pub record RowData : Type 0 where
  pub org_id : Uuid
  pub operation : AuditOperation
  pub agent_id : Option Uuid
  pub user_id : Option Uuid
  pub memory_id : Option Uuid
  pub memory_type : Option MemoryType
  pub details : String
  pub created_at : ℕ

unfoldable pub row_data : Event → ℕ → RowData
row_data e created_at = record {
  org_id = e.org_id;
  operation = e.operation;
  agent_id = e.agent_id;
  user_id = e.user_id;
  memory_id = e.memory_id;
  memory_type = e.memory_type;
  details = e.details;
  created_at = created_at;
}

-- The bytes that are fed to the hash before the data: an absent or empty hash feeds none.
abbrev pub prefix : Option Bytes → Bytes
prefix none = []
prefix (some h) = h

-- What audit.py takes from `hashlib` and `json`.
pub record Hashing : Type 0 where
  pub sha256 : Bytes → Bytes
  pub canonical : RowData → Bytes

unfoldable pub compute_row_hash : Hashing → Option Bytes → RowData → Bytes
compute_row_hash h prev_hash row = h.sha256 (prefix prev_hash ++ h.canonical row)
