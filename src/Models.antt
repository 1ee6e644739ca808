-- ===== src/Models.antt =====
-- models/enums.py, and the representation of identifiers and byte strings that all parts share.
use z3rno_core.Prelude.{ℕ, List}

-- A UUID is a 128-bit number.
abbrev pub Uuid : Type 0
Uuid = ℕ

abbrev pub Bytes : Type 0
Bytes = List ℕ

pub data MemoryType : Type 0 where
  working episodic semantic procedural : MemoryType

pub data RelationshipType : Type 0 where
  derived_from contradicts supports supersedes related_to caused_by : RelationshipType

pub data AuditOperation : Type 0 where
  store recall forget update quarantine pin unpin export gdpr_delete distill : AuditOperation
