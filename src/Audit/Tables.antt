-- ===== src/Audit/Tables.antt =====
-- The tables `audit_log_pending` and `audit_log` (migrations 018 and 009), and the enqueueing of an
-- event. Timestamps and UUIDs are numbers; `now()` is the instant at which a transaction began.
use z3rno_core.Prelude.{
  ℕ, ◌+◌, ◌==◌, leb, ltb, String, Bool, Option, none, some, List, [], ◌∷◌, ◌++◌, filter, take, map,
  elem, true, false, head?, not, ◌&&◌, ◌||◌,
}
use z3rno_core.Prelude.Sort.{sort}
use z3rno_core.Models.{Uuid, Bytes, MemoryType, AuditOperation}

-- The columns that the caller of `enqueue_audit_entry` gives. `details` is JSON text.
pub record Event : Type 0 where
  pub org_id : Uuid
  pub agent_id : Option Uuid
  pub user_id : Option Uuid
  pub operation : AuditOperation
  pub memory_id : Option Uuid
  pub memory_type : Option MemoryType
  pub details : String
  pub api_key_id : Option Uuid
  pub ip_address : Option String
  pub user_agent : Option String
  pub request_id : Option String

pub record Pending : Type 0 where
  pub id : ℕ
  pub event : Event
  pub created_at : ℕ

pub record LogRow : Type 0 where
  pub id : ℕ
  pub event : Event
  pub prev_hash : Option Bytes
  pub row_hash : Bytes
  pub created_at : ℕ
  pub updated_at : ℕ

-- Both tables with the BIGSERIAL counters behind their ids.
pub record Db : Type 0 where
  pub pending : List Pending
  pub log : List LogRow
  pub next_pending : ℕ
  pub next_log : ℕ

-- `create_audit_entry` is another name of it. `json.dumps(details or {})` is the event's text.
unfoldable pub enqueue_audit_entry : Event → ℕ → Db → Db
enqueue_audit_entry e now db = record db {
  pending = db.pending ++ record { id = db.next_pending; event = e; created_at = now } ∷ [];
  next_pending = db.next_pending + 1;
}

abbrev pub of_org : Uuid → Pending → Bool
of_org org p = p.event.org_id == org

abbrev pub by_id : Pending → Pending → Bool
by_id p q = leb p.id q.id

-- SELECT … WHERE org_id = :org_id ORDER BY id LIMIT :batch_size
unfoldable pub select_pending : Uuid → ℕ → Db → List Pending
unfolding sort
select_pending org batch_size db = take batch_size (sort by_id (filter (of_org org) db.pending))

-- ORDER BY created_at DESC, id DESC
abbrev pub later : LogRow → LogRow → Bool
later r s = ltb s.created_at r.created_at || (s.created_at == r.created_at && leb s.id r.id)

-- `get_latest_hash`
unfoldable pub get_latest_hash : Uuid → Db → Option Bytes
unfolding sort
get_latest_hash org db = elim (head? (sort later (filter (λ r. r.event.org_id == org) db.log))) [
  | none ↦ none
  | some row ↦ some row.row_hash
]

-- DELETE FROM audit_log_pending WHERE id = ANY(:ids)
unfoldable pub delete_pending : List ℕ → Db → Db
delete_pending ids db = record db { pending = filter (λ p. not (elem p.id ids)) db.pending }

-- SELECT DISTINCT org_id FROM audit_log_pending LIMIT :limit
unfoldable pub distinct : List Uuid → List Uuid → List Uuid
distinct seen [] = []
distinct seen (x ∷ xs) = elim (elem x seen) [
  | true ↦ distinct seen xs
  | false ↦ x ∷ distinct (x ∷ seen) xs
]

unfoldable pub list_orgs_with_pending : ℕ → Db → List Uuid
unfolding distinct
list_orgs_with_pending limit db = take limit (distinct [] (map (λ p. p.event.org_id) db.pending))
