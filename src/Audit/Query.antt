-- ===== src/Audit/Query.antt =====
-- engine/audit_query.py. An operation or a memory type that the enumerations do not have, which the
-- casts of the statements refuse, is no value here.
use z3rno_core.Prelude.{
  ℕ, zero, suc, ◌+◌, ◌-◌, ◌*◌, Bool, true, false, ◌&&◌, ◌||◌, String, Option, none, some, List, [],
  ◌∷◌, map, filter, take, drop, length, min, leb, ltb, if◌then◌else◌, ◌==◌,
}
use z3rno_core.Prelude.Sort.{sort}
use z3rno_core.Models.{Uuid, Bytes, MemoryType, AuditOperation}
use z3rno_core.Result.{Result, ok, raise, invalid_row_count}
use z3rno_core.Memories.Table.{type_eq}
use z3rno_core.Audit.Tables.{LogRow}
pub mod Walk

pub record AuditEntry : Type 0 where
  pub id : ℕ
  pub org_id : Uuid
  pub agent_id : Option Uuid
  pub user_id : Option Uuid
  pub operation : AuditOperation
  pub memory_id : Option Uuid
  pub memory_type : Option MemoryType
  pub details : String
  pub prev_hash : Option Bytes
  pub row_hash : Bytes
  pub ip_address : Option String
  pub user_agent : Option String
  pub request_id : Option String
  pub created_at : ℕ

-- A total of -1, which is not computed, is `none`.
pub record AuditPage : Type 0 where
  pub entries : List AuditEntry
  pub total : Option ℕ
  pub page : ℕ
  pub page_size : ℕ
  pub has_next : Bool
  pub next_cursor : Option ℕ

pub record Filters : Type 0 where
  pub agent_id : Option Uuid
  pub user_id : Option Uuid
  pub operation : Option AuditOperation
  pub memory_id : Option Uuid
  pub memory_type : Option MemoryType
  pub time_range : Option (ℕ × ℕ)

-- `column = :value`, which NULL does not meet.
abbrev equals : ℕ → Option ℕ → Bool
equals a none = false
equals a (some b) = b == a

abbrev asks : Option ℕ → Option ℕ → Bool
asks none column = true
asks (some a) column = equals a column

abbrev rank : AuditOperation → ℕ
rank AuditOperation.store = 0
rank AuditOperation.recall = 1
rank AuditOperation.forget = 2
rank AuditOperation.update = 3
rank AuditOperation.quarantine = 4
rank AuditOperation.pin = 5
rank AuditOperation.unpin = 6
rank AuditOperation.export = 7
rank AuditOperation.gdpr_delete = 8
rank AuditOperation.distill = 9

abbrev asks_operation : Option AuditOperation → AuditOperation → Bool
asks_operation none o = true
asks_operation (some p) o = rank o == rank p

abbrev asks_type : Option MemoryType → Option MemoryType → Bool
asks_type none column = true
asks_type (some t) none = false
asks_type (some t) (some u) = type_eq u t

abbrev pub in_range : Option (ℕ × ℕ) → ℕ → Bool
in_range none at = true
in_range (some range) at = leb range.0 at && leb at range.1

-- The WHERE clause without its cursor.
unfoldable pub meets : Uuid → Filters → LogRow → Bool
meets org f r =
    (r.event.org_id == org)
    && (asks f.agent_id r.event.agent_id
        && (asks f.user_id r.event.user_id
            && (asks_operation f.operation r.event.operation
                && (asks f.memory_id r.event.memory_id
                    && (asks_type f.memory_type r.event.memory_type
                        && in_range f.time_range r.created_at)))))

abbrev pub row_to_entry : LogRow → AuditEntry
row_to_entry r = record {
  id = r.id;
  org_id = r.event.org_id;
  agent_id = r.event.agent_id;
  user_id = r.event.user_id;
  operation = r.event.operation;
  memory_id = r.event.memory_id;
  memory_type = r.event.memory_type;
  details = r.event.details;
  prev_hash = r.prev_hash;
  row_hash = r.row_hash;
  ip_address = r.event.ip_address;
  user_agent = r.event.user_agent;
  request_id = r.event.request_id;
  created_at = r.created_at;
}

-- ORDER BY id DESC
abbrev pub by_id_desc : LogRow → LogRow → Bool
by_id_desc a b = leb b.id a.id

-- ORDER BY created_at DESC, id DESC
abbrev pub newest_first : LogRow → LogRow → Bool
newest_first a b =
    ltb b.created_at a.created_at || ((b.created_at == a.created_at) && leb b.id a.id)

-- `min(limit or 50, 100)`
abbrev pub effective_limit : Option ℕ → ℕ
effective_limit none = 50
effective_limit (some n) = if n == 0 then 50 else min n 100

abbrev pub last_id : List AuditEntry → Option ℕ
last_id [] = none
last_id (e ∷ []) = some e.id
last_id (e ∷ (f ∷ es)) = last_id (f ∷ es)

-- The page that is made of the fetched rows.
abbrev pub page_of : ℕ → List LogRow → AuditPage
page_of size rows =
    let has_next = ltb size (length rows) in
    let entries = map row_to_entry (if has_next then take size rows else rows) in
    record {
      entries = entries;
      total = none;
      page = 0;
      page_size = size;
      has_next = has_next;
      next_cursor = last_id entries;
    }

-- The path with a cursor.
unfoldable pub keyset_page : Uuid → Filters → ℕ → Option ℕ → List LogRow → AuditPage
unfolding sort meets
keyset_page org f cursor limit log =
    let size = effective_limit limit in
    page_of size
      (take (suc size) (sort by_id_desc (filter (λ r. meets org f r && ltb r.id cursor) log)))

-- The path without: a negative OFFSET is refused by the database.
unfoldable pub offset_page : Uuid → Filters → ℕ → ℕ → List LogRow → Result AuditPage
unfolding sort meets
offset_page org f page page_size log =
    let size = min page_size 100 in
    let offset = (page - 1) * size in
    let rows = filter (meets org f) log in
    let total = length rows in
    if (page == 0) && ltb 0 size
    then raise invalid_row_count
    else ok (record {
      entries = map row_to_entry (take size (drop offset (sort newest_first rows)));
      total = some total;
      page = page;
      page_size = size;
      has_next = ltb (offset + size) total;
      next_cursor = none;
    })

unfoldable pub audit : Uuid → Filters → ℕ → ℕ → Option ℕ → Option ℕ → List LogRow → Result AuditPage
unfolding keyset_page offset_page
audit org f page page_size none limit log = offset_page org f page page_size log
audit org f page page_size (some cursor) limit log = ok (keyset_page org f cursor limit log)

pub record ActivitySummary : Type 0 where
  pub agent_id : Uuid
  pub operation_counts : List (AuditOperation × ℕ)
  pub total : ℕ

-- GROUP BY operation, with count(*)
unfoldable pub count_operation :
    AuditOperation → List (AuditOperation × ℕ) → List (AuditOperation × ℕ)
count_operation o [] = (o, 1) ∷ []
count_operation o ((p, n) ∷ rest) =
    let more = count_operation o rest in
    if rank p == rank o then (p, suc n) ∷ rest else (p, n) ∷ more

unfoldable pub group_operations : List LogRow → List (AuditOperation × ℕ)
unfolding count_operation
group_operations [] = []
group_operations (r ∷ rs) = count_operation r.event.operation (group_operations rs)

abbrev pub sum_counts : List (AuditOperation × ℕ) → ℕ
sum_counts [] = 0
sum_counts ((o, n) ∷ rest) = n + sum_counts rest

unfoldable pub get_agent_activity_summary :
    Uuid → Uuid → Option (ℕ × ℕ) → List LogRow → ActivitySummary
unfolding group_operations
get_agent_activity_summary org agent range log =
    let counts = group_operations (
      filter
        (λ r.
          (r.event.org_id == org) && (equals agent r.event.agent_id && in_range range r.created_at))
        log) in
    record { agent_id = agent; operation_counts = counts; total = sum_counts counts }

-- ORDER BY created_at ASC, id ASC
abbrev oldest_first : LogRow → LogRow → Bool
oldest_first a b =
    ltb a.created_at b.created_at || ((a.created_at == b.created_at) && leb a.id b.id)

unfoldable pub get_memory_lifecycle : Uuid → Uuid → List LogRow → List AuditEntry
unfolding sort
get_memory_lifecycle org memory log = map row_to_entry (
    sort oldest_first
      (filter (λ r. (r.event.org_id == org) && equals memory r.event.memory_id) log))
