-- ===== src/Audit/Drain.antt =====
-- `drain_audit_chain` and `flush_audit_chain`.
use z3rno_core.Prelude.{
  ℕ, suc, ◌+◌, ◌==◌, Bool, Option, some, List, [], ◌∷◌, ◌++◌, map, length, if◌then◌else◌,
}
use z3rno_core.Models.{Uuid, Bytes}
use z3rno_core.Audit.Tables.{Pending, LogRow, Db, select_pending, get_latest_hash, delete_pending}
use z3rno_core.Audit.Hash.{Hashing, row_data, compute_row_hash}

-- The row of `audit_log` for one pending row. `id` is the value that the BIGSERIAL column takes.
abbrev pub new_row : Hashing → Option Bytes → ℕ → Pending → LogRow
new_row h prev_hash id p = record {
  id = id;
  event = p.event;
  prev_hash = prev_hash;
  row_hash = compute_row_hash h prev_hash (row_data p.event p.created_at);
  created_at = p.created_at;
  updated_at = p.created_at;
}

-- The `for row in pending` loop: each row holds the hash of the one before it.
unfoldable pub chain_rows : Hashing → Option Bytes → ℕ → List Pending → List LogRow
unfolding row_data compute_row_hash
chain_rows h prev_hash id [] = []
chain_rows h prev_hash id (p ∷ rest) =
    new_row h prev_hash id p
    ∷ chain_rows h (some (compute_row_hash h prev_hash (row_data p.event p.created_at))) (suc id)
        rest

unfoldable pub insert_rows : List LogRow → Db → Db
insert_rows rows db = record db { log = db.log ++ rows; next_log = db.next_log + length rows }

-- What is done once rows were selected.
unfoldable pub drain_selected : Hashing → Uuid → List Pending → Db → Db × ℕ
unfolding chain_rows insert_rows get_latest_hash delete_pending
drain_selected h org [] db = (db, 0)
drain_selected h org (p ∷ rest) db =
    let rows = chain_rows h (get_latest_hash org db) db.next_log (p ∷ rest) in
    (delete_pending (map (λ q. q.id) (p ∷ rest)) (insert_rows rows db), length (p ∷ rest))

-- `locked` is the answer of `pg_try_advisory_xact_lock`.
unfoldable pub drain_audit_chain : Hashing → Bool → Uuid → ℕ → Db → Db × ℕ
unfolding drain_selected select_pending
drain_audit_chain h locked org batch_size db =
    if locked then drain_selected h org (select_pending org batch_size db) db else (db, 0)

-- The loop over `range(max_iterations)`: `locks` holds the lock's answer for each iteration.
unfoldable pub flush_audit_chain : Hashing → Uuid → ℕ → List Bool → Db → Db × ℕ
unfolding drain_audit_chain
flush_audit_chain h org batch_size [] db = (db, 0)
flush_audit_chain h org batch_size (locked ∷ locks) db =
    let (db', n) = drain_audit_chain h locked org batch_size db in
    let (db'', total) = flush_audit_chain h org batch_size locks db' in
    if n == 0 then (db', 0) else (db'', n + total)
