-- ===== src/Tests/Audit.antt =====
-- engine/audit.py: two organisations, whose events are drained in batches.
use z3rno_core.Prelude.{ℕ, ◌≡◌, refl, true, none, some, [], ◌∷◌, ◌++◌, filter, length, arith}
use z3rno_core.Models.{AuditOperation}
use z3rno_core.Audit.Tables.{Event, LogRow, Db, enqueue_audit_entry}
use z3rno_core.Audit.Hash.{Hashing}
use z3rno_core.Audit.Drain.{drain_audit_chain, flush_audit_chain}
use z3rno_core.Audit.Rows.{IsChain}
use z3rno_core.Audit.Ordered.{rows, queue, empty}
use z3rno_core.Audit.Reach.{
  Reach, start, enqueue, drain, history, event_of, Reach-IsOrdered, audit_log-IsChain,
}
use z3rno_core.Audit.Flush.{flush_audit_chain-empties}
use z3rno_core.Audit.Fork.{after_three, late_commit_forks}

abbrev toy : Hashing
toy = record { sha256 = λ x. x; canonical = λ r. r.org_id ∷ r.created_at ∷ [] }

abbrev event : ℕ → Event
event org = record {
  org_id = org;
  agent_id = some 1;
  user_id = none;
  operation = AuditOperation.store;
  memory_id = some 9;
  memory_type = none;
  details = "{}";
  api_key_id = none;
  ip_address = none;
  user_agent = none;
  request_id = none;
}

-- Organisation 7 enqueues at 5 and 6, organisation 8 in between, and one row of 7 is drained.
abbrev three : Db
three =
    enqueue_audit_entry (event 7) 6
      (enqueue_audit_entry (event 8) 6 (enqueue_audit_entry (event 7) 5 empty))

abbrev three-Reach : Reach toy ((([] ++ event 7 ∷ []) ++ event 8 ∷ []) ++ event 7 ∷ []) 6 three
three-Reach =
    enqueue (event 7) 6 (omega arith)
      (enqueue (event 8) 6 (omega arith) (enqueue (event 7) 5 (omega arith) start))

abbrev drained_one : Db
drained_one = (drain_audit_chain toy true 7 1 three).0

audit_log-IsChain_example :
    IsChain toy none (rows 7 drained_one)
    × (history 7 drained_one
        ≡ filter (event_of 7) ((([] ++ event 7 ∷ []) ++ event 8 ∷ []) ++ event 7 ∷ []))
audit_log-IsChain_example = audit_log-IsChain toy 7 (drain true 7 1 three-Reach)

flush_audit_chain-empties_example :
    (queue 7 (flush_audit_chain toy 7 1 (true ∷ true ∷ []) three).0 ≡ [])
    × ((flush_audit_chain toy 7 1 (true ∷ true ∷ []) three).1 ≡ length (queue 7 three))
unfolding enqueue_audit_entry
flush_audit_chain-empties_example =
    flush_audit_chain-empties toy 7 1 (true ∷ true ∷ []) 6 three (omega arith) (refl, (refl, tt))
      (omega arith) (Reach-IsOrdered toy three-Reach)

late_commit_forks_example :
    (r1 : LogRow) × (r2 : LogRow) × (r3 : LogRow) × (rows 7
        (after_three toy (event 7) (event 7) (event 7) 5 4 6)
      ≡ r1 ∷ r2 ∷ r3 ∷ [])
    × (r2.prev_hash ≡ some r1.row_hash)
    × (r3.prev_hash ≡ some r1.row_hash)
late_commit_forks_example =
    late_commit_forks toy (event 7) (event 7) (event 7) 5 4 6 refl refl (omega arith)
