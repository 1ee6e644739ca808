-- ===== src/Audit/Ordered.antt =====
-- The invariant of the queue and the log, and enqueueing under it.
use z3rno_core.Prelude.{
  ℕ, ◌+◌, ◌≤◌, ◌<◌, ◌≡◌, sym, subst, true, none, List, [], ◌∷◌, ◌++◌, filter, filter-append, All,
  All-append, arith,
}
use z3rno_core.Prelude.Sort.{IsSorted}
use z3rno_core.Prelude.Filter.{All-mono, All-and, All-filter, IsSorted-append}
use z3rno_core.Models.{Uuid}
use z3rno_core.Audit.Tables.{Event, Pending, LogRow, Db, enqueue_audit_entry, of_org}
use z3rno_core.Audit.Hash.{Hashing}
use z3rno_core.Audit.Queue.{ready}
use z3rno_core.Audit.Rows.{row_of, before, IsChain}

abbrev pub rows : Uuid → Db → List LogRow
rows org db = filter (row_of org) db.log

abbrev pub queue : Uuid → Db → List Pending
queue org db = filter (of_org org) db.pending

-- No transaction that enqueued began after `clock`.
pub record IsOrdered (h : Hashing) (clock : ℕ) (db : Db) : Type 0 where
  pub queued : IsSorted ready db.pending
  pub pending_bounds : All (λ p. (p.id < db.next_pending) × (p.created_at ≤ clock)) db.pending
  pub log_bounds : All (λ r. (r.id < db.next_log) × (r.created_at ≤ clock)) db.log
  pub ascending : (org : Uuid) → IsSorted before (rows org db)
  pub older :
      (org : Uuid) → All (λ r. All (λ p. r.created_at ≤ p.created_at) (queue org db)) (rows org db)
  pub chained : (org : Uuid) → IsChain h none (rows org db)

abbrev pub empty : Db
empty = record { pending = []; log = []; next_pending = 1; next_log = 1 }

pub empty-IsOrdered : (h : Hashing) → IsOrdered h 0 empty
empty-IsOrdered h = record {
  queued = tt;
  pending_bounds = tt;
  log_bounds = tt;
  ascending = λ org. tt;
  older = λ org. tt;
  chained = λ org. tt;
}

All-singleton :
    {A B : Type 0} (R : A → B → Type 0) (xs : List A) (y : B)
    → All (λ x. R x y) xs
    → All (λ x. All (R x) (y ∷ [])) xs
All-singleton R xs y h = All-mono (λ x. R x y) (λ x. All (R x) (y ∷ [])) xs (λ x r. (r, tt)) h

pub enqueue_audit_entry-IsOrdered :
    (h : Hashing) (clock now : ℕ) (e : Event) (db : Db)
    → clock ≤ now
    → IsOrdered h clock db
    → IsOrdered h now (enqueue_audit_entry e now db)
unfolding enqueue_audit_entry
enqueue_audit_entry-IsOrdered h clock now e db later inv = record {
  queued =
      IsSorted-append ready db.pending (p ∷ []) inv.queued (tt, tt)
        (All-singleton (λ q p'. ready q p' ≡ true) db.pending p
          (All-mono (λ q. (q.id < db.next_pending) × (q.created_at ≤ clock)) (λ q. ready q p ≡ true)
            db.pending (λ q b. let (i, t) = b in ground arith) inv.pending_bounds));
  pending_bounds =
      All-append (λ q. (q.id < db.next_pending + 1) × (q.created_at ≤ now)) db.pending (p ∷ [])
        (All-mono (λ q. (q.id < db.next_pending) × (q.created_at ≤ clock))
          (λ q. (q.id < db.next_pending + 1) × (q.created_at ≤ now)) db.pending
          (λ q b. (omega arith, omega arith)) inv.pending_bounds)
        ((omega arith, omega arith), tt);
  log_bounds =
      All-mono (λ r. (r.id < db.next_log) × (r.created_at ≤ clock))
        (λ r. (r.id < db.next_log) × (r.created_at ≤ now)) db.log (λ r b. (b.0, omega arith))
        inv.log_bounds;
  ascending = inv.ascending;
  older = λ org.
      subst (λ q. All (λ r. All (λ p'. r.created_at ≤ p'.created_at) q) (rows org db))
        (sym (filter-append (of_org org) db.pending (p ∷ [])))
        (All-mono
          (λ r.
            All (λ p'. r.created_at ≤ p'.created_at) (queue org db)
            × ((r.id < db.next_log) × (r.created_at ≤ clock)))
          (λ r.
            All (λ p'. r.created_at ≤ p'.created_at) (queue org db ++ filter (of_org org) (p ∷ [])))
          (rows org db)
          (λ r b.
            All-append (λ p'. r.created_at ≤ p'.created_at) (queue org db)
              (filter (of_org org) (p ∷ [])) b.0
              (All-filter (λ p'. r.created_at ≤ p'.created_at) (of_org org) (p ∷ [])
                (omega arith, tt)))
          (All-and (λ r. All (λ p'. r.created_at ≤ p'.created_at) (queue org db))
            (λ r. (r.id < db.next_log) × (r.created_at ≤ clock)) (rows org db) (inv.older org)
            (All-filter (λ r. (r.id < db.next_log) × (r.created_at ≤ clock)) (row_of org) db.log
              inv.log_bounds)));
  chained = inv.chained;
}
  where
    p : Pending
    p = record { id = db.next_pending; event = e; created_at = now }
