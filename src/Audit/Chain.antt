-- ===== src/Audit/Chain.antt =====
-- The audit log as a state machine: events are enqueued, and drains of any organisation run
-- between them. The invariant, and what it says of every state that is reached.
use z3rno_core.Prelude.{
  ℕ, ◌+◌, ◌≤◌, ◌<◌, ◌≡◌, ◌≢◌, refl, sym, ap, ◌∙◌, subst, true, false, not, none, List, ◌++◌, ◌==◌,
  ==_iff, take, drop, filter-append, elem, length, All, All-append, arith, Bool-cases, inl, inr,
  append-nil,
}
use z3rno_core.Prelude.Sort.{IsSorted}
use z3rno_core.Prelude.Filter.{
  All-mono, All-and, All-filter, All-take, All-drop, filter-All, filter_of_All, filter_of_none,
  filter_comm, IsSorted-filter, IsSorted-take, IsSorted-take-drop, IsSorted-append,
}
use z3rno_core.Models.{Uuid}
use z3rno_core.Audit.Tables.{Pending, LogRow, Db, of_org, get_latest_hash, delete_pending}
use z3rno_core.Audit.Hash.{Hashing}
use z3rno_core.Audit.Drain.{chain_rows, insert_rows}
use z3rno_core.Audit.Queue.{ready, ids, filter-take-drop, other_org-not_elem, filter-Foreign}
use z3rno_core.Audit.Rows.{
  row_of, before, IsChain, last_hash, IsChain-append, chain_rows-IsChain, get_latest_hash-last,
  chain_rows-ids, chain_rows-All, chain_rows-IsSorted, row-before-All, length-chain_rows,
}
use z3rno_core.Audit.Ordered.{rows, queue, IsOrdered}

-- The state that a drain leaves when it selected `batch`.
abbrev pub drained : Hashing → Uuid → List Pending → Db → Db
drained h org batch db =
    delete_pending (ids batch)
      (insert_rows (chain_rows h (get_latest_hash org db) db.next_log batch) db)

-- The rows of `org` are extended by the batch, those of others are left alone.
pub rows-drained_self :
    (h : Hashing) (org : Uuid) (batch : List Pending) (db : Db)
    → All (λ p. of_org org p ≡ true) batch
    → rows org (drained h org batch db)
      ≡ rows org db ++ chain_rows h (get_latest_hash org db) db.next_log batch
unfolding delete_pending insert_rows
rows-drained_self h org batch db of =
    filter-append (row_of org) db.log _
    ∙ ap (λ l. rows org db ++ l)
        (filter_of_All (row_of org) _ (
          chain_rows-All h (λ e t. (e.org_id == org) ≡ true) (get_latest_hash org db) db.next_log
            batch of))

other_org : (org other : Uuid) (x : ℕ) → other ≢ org → (x == org) ≡ true → (x == other) ≡ false
other_org org other x ne e = ground arith

pub rows-drained_other :
    (h : Hashing) (org other : Uuid) (batch : List Pending) (db : Db)
    → other ≢ org
    → All (λ p. of_org org p ≡ true) batch
    → rows other (drained h org batch db) ≡ rows other db
unfolding delete_pending insert_rows
rows-drained_other h org other batch db ne of =
    filter-append (row_of other) db.log _
    ∙ ap (λ l. rows other db ++ l)
        (filter_of_none (row_of other) _ (
          chain_rows-All h (λ e t. (e.org_id == other) ≡ false) (get_latest_hash org db) db.next_log
            batch
            (All-mono (λ p. of_org org p ≡ true) (λ p. of_org other p ≡ false) batch
              (λ p e. other_org org other p.event.org_id ne e) of)))
    ∙ append-nil (rows other db)

module _ (h : Hashing) (clock : ℕ) (org : Uuid) (n : ℕ) (db : Db) (inv : IsOrdered h clock db) where
  abbrev pub batch : List Pending
  batch = take n (queue org db)

  queue-IsSorted : IsSorted ready (queue org db)
  queue-IsSorted = IsSorted-filter ready (of_org org) db.pending inv.queued

  pub batch-of : All (λ p. of_org org p ≡ true) batch
  batch-of =
      All-take (λ p. of_org org p ≡ true) n (queue org db) (filter-All (of_org org) db.pending)

  -- The rest of the organisation's queue stays.
  pub queue-drained_self : queue org (drained h org batch db) ≡ drop n (queue org db)
  unfolding delete_pending insert_rows
  queue-drained_self =
      filter_comm (of_org org) (λ q. not (elem q.id (ids batch))) db.pending
      ∙ filter-take-drop n (queue org db) queue-IsSorted

  pub queue-drained_other :
      (other : Uuid) → other ≢ org → queue other (drained h org batch db) ≡ queue other db
  unfolding delete_pending insert_rows
  queue-drained_other other ne =
      filter-Foreign org other (ids batch) db.pending ne
        (other_org-not_elem org n db.pending inv.queued)

  latest : get_latest_hash org db ≡ last_hash none (rows org db)
  latest = get_latest_hash-last org db (inv.ascending org)

  drained-chained : (other : Uuid) → IsChain h none (rows other (drained h org batch db))
  drained-chained other = elim (Bool-cases (other == org)) [
    | inl e ↦
        subst (λ o. IsChain h none (rows o (drained h org batch db))) (sym ((==_iff other org).0 e))
          (subst (IsChain h none) (sym (rows-drained_self h org batch db batch-of)) (
            IsChain-append h none (rows org db) _ (inv.chained org) (
              subst (λ p. IsChain h p (chain_rows h (get_latest_hash org db) db.next_log batch))
                latest (chain_rows-IsChain h (get_latest_hash org db) db.next_log batch))))
    | inr e ↦
        subst (IsChain h none)
          (sym (rows-drained_other h org other batch db (λ p. ground arith) batch-of))
          (inv.chained other)
  ]

  abbrev batch_rows : List LogRow
  batch_rows = chain_rows h (get_latest_hash org db) db.next_log batch

  older_batch : All (λ r. All (λ p. r.created_at ≤ p.created_at) batch) (rows org db)
  older_batch =
      All-mono (λ r. All (λ p. r.created_at ≤ p.created_at) (queue org db))
        (λ r. All (λ p. r.created_at ≤ p.created_at) batch) (rows org db)
        (λ r a. All-take (λ p. r.created_at ≤ p.created_at) n (queue org db) a) (inv.older org)

  rows-before_batch : All (λ r. All (λ s. before r s ≡ true) batch_rows) (rows org db)
  rows-before_batch =
      All-mono
        (λ r.
          All (λ p. r.created_at ≤ p.created_at) batch
          × ((r.id < db.next_log) × (r.created_at ≤ clock)))
        (λ r. All (λ s. before r s ≡ true) batch_rows) (rows org db)
        (λ r b.
          row-before-All h r.created_at r (get_latest_hash org db) db.next_log batch refl b.1.0 b.0)
        (All-and (λ r. All (λ p. r.created_at ≤ p.created_at) batch)
          (λ r. (r.id < db.next_log) × (r.created_at ≤ clock)) (rows org db) older_batch
          (All-filter (λ r. (r.id < db.next_log) × (r.created_at ≤ clock)) (row_of org) db.log
            inv.log_bounds))

  drained-ascending : (other : Uuid) → IsSorted before (rows other (drained h org batch db))
  drained-ascending other = elim (Bool-cases (other == org)) [
    | inl e ↦
        subst (λ o. IsSorted before (rows o (drained h org batch db)))
          (sym ((==_iff other org).0 e))
          (subst (IsSorted before) (sym (rows-drained_self h org batch db batch-of)) (
            IsSorted-append before (rows org db) batch_rows (inv.ascending org)
              (chain_rows-IsSorted h (get_latest_hash org db) db.next_log batch
                (IsSorted-take ready n (queue org db) queue-IsSorted))
              rows-before_batch))
    | inr e ↦
        subst (IsSorted before)
          (sym (rows-drained_other h org other batch db (λ p. ground arith) batch-of))
          (inv.ascending other)
  ]

  older_self :
      All
        (λ r. All (λ p. r.created_at ≤ p.created_at) (drop n (queue org db)))
        (rows org db ++ batch_rows)
  older_self =
      All-append (λ r. All (λ p. r.created_at ≤ p.created_at) (drop n (queue org db))) (rows org db)
        batch_rows
        (All-mono (λ r. All (λ p. r.created_at ≤ p.created_at) (queue org db))
          (λ r. All (λ p. r.created_at ≤ p.created_at) (drop n (queue org db))) (rows org db)
          (λ r a. All-drop (λ p. r.created_at ≤ p.created_at) n (queue org db) a) (inv.older org))
        (chain_rows-All h (λ e t. All (λ p. t ≤ p.created_at) (drop n (queue org db)))
          (get_latest_hash org db) db.next_log batch
          (All-mono (λ q. All (λ p. ready q p ≡ true) (drop n (queue org db)))
            (λ q. All (λ p. q.created_at ≤ p.created_at) (drop n (queue org db))) batch
            (λ q a.
              All-mono (λ p. ready q p ≡ true) (λ p. q.created_at ≤ p.created_at)
                (drop n (queue org db)) (λ p r. ground arith) a)
            (IsSorted-take-drop ready n (queue org db) queue-IsSorted)))

  abbrev IsOlder : List Pending → List LogRow → Type 0
  IsOlder ps rs = All (λ r. All (λ p. r.created_at ≤ p.created_at) ps) rs

  drained-IsOlder :
      (other : Uuid)
      → IsOlder (queue other (drained h org batch db)) (rows other (drained h org batch db))
  drained-IsOlder other = elim (Bool-cases (other == org)) [
    | inl e ↦
        subst (λ o. IsOlder (queue o (drained h org batch db)) (rows o (drained h org batch db)))
          (sym ((==_iff other org).0 e))
          (subst (λ q. IsOlder q (rows org (drained h org batch db))) (sym queue-drained_self)
            (subst (IsOlder (drop n (queue org db)))
              (sym (rows-drained_self h org batch db batch-of)) older_self))
    | inr e ↦
        let ne : other ≢ org = λ p. ground arith in
        subst (λ q. IsOlder q (rows other (drained h org batch db)))
          (sym (queue-drained_other other ne))
          (subst (IsOlder (queue other db))
            (sym (rows-drained_other h org other batch db ne batch-of)) (inv.older other))
  ]

  drained-log_bounds :
      All
        (λ r. (r.id < db.next_log + length batch_rows) × (r.created_at ≤ clock))
        (db.log ++ batch_rows)
  drained-log_bounds =
      let count = length-chain_rows h (get_latest_hash org db) db.next_log batch in
      All-append (λ r. (r.id < db.next_log + length batch_rows) × (r.created_at ≤ clock)) db.log
        batch_rows
        (All-mono (λ r. (r.id < db.next_log) × (r.created_at ≤ clock))
          (λ r. (r.id < db.next_log + length batch_rows) × (r.created_at ≤ clock)) db.log
          (λ r b. (omega arith, b.1)) inv.log_bounds)
        (All-mono
          (λ r.
            ((db.next_log ≤ r.id) × (r.id < db.next_log + length batch_rows))
            × (r.created_at ≤ clock))
          (λ r. (r.id < db.next_log + length batch_rows) × (r.created_at ≤ clock)) batch_rows
          (λ r b. (b.0.1, b.1))
          (All-and (λ r. (db.next_log ≤ r.id) × (r.id < db.next_log + length batch_rows))
            (λ r. r.created_at ≤ clock) batch_rows
            (chain_rows-ids h (get_latest_hash org db) db.next_log (db.next_log + length batch_rows)
              batch (omega arith))
            (chain_rows-All h (λ e t. t ≤ clock) (get_latest_hash org db) db.next_log batch
              (All-mono (λ p. (p.id < db.next_pending) × (p.created_at ≤ clock))
                (λ p. p.created_at ≤ clock) batch (λ p b. b.1)
                (All-take (λ p. (p.id < db.next_pending) × (p.created_at ≤ clock)) n (queue org db)
                  (All-filter (λ p. (p.id < db.next_pending) × (p.created_at ≤ clock)) (of_org org)
                    db.pending inv.pending_bounds))))))

  pub drained-IsOrdered : IsOrdered h clock (drained h org batch db)
  unfolding delete_pending insert_rows
  drained-IsOrdered = record {
    queued = IsSorted-filter ready (λ q. not (elem q.id (ids batch))) db.pending inv.queued;
    pending_bounds =
        All-filter (λ p. (p.id < db.next_pending) × (p.created_at ≤ clock))
          (λ q. not (elem q.id (ids batch))) db.pending inv.pending_bounds;
    log_bounds = drained-log_bounds;
    ascending = drained-ascending;
    older = drained-IsOlder;
    chained = drained-chained;
  }
