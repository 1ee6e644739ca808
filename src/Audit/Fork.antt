-- ===== src/Audit/Fork.antt =====
-- A transaction that enqueues after one that began later.
use z3rno_core.Prelude.{ℕ, ◌<◌, ◌≡◌, refl, true, none, some, [], ◌∷◌, arith}
use z3rno_core.Audit.Tables.{Event, LogRow, Db, enqueue_audit_entry}
use z3rno_core.Audit.Hash.{Hashing}
use z3rno_core.Audit.Drain.{new_row, drain_audit_chain}
use z3rno_core.Audit.Ordered.{rows, empty}

module _ (h : Hashing) (first second third : Event) (t1 t2 t3 : ℕ) where
  -- Two events are enqueued and drained, then a third is.
  abbrev pub after_two : Db
  after_two =
      (drain_audit_chain h true first.org_id 100
        (enqueue_audit_entry second t2 (enqueue_audit_entry first t1 empty))).0

  abbrev pub after_three : Db
  after_three =
      (drain_audit_chain h true first.org_id 100 (enqueue_audit_entry third t3 after_two)).0

  -- If the second of three events of one organisation comes from a transaction that began before
  -- that of the first, the second and the third row both hold the hash of the first.
  pub late_commit_forks :
      second.org_id ≡ first.org_id
      → third.org_id ≡ first.org_id
      → t2 < t1
      → (r1 : LogRow) × (r2 : LogRow) × (r3 : LogRow) × (rows first.org_id after_three
          ≡ r1 ∷ r2 ∷ r3 ∷ [])
        × (r2.prev_hash ≡ some r1.row_hash)
        × (r3.prev_hash ≡ some r1.row_hash)
  unfolding drain_audit_chain enqueue_audit_entry
  late_commit_forks e2 e3 lt = (
    row1,
    row2,
    new_row h (some row1.row_hash) 3 (record { id = 3; event = third; created_at = t3 }),
    ground arith,
    refl,
    refl,
  )
    where
      row1 : LogRow
      row1 = new_row h none 1 (record { id = 1; event = first; created_at = t1 })

      row2 : LogRow
      row2 = new_row h (some row1.row_hash) 2 (record { id = 2; event = second; created_at = t2 })
