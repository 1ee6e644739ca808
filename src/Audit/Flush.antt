-- ===== src/Audit/Flush.antt =====
-- What `flush_audit_chain` leaves in the queue of its organisation.
use z3rno_core.Prelude.{
  ℕ, ◌+◌, ◌*◌, ◌≤◌, ◌<◌, ◌≡◌, refl, sym, ap, ◌∙◌, subst, Bool, true, false, List, [], ◌∷◌, take,
  length, All, arith, inl, inr, length-take, length-drop, ◌-◌, ltb, ltb→lt, Bool-cases,
}
use z3rno_core.Models.{Uuid}
use z3rno_core.Audit.Tables.{Pending, Db}
use z3rno_core.Audit.Hash.{Hashing}
use z3rno_core.Audit.Drain.{drain_audit_chain, flush_audit_chain}
use z3rno_core.Audit.Ordered.{queue, IsOrdered}
use z3rno_core.Audit.Chain.{drained, drained-IsOrdered, queue-drained_self}
use z3rno_core.Audit.Reach.{drain_audit_chain-cases}

nil_of_length : (qs : List Pending) → length qs ≡ 0 → qs ≡ []
nil_of_length [] e = refl
nil_of_length (q ∷ qs) e = absurd (omega arith)

module _ (h : Hashing) (org : Uuid) (n : ℕ) where
  -- One iteration of the loop, by the number of rows that the drain took.
  flush_stops :
      (locks : List Bool) (db db' : Db)
      → drain_audit_chain h true org n db ≡ (db', 0)
      → flush_audit_chain h org n (true ∷ locks) db ≡ (db', 0)
  unfolding flush_audit_chain
  flush_stops locks db db' e = rw e

  flush_goes_on :
      (locks : List Bool) (db db' : Db) (k : ℕ)
      → 0 < k
      → drain_audit_chain h true org n db ≡ (db', k)
      → flush_audit_chain h org n (true ∷ locks) db
        ≡ ((flush_audit_chain h org n locks db').0, k + (flush_audit_chain h org n locks db').1)
  unfolding flush_audit_chain
  flush_goes_on locks db db' k pos e = rw e (ground arith)

  abbrev IsEmptied : Db → Db × ℕ → Type 0
  IsEmptied db out = (queue org out.0 ≡ []) × (out.1 ≡ length (queue org db))

  -- With the lock free in each iteration, and iterations enough for the queue at this batch size,
  -- a flush empties the queue and reports as many rows as the queue held.
  pub flush_audit_chain-empties :
      (locks : List Bool) (clock : ℕ) (db : Db)
      → 0 < n
      → All (λ l. l ≡ true) locks
      → length (queue org db) ≤ length locks * n
      → IsOrdered h clock db
      → (queue org (flush_audit_chain h org n locks db).0 ≡ [])
        × ((flush_audit_chain h org n locks db).1 ≡ length (queue org db))
  flush_audit_chain-empties [] clock db pos free fits inv =
      unfold flush_audit_chain in (nil_of_length (queue org db) (omega arith), omega arith)
  flush_audit_chain-empties (false ∷ locks) clock db pos free fits inv = cc (free.0)
  flush_audit_chain-empties (true ∷ locks) clock db pos free fits inv =
      elim (drain_audit_chain-cases h org n db inv) [
        | inl (none_left, same) ↦
            let e : length (queue org db) ≡ 0 =
              omega (arith, length-take n (queue org db), ap length none_left) in
            subst (IsEmptied db) (sym (flush_stops locks db db same))
              (nil_of_length (queue org db) e, sym e)
        | inr moved ↦ elim (Bool-cases (ltb 0 (length (queue org db)))) [
          | inl some_left ↦
              let db' : Db = drained h org (take n (queue org db)) db in
              let left : length (queue org db') ≡ length (queue org db) - n =
                ap length (queue-drained_self h clock org n db inv)
                ∙ length-drop n (queue org db) in
              let (done, count) =
                flush_audit_chain-empties locks clock db' pos free.1 (omega arith)
                  (drained-IsOrdered h clock org n db inv) in
              subst (IsEmptied db)
                (sym (
                  flush_goes_on locks db db' (length (take n (queue org db)))
                    (omega (
                      arith,
                      length-take n (queue org db),
                      ltb→lt 0 (length (queue org db)) some_left,
                    ))
                    moved))
                (done, omega (arith, length-take n (queue org db)))
          | inr none_left ↦
              let e : length (queue org db) ≡ 0 = ground arith in
              let took : length (take n (queue org db)) ≡ 0 =
                omega (arith, length-take n (queue org db)) in
              let db' : Db = drained h org (take n (queue org db)) db in
              subst (IsEmptied db)
                (sym (flush_stops locks db db' (moved ∙ ap (λ k. (db', k)) took)))
                (
                  nil_of_length (queue org db') (
                      omega (
                        arith,
                        length-drop n (queue org db),
                        ap length (queue-drained_self h clock org n db inv),
                      )),
                  sym e,
                )
        ]
      ]
