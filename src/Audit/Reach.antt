-- ===== src/Audit/Reach.antt =====
-- Every state that enqueueing and draining reach, in any interleaving.
use z3rno_core.Prelude.{
  ℕ, ◌≤◌, ◌≡◌, ◌≢◌, refl, sym, ap, ap₂, ◌∙◌, subst, Bool, true, false, List, [], ◌∷◌, ◌++◌, map,
  ◌==◌, ==_iff, take, drop, filter, filter-append, length, arith, if◌then◌else◌, Bool-cases, ◌⊎◌,
  inl, inr, append_assoc, take-append-drop, none,
}
use z3rno_core.Models.{Uuid}
use z3rno_core.Audit.Tables.{Event, Pending, Db, enqueue_audit_entry, of_org, get_latest_hash}
use z3rno_core.Audit.Hash.{Hashing}
use z3rno_core.Audit.Drain.{chain_rows, drain_selected, drain_audit_chain}
use z3rno_core.Audit.Queue.{select_pending-take}
use z3rno_core.Audit.Rows.{IsChain, event-chain_rows}
use z3rno_core.Audit.Ordered.{
  rows, queue, empty, IsOrdered, empty-IsOrdered, enqueue_audit_entry-IsOrdered,
}
use z3rno_core.Audit.Chain.{
  drained, drained-IsOrdered, rows-drained_self, rows-drained_other, queue-drained_self,
  queue-drained_other, batch-of,
}

drain_selected-cases :
    (h : Hashing) (org : Uuid) (batch : List Pending) (db : Db)
    → ((batch ≡ []) × (drain_selected h org batch db ≡ (db, 0)))
      ⊎ (drain_selected h org batch db ≡ (drained h org batch db, length batch))
unfolding drain_selected
drain_selected-cases h org [] db = inl (refl, refl)
drain_selected-cases h org (p ∷ ps) db = inr refl

-- What a drain with the lock does to an ordered state: nothing, if the queue is empty or the batch
-- size is 0, and otherwise it moves the first rows of the queue.
pub drain_audit_chain-cases :
    (h : Hashing) (org : Uuid) (n : ℕ) (db : Db) {clock : ℕ}
    → IsOrdered h clock db
    → ((take n (queue org db) ≡ []) × (drain_audit_chain h true org n db ≡ (db, 0)))
      ⊎ (drain_audit_chain h true org n db
          ≡ (drained h org (take n (queue org db)) db, length (take n (queue org db))))
unfolding drain_audit_chain
drain_audit_chain-cases h org n db inv =
    let e = select_pending-take org n db inv.queued in
    subst
      (λ b.
        ((take n (queue org db) ≡ []) × (drain_selected h org b db ≡ (db, 0)))
        ⊎ (drain_selected h org b db
            ≡ (drained h org (take n (queue org db)) db, length (take n (queue org db)))))
      (sym e) (drain_selected-cases h org (take n (queue org db)) db)

pub drain_audit_chain-IsOrdered :
    (h : Hashing) (clock : ℕ) (locked : Bool) (org : Uuid) (n : ℕ) (db : Db)
    → IsOrdered h clock db
    → IsOrdered h clock (drain_audit_chain h locked org n db).0
drain_audit_chain-IsOrdered h clock false org n db inv = unfold drain_audit_chain in inv
drain_audit_chain-IsOrdered h clock true org n db inv =
    elim (drain_audit_chain-cases h org n db inv) [
      | inl same ↦ subst (λ r. IsOrdered h clock r.0) (sym same.1) inv
      | inr moved ↦
          subst (λ r. IsOrdered h clock r.0) (sym moved) (drained-IsOrdered h clock org n db inv)
    ]

-- The events of an organisation: those in the log, then those that wait.
abbrev pub history : Uuid → Db → List Event
history org db = map (λ r. r.event) (rows org db) ++ map (λ p. p.event) (queue org db)

map-append {ℓ} :
    {A B : Type ℓ} (f : A → B) (xs ys : List A) → map f (xs ++ ys) ≡ map f xs ++ map f ys
map-append f [] ys = refl
map-append f (x ∷ xs) ys = ap (◌∷◌ (f x)) (map-append f xs ys)

history-drained :
    (h : Hashing) (clock : ℕ) (org : Uuid) (n : ℕ) (db : Db)
    → IsOrdered h clock db
    → (other : Uuid) → history other (drained h org (take n (queue org db)) db) ≡ history other db
history-drained h clock org n db inv other = elim (Bool-cases (other == org)) [
  | inr e ↦
      let ne : other ≢ org = λ p. ground arith in
      ap₂ (λ rs ps. map (λ r. r.event) rs ++ map (λ p. p.event) ps)
        (rows-drained_other h org other (take n (queue org db)) db ne
          (batch-of h clock org n db inv))
        (queue-drained_other h clock org n db inv other ne)
  | inl e ↦
      subst (λ o. history o (drained h org (take n (queue org db)) db) ≡ history o db)
        (sym ((==_iff other org).0 e))
        (ap₂ (λ rs ps. map (λ r. r.event) rs ++ map (λ p. p.event) ps)
            (rows-drained_self h org (take n (queue org db)) db (batch-of h clock org n db inv))
            (queue-drained_self h clock org n db inv)
          ∙ ap (λ es. es ++ map (λ p. p.event) (drop n (queue org db)))
              (map-append (λ r. r.event) (rows org db)
                (chain_rows h (get_latest_hash org db) db.next_log (take n (queue org db))))
          ∙ append_assoc (map (λ r. r.event) (rows org db)) _ _
          ∙ ap (λ es. map (λ r. r.event) (rows org db) ++ es)
              (ap (λ es. es ++ map (λ p. p.event) (drop n (queue org db)))
                  (event-chain_rows h (get_latest_hash org db) db.next_log (take n (queue org db)))
                ∙ sym (map-append (λ p. p.event) (take n (queue org db)) (drop n (queue org db)))
                ∙ ap (map (λ p. p.event)) (take-append-drop n (queue org db))))
]

pub history-drain_audit_chain :
    (h : Hashing) (clock : ℕ) (locked : Bool) (org : Uuid) (n : ℕ) (db : Db)
    → IsOrdered h clock db
    → (other : Uuid) → history other (drain_audit_chain h locked org n db).0 ≡ history other db
history-drain_audit_chain h clock false org n db inv other = unfold drain_audit_chain in refl
history-drain_audit_chain h clock true org n db inv other =
    elim (drain_audit_chain-cases h org n db inv) [
      | inl same ↦ ap (λ r. history other r.0) same.1
      | inr moved ↦ ap (λ r. history other r.0) moved ∙ history-drained h clock org n db inv other
    ]

abbrev pub event_of : Uuid → Event → Bool
event_of org e = e.org_id == org

history-enqueue :
    (org : Uuid) (e : Event) (now : ℕ) (db : Db)
    → history org (enqueue_audit_entry e now db) ≡ history org db ++ filter (event_of org) (e ∷ [])
unfolding enqueue_audit_entry
history-enqueue org e now db =
    let p : Pending = record { id = db.next_pending; event = e; created_at = now } in
    ap (λ ps. map (λ r. r.event) (rows org db) ++ map (λ q. q.event) ps)
      (filter-append (of_org org) db.pending (p ∷ []))
    ∙ ap (λ es. map (λ r. r.event) (rows org db) ++ es)
        (map-append (λ q. q.event) (queue org db) (filter (of_org org) (p ∷ [])))
    ∙ sym (append_assoc (map (λ r. r.event) (rows org db)) (map (λ q. q.event) (queue org db)) _)
    ∙ ap (λ es. history org db ++ es) (single (event_of org e) e p refl)
  where
    single :
        (b : Bool) (e' : Event) (q : Pending)
        → q.event ≡ e'
        → map (λ q'. q'.event) (if b then q ∷ [] else []) ≡ (if b then e' ∷ [] else [])
    single true e' q s = ap (λ x. x ∷ []) s
    single false e' q s = refl

-- The states that are reached when `events` were enqueued, in this order, and drains ran between.
pub data Reach (h : Hashing) : List Event → ℕ → Db → Type 0 where
  start : Reach h [] 0 empty
  enqueue :
      {events : List Event} {clock : ℕ} {db : Db} (e : Event) (now : ℕ)
      → clock ≤ now
      → Reach h events clock db
      → Reach h (events ++ e ∷ []) now (enqueue_audit_entry e now db)
  drain :
      {events : List Event} {clock : ℕ} {db : Db} (locked : Bool) (org : Uuid) (batch_size : ℕ)
      → Reach h events clock db
      → Reach h events clock (drain_audit_chain h locked org batch_size db).0

pub Reach-IsOrdered :
    (h : Hashing) {events : List Event} {clock : ℕ} {db : Db}
    → Reach h events clock db
    → IsOrdered h clock db
Reach-IsOrdered h start = empty-IsOrdered h
Reach-IsOrdered h (enqueue {clock = clock} {db = db} e now l r) =
    enqueue_audit_entry-IsOrdered h clock now e db l (Reach-IsOrdered h r)
Reach-IsOrdered h (drain {clock = clock} {db = db} locked org n r) =
    drain_audit_chain-IsOrdered h clock locked org n db (Reach-IsOrdered h r)

Reach-history :
    (h : Hashing) {events : List Event} {clock : ℕ} {db : Db} (org : Uuid)
    → Reach h events clock db
    → history org db ≡ filter (event_of org) events
Reach-history h org start = refl
Reach-history h org (enqueue {events = events} {db = db} e now l r) =
    history-enqueue org e now db
    ∙ ap (λ es. es ++ filter (event_of org) (e ∷ [])) (Reach-history h org r)
    ∙ sym (filter-append (event_of org) events (e ∷ []))
Reach-history h org (drain {clock = clock} {db = db} locked o n r) =
    history-drain_audit_chain h clock locked o n db (Reach-IsOrdered h r) org
    ∙ Reach-history h org r

-- If no transaction enqueues after one that began later, then whatever drains run, an
-- organisation's rows of the log form one hash chain, and the log followed by the queue holds each
-- of its events once, in the order in which they were enqueued.
pub audit_log-IsChain :
    (h : Hashing) {events : List Event} {clock : ℕ} {db : Db} (org : Uuid)
    → Reach h events clock db
    → IsChain h none (rows org db) × (history org db ≡ filter (event_of org) events)
audit_log-IsChain h org r = ((Reach-IsOrdered h r).chained org, Reach-history h org r)
