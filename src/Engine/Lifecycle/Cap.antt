-- ===== src/Engine/Lifecycle/Cap.antt =====
-- `enforce_retention_cap`: which rows it deletes, and how many.
use z3rno_core.Prelude.{
  ℕ, ◌+◌, ◌≡◌, refl, ap, ◌∙◌, ◌-◌, Bool, true, false, not, ◌&&◌, String, some, List, [], ◌∷◌, ◌++◌,
  map, filter, length, leb, min, Bool-cases, inl, inr, In, All, arith,
}
use z3rno_core.Models.{Uuid, MemoryType, AuditOperation}
use z3rno_core.Result.{Result, ok}
use z3rno_core.Memories.Table.{Memory}
use z3rno_core.Memories.InPlace.{IsKeyed}
use z3rno_core.Memories.Deleted.{picks, deleted_where}
use z3rno_core.Engine.State.{State, Context}
use z3rno_core.Engine.Forget.After.{events, event_of}
use z3rno_core.Engine.Lifecycle.{no_context, expire, is_counted, to_expire, enforce_retention_cap}
use z3rno_core.Engine.Lifecycle.Sweep.{expire_lem}
use z3rno_core.Engine.Lifecycle.Ranked.{
  is_candidate, GoesBefore, victims, chosen, order, length-victims, counted_after,
}

All-matching :
    (q p : Memory → Bool) (xs : List Memory)
    → ((m : Memory) → In m xs → q m ≡ true → p m ≡ true)
    → All (λ m. p m ≡ true) (filter q xs)
All-matching q p [] f = tt
All-matching q p (x ∷ xs) f = elim (Bool-cases (q x)) [
  | inl e ↦ rw e (f x (inl refl) e, All-matching q p xs (λ m i. f m (inr i)))
  | inr e ↦ rw e (All-matching q p xs (λ m i. f m (inr i)))
]

-- The cap returns, on a table whose ids are distinct. Where the count is within the cap nothing happens. Otherwise it marks rows by id,
-- all of them live, current and unpinned rows of the agent and the type, and as many ids as the count
-- exceeds the cap by, or all of those rows if they are fewer; each gets one audit event. Every row that
-- it marks is less important than each of those rows that it spares, or as important and no younger, and
-- the count falls by the number of ids.
pub enforce_retention_cap_lem :
    (details : String) (org agent : Uuid) (type : MemoryType) (max_count now : ℕ) (s : State)
    → IsKeyed s.memories
    → (s' : State) × (ids : List Uuid) × (enforce_retention_cap details org agent type max_count now
          s
        ≡ ok (s', ids))
      × (s'.memories ≡ map (deleted_where now (picks ids)) s.memories)
      × All (λ m. is_candidate org agent type m ≡ true) (filter (picks ids) s.memories)
      × All
          (λ m.
            All
              (GoesBefore m)
              (filter (λ n. is_candidate org agent type n && not (picks ids n)) s.memories))
          (filter (picks ids) s.memories)
      × (length ids
          ≡ min
              (length (filter (is_counted org agent type) s.memories) - max_count)
              (length (filter (is_candidate org agent type) s.memories)))
      × (length (filter (is_counted org agent type) s'.memories) + length ids
          ≡ length (filter (is_counted org agent type) s.memories))
      × (events s'
          ≡ events s
            ++ map
                (event_of org AuditOperation.forget
                  (λ id. details)
                  (record no_context { agent_id = some agent }))
                ids)
unfolding enforce_retention_cap to_expire
enforce_retention_cap_lem details org agent type max_count now s k = by_count _ refl
  where
    counted : Memory → Bool
    counted = is_counted org agent type

    c : Context
    c = record no_context { agent_id = some agent }

    fit : Memory → Bool
    fit = is_candidate org agent type

    Conclusion : Result (State × List Uuid) → Type 0
    Conclusion outcome =
        (s' : State) × (them : List Uuid) × (outcome ≡ ok (s', them))
        × (s'.memories ≡ map (deleted_where now (picks them)) s.memories)
        × All (λ m. fit m ≡ true) (filter (picks them) s.memories)
        × All (λ m. All (GoesBefore m) (filter (λ n. fit n && not (picks them n)) s.memories))
            (filter (picks them) s.memories)
        × (length them
            ≡ min (length (filter counted s.memories) - max_count) (length (filter fit s.memories)))
        × (length (filter counted s'.memories) + length them ≡ length (filter counted s.memories))
        × (events s' ≡ events s ++ map (event_of org AuditOperation.forget (λ id. details) c) them)

    run :
        (excess : ℕ)
        → min excess (length (filter fit s.memories))
          ≡ min (length (filter counted s.memories) - max_count) (length (filter fit s.memories))
        → Conclusion
            (expire (λ id. details) org c now (victims org agent type excess s.memories k) s)
    run excess size =
        let them = victims org agent type excess s.memories k in
        let only = chosen org agent type excess s.memories k in
        let (s', e, m, v) =
          expire_lem (λ id. details) org c now fit them s k (λ m h. (ground arith)) only in
        (
          s',
          them,
          e,
          m,
          All-matching (picks them) fit s.memories only,
          order org agent type excess s.memories k,
          length-victims org agent type excess s.memories k ∙ size,
          ap (λ l. length (filter counted l) + length them) m
              ∙ counted_after org agent type excess s.memories k now,
          v,
        )

    by_count :
        (b : Bool)
        → leb (length (filter counted s.memories)) max_count ≡ b
        → Conclusion (enforce_retention_cap details org agent type max_count now s)
    by_count true e = rw e (run 0 (ground arith))
    by_count false e = rw e (run (length (filter counted s.memories) - max_count) refl)
