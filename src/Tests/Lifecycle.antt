-- ===== src/Tests/Lifecycle.antt =====
-- The sweep and the cap on four memories.
use z3rno_core.Prelude.{
  ◌≡◌, ◌-◌, ◌+◌, ◌&&◌, not, refl, some, List, [], ◌++◌, map, filter, length, min, All, true,
}
use z3rno_core.Models.{Uuid, AuditOperation, semantic}
use z3rno_core.Result.{ok}
use z3rno_core.Memories.Deleted.{deleted_where, picks}
use z3rno_core.Engine.State.{State}
use z3rno_core.Engine.Forget.After.{events, event_of}
use z3rno_core.Engine.Lifecycle.{
  no_context, is_expired, sweep_expired_memories, is_counted, enforce_retention_cap,
}
use z3rno_core.Engine.Lifecycle.Sweep.{sweep_expired_memories_lem}
use z3rno_core.Engine.Lifecycle.Ranked.{is_candidate, GoesBefore}
use z3rno_core.Engine.Lifecycle.Cap.{enforce_retention_cap_lem}
use z3rno_core.Tests.Rows.{four}

sweep_expired_memories_lem_example :
    (s' : State) × (sweep_expired_memories "{}" 7 9 four
      ≡ ok (s', map (λ m. m.id) (filter (is_expired 7 9) four.memories)))
    × (s'.memories ≡ map (deleted_where 9 (is_expired 7 9)) four.memories)
    × (filter (is_expired 7 9) s'.memories ≡ [])
    × (events s'
        ≡ events four
          ++ map
              (event_of 7 AuditOperation.forget (λ id. "{}") no_context)
              (map (λ m. m.id) (filter (is_expired 7 9) four.memories)))
sweep_expired_memories_lem_example =
    sweep_expired_memories_lem "{}" 7 9 four (refl, (refl, (refl, (refl, tt))))

enforce_retention_cap_lem_example :
    (s' : State) × (ids : List Uuid) × (enforce_retention_cap "{}" 7 1 semantic 3 9 four
      ≡ ok (s', ids))
    × (s'.memories ≡ map (deleted_where 9 (picks ids)) four.memories)
    × All (λ m. is_candidate 7 1 semantic m ≡ true) (filter (picks ids) four.memories)
    × All
        (λ m.
          All
            (GoesBefore m)
            (filter (λ n. is_candidate 7 1 semantic n && not (picks ids n)) four.memories))
        (filter (picks ids) four.memories)
    × (length ids
        ≡ min
            (length (filter (is_counted 7 1 semantic) four.memories) - 3)
            (length (filter (is_candidate 7 1 semantic) four.memories)))
    × (length (filter (is_counted 7 1 semantic) s'.memories) + length ids
        ≡ length (filter (is_counted 7 1 semantic) four.memories))
    × (events s'
        ≡ events four
          ++ map
              (event_of 7 AuditOperation.forget
                (λ id. "{}")
                (record no_context { agent_id = some 1 }))
              ids)
enforce_retention_cap_lem_example =
    enforce_retention_cap_lem "{}" 7 1 semantic 3 9 four (refl, (refl, (refl, (refl, tt))))
