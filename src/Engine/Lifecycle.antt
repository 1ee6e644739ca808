-- ===== src/Engine/Lifecycle.antt =====
-- engine/lifecycle.py: the TTL sweep, the retention cap and the transition between memory types.
use z3rno_core.Prelude.{
  ℕ, ◌≡◌, refl, sym, ap, ap₂, ◌∙◌, ◌-◌, subst, Bool, true, false, not, ◌&&◌, ◌||◌, String, Option,
  none, some, List, [], ◌∷◌, ◌++◌, map, filter, any, elem, length, take, head?, is_none, is_some,
  ltb, leb, if◌then◌else◌, ◌==◌, Bool-cases, Option-cases, inl, inr, In, arith,
}
use z3rno_core.Prelude.Sort.{sort}
use z3rno_core.Models.{Uuid, MemoryType, AuditOperation}
use z3rno_core.Result.{Result, ok, raise, value_error, unique_violation, ◌>>=◌}
use z3rno_core.Memories.Table.{Memory, has_id, type_eq, same_number, same_text}
use z3rno_core.Memories.Scd.{update_where, in_place}
use z3rno_core.Memories.Deleted.{mark_deleted, picks}
use z3rno_core.Engine.State.{State, Context, audited}
use z3rno_core.Engine.Forget.Delete.{audit_each}
pub mod Sweep
pub mod Ranked
pub mod Cap
pub mod Transition

abbrev pub no_context : Context
no_context = record {
  agent_id = none;
  user_id = none;
  api_key_id = none;
  ip_address = none;
  user_agent = none;
  request_id = none;
}

-- `ttl_expires_at < now() AND deleted_at IS NULL`
abbrev before : Option ℕ → ℕ → Bool
before none now = false
before (some t) now = ltb t now

abbrev pub is_expired : Uuid → ℕ → Memory → Bool
is_expired org now m = (m.org_id == org) && (before m.ttl_expires_at now && is_none m.deleted_at)

-- The deletion by ids, and one audit row for each. It raises only what the UPDATE raises.
unfoldable pub expire :
    (Uuid → String) → Uuid → Context → ℕ → List Uuid → State → Result (State × List Uuid)
unfolding update_where mark_deleted audit_each
expire details org c now [] s = ok (s, [])
expire details org c now (id ∷ ids) s =
    update_where now (picks (id ∷ ids)) (mark_deleted now) s.memories >>= λ done. ok (
      audit_each org AuditOperation.forget details c now (id ∷ ids)
          (record s { memories = done.0 }),
      id ∷ ids,
    )

-- `details` is the JSON text of the audit rows' details.
unfoldable pub sweep_expired_memories : String → Uuid → ℕ → State → Result (State × List Uuid)
unfolding expire
sweep_expired_memories details org now s =
    expire (λ id. details) org no_context now
      (map (λ m. m.id) (filter (is_expired org now) s.memories)) s

-- The rows that the cap counts.
abbrev pub is_counted : Uuid → Uuid → MemoryType → Memory → Bool
is_counted org agent type m =
    (m.org_id == org)
    && ((m.agent_id == agent)
        && (type_eq m.memory_type type && (is_none m.deleted_at && is_none m.valid_to)))

-- ORDER BY importance_score ASC, created_at ASC
abbrev pub less_important : Memory → Memory → Bool
less_important a b =
    ltb a.importance_score b.importance_score
    || ((a.importance_score == b.importance_score) && leb a.created_at b.created_at)

unfoldable pub to_expire : Uuid → Uuid → MemoryType → ℕ → List Memory → List Memory
unfolding sort
to_expire org agent type excess table =
    take excess
      (sort less_important (filter (λ m. is_counted org agent type m && not m.pinned) table))

unfoldable pub enforce_retention_cap :
    String → Uuid → Uuid → MemoryType → ℕ → ℕ → State → Result (State × List Uuid)
unfolding expire to_expire
enforce_retention_cap details org agent type max_count now s =
    let current_count = length (filter (is_counted org agent type) s.memories) in
    if leb current_count max_count
    then ok (s, [])
    else expire (λ id. details) org (record no_context { agent_id = some agent }) now
        (map (λ m. m.id) (to_expire org agent type (current_count - max_count) s.memories)) s

abbrev pub current_type : Option Memory → Result MemoryType
current_type none = raise value_error
current_type (some m) = ok m.memory_type

abbrev pub is_live : Uuid → Uuid → Memory → Bool
is_live org id m =
    (m.org_id == org) && (has_id id m && (is_none m.valid_to && is_none m.deleted_at))

abbrev pub retype : MemoryType → ℕ → Memory → Memory
retype new_type now m = record m { memory_type = new_type; updated_at = now }

-- The result is the old type; `details` gives the JSON text from it.
unfoldable pub transition_memory :
    (MemoryType → String)
    → Uuid
    → Uuid
    → MemoryType
    → Option Uuid
    → ℕ
    → State
    → Result (State × MemoryType)
unfolding update_where audited
transition_memory details org id new_type agent now s =
    current_type (head? (filter (is_live org id) s.memories)) >>= λ old_type.
    (update_where now (λ m. (m.org_id == org) && (has_id id m && is_none m.valid_to))
        (retype new_type now) s.memories
      >>= λ done. ok (
        audited org AuditOperation.update (some id) (some new_type) (details old_type)
            (record no_context { agent_id = agent }) now (record s { memories = done.0 }),
        old_type,
      ))
