-- ===== src/Engine/Update.antt =====
-- engine/update.py: `update_memory`, and its outcome under the trigger.
use z3rno_core.Prelude.{
  ℕ, ◌≡◌, refl, ap, String, Bool, false, ◌&&◌, Option, none, some, List, [], ◌∷◌, filter, any,
  head?, ltb, is_none, if◌then◌else◌, ◌==◌, Bool-cases, inl, inr, arith,
}
use z3rno_core.Models.{Uuid, AuditOperation}
use z3rno_core.Result.{
  Result, ok, raise, update_error, memory_not_found, unique_violation, ◌>>=◌, refuse,
}
use z3rno_core.Memories.Table.{Memory, has_id}
use z3rno_core.Memories.Scd.{update_where}
use z3rno_core.Memories.Refused.{in_place-false, update_where-refused}
use z3rno_core.Engine.State.{State, Context, audited, is_blank}
use z3rno_core.Engine.Get.{is_current, get_memory}

pub record Changes : Type 0 where
  pub content : Option String
  pub metadata : Option String
  pub importance : Option ℕ

abbrev or_old {ℓ} : {A : Type ℓ} → Option A → A → A
or_old none a = a
or_old (some b) a = b

-- The dynamic SET clause.
unfoldable pub set_clauses : Changes → ℕ → Memory → Memory
set_clauses ch now m = record m {
  content = or_old ch.content m.content;
  metadata = or_old ch.metadata m.metadata;
  importance_score = or_old ch.importance m.importance_score;
  updated_at = now;
}

abbrev blank_content : Option String → Bool
blank_content none = false
blank_content (some c) = is_blank c

-- `not (0.0 <= importance <= 1.0)`, in millionths.
abbrev bad_importance : Option ℕ → Bool
bad_importance none = false
bad_importance (some i) = ltb 1000000 i

unfoldable pub validate : Changes → Result (Unit {0})
validate ch =
    refuse (is_none ch.content && (is_none ch.metadata && is_none ch.importance)) update_error
    >>= λ _.
        (refuse (blank_content ch.content) update_error >>= λ _.
        refuse (bad_importance ch.importance) update_error)

abbrev agent_of : Option Memory → Option Uuid
agent_of none = none
agent_of (some m) = some m.agent_id

-- The agent for the audit row: the caller's, or that of the memory's current row.
unfoldable pub audit_agent : Uuid → Uuid → Context → State → Option Uuid
audit_agent org id c s = elim c.agent_id [
  | some a ↦ some a
  | none ↦
      agent_of
        (head? (filter (λ m. has_id id m && ((m.org_id == org) && is_none m.valid_to)) s.memories))
]

-- The audit row and the final fetch, once the UPDATE returned. `details` is the JSON text of the
-- audit row's details.
unfoldable pub finish :
    (Changes → String)
    → Uuid
    → Uuid
    → Changes
    → Context
    → ℕ
    → State
    → List Memory × ℕ
    → Result (State × Memory)
unfolding audit_agent get_memory audited
finish details org id ch c now s (memories, count) =
    let s1 : State = record s { memories = memories } in
    refuse (count == 0) memory_not_found >>= λ _.
    (let s2 : State =
        audited org AuditOperation.update (some id) none (details ch)
          (record c { agent_id = audit_agent org id c s1; user_id = none }) now s1 in
      get_memory org id false s2 >>= λ m. ok (s2, m))

unfoldable pub update_memory :
    (Changes → String) → Uuid → Uuid → Changes → Context → ℕ → State → Result (State × Memory)
unfolding validate set_clauses finish update_where
update_memory details org id ch c now s = validate ch >>= λ _.
    (update_where now (is_current org id false) (set_clauses ch now) s.memories
      >>= finish details org id ch c now s)

none_match :
    (where_ : Memory → Bool) (table : List Memory)
    → any where_ table ≡ false
    → filter where_ table ≡ []
none_match where_ [] h = refl
none_match where_ (m ∷ ms) h = let e = none_match where_ ms in ground arith

after_validation :
    (details : Changes → String) (org id : Uuid) (ch : Changes) (c : Context) (now : ℕ) (s : State)
    → (update_where now (is_current org id false) (set_clauses ch now) s.memories
        >>= finish details org id ch c now s)
      ≡ (if any (is_current org id false) s.memories
          then raise unique_violation
          else raise memory_not_found)
after_validation details org id ch c now s =
    elim (Bool-cases (any (is_current org id false) s.memories)) [
      | inl found ↦ rw (
        found,
        update_where-refused now (is_current org id false) (set_clauses ch now) s.memories
            (λ m _.
              unfold set_clauses in
              in_place-false m (set_clauses ch now m) refl refl refl refl refl)
            found,
      )
      | inr absent ↦ rw absent (
          unfold update_where finish in rw (none_match (is_current org id false) s.memories absent))
    ]

-- `update_memory` never returns: its arguments are refused, or the memory is not found, or the
-- version that the trigger inserts violates the primary key of the table.
pub update_memory-raises :
    (details : Changes → String) (org id : Uuid) (ch : Changes) (c : Context) (now : ℕ) (s : State)
    → update_memory details org id ch c now s ≡ (
        validate ch >>= λ _.
        (if any (is_current org id false) s.memories
          then raise unique_violation
          else raise memory_not_found))
unfolding update_memory
update_memory-raises details org id ch c now s =
    ap (λ r. validate ch >>= λ _. r) (after_validation details org id ch c now s)
