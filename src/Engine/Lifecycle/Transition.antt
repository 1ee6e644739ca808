-- ===== src/Engine/Lifecycle/Transition.antt =====
-- `transition_memory` under the trigger and the primary key.
use z3rno_core.Prelude.{
  ℕ, ◌≡◌, refl, Bool, true, false, ◌&&◌, String, Option, none, some, List, [], ◌∷◌, filter, any,
  head?, is_none, if◌then◌else◌, ◌==◌, Bool-cases, inl, inr, arith,
}
use z3rno_core.Models.{Uuid, MemoryType}
use z3rno_core.Result.{raise, value_error, unique_violation}
use z3rno_core.Memories.Table.{Memory, has_id}
use z3rno_core.Memories.Refused.{in_place-false, update_where-refused}
use z3rno_core.Engine.State.{State}
use z3rno_core.Engine.Lifecycle.{is_live, retype, transition_memory}

found :
    (p : Memory → Bool) (table : List Memory)
    → any p table ≡ true
    → (m : Memory) × (head? (filter p table) ≡ some m)
found p [] h = absurd (cc h)
found p (x ∷ xs) h = elim (Bool-cases (p x)) [
  | inl e ↦ (x, rw e)
  | inr e ↦ rw e (found p xs (rw e at h))
]

missing :
    (p : Memory → Bool) (table : List Memory) → any p table ≡ false → head? (filter p table) ≡ none
missing p [] h = refl
missing p (x ∷ xs) h = elim (Bool-cases (p x)) [
  | inl e ↦ absurd (ground arith)
  | inr e ↦ rw e (missing p xs (rw e at h))
]

any_mono :
    (p q : Memory → Bool) (table : List Memory)
    → ((m : Memory) → p m ≡ true → q m ≡ true)
    → any p table ≡ true
    → any q table ≡ true
any_mono p q [] f h = cc h
any_mono p q (x ∷ xs) f h = elim (Bool-cases (p x)) [
  | inl e ↦ rw (f x e)
  | inr e ↦ (let ih = any_mono p q xs f (rw e at h) in ground arith)
]

-- `transition_memory` never returns, whatever the two types are: the memory is not found, or the
-- version that the trigger inserts violates the primary key.
pub transition_memory-raises :
    (details : MemoryType → String) (org id : Uuid) (new_type : MemoryType) (agent : Option Uuid)
    (now : ℕ) (s : State)
    → transition_memory details org id new_type agent now s
      ≡ raise (if any (is_live org id) s.memories then unique_violation else value_error)
unfolding transition_memory
transition_memory-raises details org id new_type agent now s =
    elim (Bool-cases (any (is_live org id) s.memories)) [
      | inl e ↦
          let (m, h) = found (is_live org id) s.memories e in
          rw (
            h,
            e,
            update_where-refused now (λ m. (m.org_id == org) && (has_id id m && is_none m.valid_to))
                (retype new_type now) s.memories
                (λ m _. in_place-false m (retype new_type now m) refl refl refl refl refl)
                (any_mono (is_live org id) _ s.memories (λ m l. (ground arith)) e),
          )
      | inr e ↦ rw (missing (is_live org id) s.memories e, e)
    ]
