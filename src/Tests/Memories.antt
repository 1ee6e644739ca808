-- ===== src/Tests/Memories.antt =====
-- Updates of `memories`.
use z3rno_core.Prelude.{◌≡◌, refl, [], ◌∷◌, inl, inr, false, none, some, any, if◌then◌else◌}
use z3rno_core.Models.{episodic}
use z3rno_core.Result.{Error, raise, unique_violation, memory_not_found, ◌>>=◌}
use z3rno_core.Engine.Get.{is_current}
use z3rno_core.Engine.Update.{Changes, validate, update_memory, update_memory-raises}
use z3rno_core.Engine.Lifecycle.{is_live, transition_memory}
use z3rno_core.Engine.Lifecycle.Transition.{transition_memory-raises}
use z3rno_core.Temporal.Queries.{is_valid_at, get_memory_history, get_memory_at_time}
use z3rno_core.Temporal.Queries.Single.{get_memory_history-single}
use z3rno_core.Tests.Rows.{memory, four, caller}

abbrev new_content : Changes
new_content = record { content = some "likes coffee"; metadata = none; importance = none }

update_memory-raises_example : update_memory (λ ch. "{}") 7 2 new_content caller 9 four ≡ (
    validate new_content >>= λ _.
    (if any (is_current 7 2 false) four.memories
      then raise unique_violation
      else raise memory_not_found))
update_memory-raises_example = update_memory-raises (λ ch. "{}") 7 2 new_content caller 9 four

transition_memory-raises_example :
    transition_memory (λ t. "{}") 7 2 episodic (some 1) 9 four
    ≡ raise (if any (is_live 7 2) four.memories then unique_violation else Error.value_error)
transition_memory-raises_example = transition_memory-raises (λ t. "{}") 7 2 episodic (some 1) 9 four

-- Memory 3 is read within its validity.
get_memory_history-single_example :
    (get_memory_history 3 four.memories ≡ memory 3 ∷ [])
    × (get_memory_at_time 3 5 four.memories
        ≡ (if is_valid_at 5 (memory 3) then some (memory 3) else none))
get_memory_history-single_example =
    get_memory_history-single 5 (memory 3) four.memories (refl, (refl, (refl, (refl, tt))))
      (inr (inr (inl refl)))
