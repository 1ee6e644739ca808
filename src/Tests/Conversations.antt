-- ===== src/Tests/Conversations.antt =====
-- A conversation of organisation 7, to which memory 1 is added.
use text.Mathlib.Text.{◌==◌ as str_eq}
use z3rno_core.Prelude.{ℕ, ◌≡◌, refl, String, Option, none, [], ◌∷◌, map, any, leb, if◌then◌else◌}
use z3rno_core.Models.{Uuid}
use z3rno_core.Result.{ok, raise, value_error, conversation_not_found}
use z3rno_core.Conversations.Helpers.{
  Conversation, State, get_conversation, valid_roles, update_open, bump, add_turn, list_turns,
  needs_summary, delete_conversation, mark, mark_summary_emitted,
}
use z3rno_core.Conversations.Summary.{bumps, needs_summary-bumps}
use z3rno_core.Conversations.Steps.{IsLegal, add, delete, summarize}
use z3rno_core.Conversations.Growth.{Steps, stay, after, all_added, Later, Steps-Later}
use z3rno_core.Conversations.Turns.{stamped, delete_conversation_lem}
use z3rno_core.Tests.Rows.{memory}

abbrev conversation : Conversation
conversation = record {
  id = 30;
  org_id = 7;
  agent_id = 1;
  user_id = none;
  title = none;
  summary_cadence = 2;
  turn_count = 4;
  last_summary_turn = 1;
  metadata = "{}";
  created_at = 1;
  updated_at = 1;
  deleted_at = none;
}

abbrev state : State
state = record { conversations = conversation ∷ []; memories = memory 1 ∷ memory 2 ∷ [] }

needs_summary-bumps_example : needs_summary (bumps (6 ∷ 7 ∷ []) (mark 4 5 conversation)) ≡ leb 2 2
needs_summary-bumps_example = needs_summary-bumps conversation 5 (6 ∷ 7 ∷ []) refl

-- A turn is added, a summary is recorded, and the conversation is deleted.
abbrev with_turn : State
with_turn = record state {
  conversations = update_open 7 30 (bump 9) state.conversations;
  memories = map (stamped 7 1 30 5 "user" 9) state.memories;
}

abbrev with_summary : State
with_summary = record with_turn {
  conversations = update_open 7 30 (mark 3 10) with_turn.conversations;
}

turn_run : add_turn 7 30 1 "user" 9 state ≡ ok (with_turn, 5)
unfolding add_turn
turn_run = refl

summary_run : mark_summary_emitted 7 30 3 10 with_turn ≡ ok with_summary
unfolding mark_summary_emitted
summary_run = refl

abbrev ended : State
ended = (delete_conversation 7 30 11 with_summary).0

abbrev three_steps : Steps state ended
three_steps = after state with_turn ended (add 7 30 1 "user" 9 5 with_turn turn_run) (
    after with_turn with_summary ended (summarize 7 30 3 10 with_summary summary_run)
      (after with_summary ended ended (delete 7 30 11) (stay ended)))

Steps-Later_example :
    IsLegal ended
    × Later (all_added state ended three_steps) state.conversations ended.conversations
Steps-Later_example = Steps-Later state ended three_steps (refl, tt)

delete_conversation_lem_example :
    (get_conversation 7 30 (delete_conversation 7 30 9 state).0 ≡ raise conversation_not_found)
    × ((memory : Uuid) (role : String) (later : ℕ)
        → add_turn 7 30 memory role later (delete_conversation 7 30 9 state).0
          ≡ raise (if any (str_eq role) valid_roles then conversation_not_found else value_error))
    × ((limit after_turn : Option ℕ)
        → list_turns 7 30 limit after_turn (delete_conversation 7 30 9 state).0
          ≡ list_turns 7 30 limit after_turn state)
delete_conversation_lem_example = delete_conversation_lem 7 30 9 state
