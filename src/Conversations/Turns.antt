-- ===== src/Conversations/Turns.antt =====
-- Adding a turn, and a conversation after its deletion.
use z3rno_core.Prelude.{
  ℕ, ◌≡◌, refl, ap, ◌&&◌, String, Option, some, List, [], ◌∷◌, filter, any, head?, if◌then◌else◌,
  ◌==◌, Bool-cases, inl, inr, arith,
}
use text.Mathlib.Text.{◌==◌ as str_eq}
use z3rno_core.Models.{Uuid}
use z3rno_core.Result.{raise, value_error, conversation_not_found}
use z3rno_core.Memories.Table.{Memory, has_id}
use z3rno_core.Conversations.Helpers.{
  Conversation, State, is_open, get_conversation, valid_roles, update_open, stamp, or_not_found,
  add_turn, list_turns, delete_conversation,
}

none_open :
    (org id : Uuid) (now : ℕ) (xs : List Conversation)
    → filter
        (is_open org id)
        (update_open org id (λ v. record v { deleted_at = some now; updated_at = now }) xs)
      ≡ []
none_open org id now [] = refl
none_open org id now (x ∷ xs) = elim (Bool-cases (is_open org id x)) [
  | inl e ↦ (let ih = none_open org id now xs in rw e (ground arith))
  | inr e ↦ rw (e, e) (none_open org id now xs)
]

-- Once deleted, a conversation is not found and takes no turn, of whatever role; `list_turns` returns
-- what it returned before.
pub delete_conversation_lem :
    (org id : Uuid) (now : ℕ) (s : State)
    → (get_conversation org id (delete_conversation org id now s).0 ≡ raise conversation_not_found)
      × ((memory : Uuid) (role : String) (later : ℕ)
          → add_turn org id memory role later (delete_conversation org id now s).0
            ≡ raise (if any (str_eq role) valid_roles then conversation_not_found else value_error))
      × ((limit after_turn : Option ℕ)
          → list_turns org id limit after_turn (delete_conversation org id now s).0
            ≡ list_turns org id limit after_turn s)
unfolding delete_conversation get_conversation add_turn list_turns
delete_conversation_lem org id now s = (
  ap (λ l. or_not_found (head? l)) (none_open org id now s.conversations),
  (λ memory role later. elim (Bool-cases (any (str_eq role) valid_roles)) [
    | inl e ↦ rw (e, none_open org id now s.conversations)
    | inr e ↦ rw e
  ]),
  λ limit after_turn. refl,
)

abbrev pub stamped : Uuid → Uuid → Uuid → ℕ → String → ℕ → Memory → Memory
stamped org memory id index role now m =
    if (m.org_id == org) && has_id memory m then stamp id index role now m else m
