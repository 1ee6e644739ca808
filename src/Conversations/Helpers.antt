-- ===== src/Conversations/Helpers.antt =====
-- The conversations and the operations on them. The metadata of a row is its JSON text.
use text.Mathlib.Text.{◌==◌ as str_eq}
use z3rno_core.Prelude.{
  ℕ, ◌+◌, Bool, true, false, not, ◌&&◌, String, Option, none, some, List, [], ◌∷◌, ◌++◌, map,
  filter, any, take, head?, max, is_none, leb, ltb, if◌then◌else◌, ◌==◌,
}
use z3rno_core.Prelude.Sort.{sort}
use z3rno_core.Models.{Uuid}
use z3rno_core.Result.{
  Result, ok, raise, value_error, type_error, conversation_not_found, unique_violation,
  check_violation, ◌>>=◌, refuse,
}
use z3rno_core.Memories.Table.{Memory, has_id}
use z3rno_core.Memories.Scd.{update_where}

pub record Conversation : Type 0 where
  pub id : Uuid
  pub org_id : Uuid
  pub agent_id : Uuid
  pub user_id : Option Uuid
  pub title : Option String
  pub summary_cadence : ℕ
  pub turn_count : ℕ
  pub last_summary_turn : ℕ
  pub metadata : String
  pub created_at : ℕ
  pub updated_at : ℕ
  pub deleted_at : Option ℕ

pub record Turn : Type 0 where
  pub memory_id : Uuid
  pub turn_index : ℕ
  pub turn_role : String
  pub content : String
  pub created_at : ℕ

pub record State : Type 0 where
  pub conversations : List Conversation
  pub memories : List Memory

abbrev pub is_named : Uuid → Conversation → Bool
is_named id v = v.id == id

-- WHERE org_id = :org_id AND id = :id AND deleted_at IS NULL
abbrev pub is_open : Uuid → Uuid → Conversation → Bool
is_open org id v = (v.org_id == org) && (is_named id v && is_none v.deleted_at)

-- The CHECK constraints; a counter of the model is never negative.
abbrev pub meets_checks : Conversation → Bool
meets_checks v = leb 1 v.summary_cadence && leb v.last_summary_turn v.turn_count

abbrev pub or_not_found : Option Conversation → Result Conversation
or_not_found none = raise conversation_not_found
or_not_found (some v) = ok v

unfoldable pub get_conversation : Uuid → Uuid → State → Result Conversation
get_conversation org id s = or_not_found (head? (filter (is_open org id) s.conversations))

-- `new` holds the caller's arguments, the id that `uuid4()` gave and the time.
unfoldable pub create_conversation : Conversation → State → Result (State × Conversation)
unfolding get_conversation
create_conversation new s =
    let row : Conversation = record new {
      turn_count = 0;
      last_summary_turn = 0;
      deleted_at = none;
    } in
    refuse (ltb new.summary_cadence 1) value_error >>= λ _.
    (refuse (any (is_named new.id) s.conversations) unique_violation >>= λ _.
    (refuse (not (meets_checks row)) check_violation >>= λ _.
    (let s' : State = record s { conversations = s.conversations ++ row ∷ [] } in
      get_conversation new.org_id new.id s' >>= λ v. ok (s', v))))

abbrev pub valid_roles : List String
valid_roles = "user" ∷ "assistant" ∷ "system" ∷ "tool" ∷ "summary" ∷ []

-- UPDATE conversations SET … WHERE …
abbrev pub update_open :
    Uuid → Uuid → (Conversation → Conversation) → List Conversation → List Conversation
update_open org id set = map (λ v. if is_open org id v then set v else v)

abbrev pub bump : ℕ → Conversation → Conversation
bump now v = record v { turn_count = v.turn_count + 1; updated_at = now }

abbrev pub stamp : Uuid → ℕ → String → ℕ → Memory → Memory
stamp conversation turn_index turn_role now m = record m {
  conversation_id = some conversation;
  turn_index = some turn_index;
  turn_role = some turn_role;
  updated_at = now;
}

-- The UPDATE of the memory, which goes through the trigger of `memories`.
unfoldable pub stamp_memory :
    Uuid → Uuid → Uuid → String → ℕ → State → Conversation → Result (State × ℕ)
unfolding update_where
stamp_memory org id memory turn_role now s v =
    update_where now (λ m. (m.org_id == org) && has_id memory m)
      (stamp id v.turn_count turn_role now) s.memories
    >>= λ done. ok (record s { memories = done.0 }, v.turn_count)

-- The bumped row is what `RETURNING turn_count` reads.
unfoldable pub add_turn : Uuid → Uuid → Uuid → String → ℕ → State → Result (State × ℕ)
unfolding stamp_memory
add_turn org id memory turn_role now s =
    refuse (not (any (str_eq turn_role) valid_roles)) value_error >>= λ _.
    (or_not_found (head? (filter (is_open org id) s.conversations)) >>= λ v.
    stamp_memory org id memory turn_role now
      (record s { conversations = update_open org id (bump now) s.conversations }) (bump now v))

abbrev or_empty : Option String → String
or_empty none = ""
or_empty (some r) = r

-- The columns of the SELECT. `int()` raises on a row without an index.
abbrev pub turn_of : Memory → Result Turn
turn_of m = elim m.turn_index [
  | none ↦ raise type_error
  | some index ↦ ok (record {
    memory_id = m.id;
    turn_index = index;
    turn_role = or_empty m.turn_role;
    content = m.content;
    created_at = m.created_at;
  })
]

unfoldable pub turns_of : List Memory → Result (List Turn)
turns_of [] = ok []
turns_of (m ∷ ms) = turn_of m >>= λ t. (turns_of ms >>= λ ts. ok (t ∷ ts))

abbrev is_in : Option Uuid → Uuid → Bool
is_in none id = false
is_in (some c) id = c == id

abbrev is_after : Option ℕ → Option ℕ → Bool
is_after none index = true
is_after (some after) none = false
is_after (some after) (some index) = ltb after index

abbrev pub is_turn : Uuid → Uuid → Option ℕ → Memory → Bool
is_turn org id after_turn m =
    (m.org_id == org)
    && (is_in m.conversation_id id && (is_none m.deleted_at && is_after after_turn m.turn_index))

-- ORDER BY turn_index ASC, where NULLs come last
abbrev pub index_le : Memory → Memory → Bool
index_le a b = le a.turn_index b.turn_index
  where
    le : Option ℕ → Option ℕ → Bool
    le x none = true
    le none (some j) = false
    le (some i) (some j) = leb i j

abbrev limited {ℓ} : {A : Type ℓ} → Option ℕ → List A → List A
limited none xs = xs
limited (some n) xs = take n xs

unfoldable pub list_turns : Uuid → Uuid → Option ℕ → Option ℕ → State → Result (List Turn)
unfolding sort turns_of
list_turns org id limit after_turn s =
    turns_of (limited limit (sort index_le (filter (is_turn org id after_turn) s.memories)))

-- The subtraction is of integers: `last_summary_turn` never exceeds `turn_count`, by the CHECK.
unfoldable pub needs_summary : Conversation → Bool
needs_summary v = leb (v.last_summary_turn + v.summary_cadence) v.turn_count

unfoldable pub delete_conversation : Uuid → Uuid → ℕ → State → State × Bool
delete_conversation org id now s = (
  record s {
    conversations =
        update_open org id (λ v. record v { deleted_at = some now; updated_at = now })
          s.conversations;
  },
  any (is_open org id) s.conversations,
)

abbrev pub mark : ℕ → ℕ → Conversation → Conversation
mark through_turn now v = record v {
  last_summary_turn = max v.last_summary_turn through_turn;
  updated_at = now;
}

-- The UPDATE is refused where a row that it writes breaks a CHECK.
unfoldable pub mark_summary_emitted : Uuid → Uuid → ℕ → ℕ → State → Result State
mark_summary_emitted org id through_turn now s =
    refuse
      (any (λ v. is_open org id v && not (meets_checks (mark through_turn now v))) s.conversations)
      check_violation
    >>= λ _.
        ok (record s { conversations = update_open org id (mark through_turn now) s.conversations })
