-- ===== src/Conversations/Steps.antt =====
-- Sequences of the operations that write the table, and how its rows change under them.
use z3rno_core.Prelude.{
  ℕ, ◌+◌, ◌≡◌, sym, ap, subst, Bool, true, false, not, ◌&&◌, String, none, some, List, [], ◌∷◌,
  ◌++◌, filter, any, head?, ltb, Bool-cases, inl, inr, All, All-append, arith,
}
use text.Mathlib.Text.{◌==◌ as str_eq}
use z3rno_core.Models.{Uuid}
use z3rno_core.Result.{
  Result, ok, raise, value_error, unique_violation, check_violation, refuse, returned, passed,
}
use z3rno_core.Memories.Scd.{update_where}
use z3rno_core.Conversations.Helpers.{
  Conversation, State, is_open, is_named, meets_checks, get_conversation, create_conversation,
  valid_roles, update_open, bump, stamp, stamp_memory, or_not_found, add_turn, delete_conversation,
  mark, mark_summary_emitted,
}

abbrev pub IsLegal : State → Type 0
IsLegal s = All (λ v. meets_checks v ≡ true) s.conversations

-- The operations that write the table.
pub data Step (s : State) : State → Type 0 where
  create : (new v : Conversation) (s' : State) → create_conversation new s ≡ ok (s', v) → Step s s'
  add :
      (org id memory : Uuid) (role : String) (now index : ℕ) (s' : State)
      → add_turn org id memory role now s ≡ ok (s', index)
      → Step s s'
  delete : (org id : Uuid) (now : ℕ) → Step s (delete_conversation org id now s).0
  summarize :
      (org id : Uuid) (through_turn now : ℕ) (s' : State)
      → mark_summary_emitted org id through_turn now s ≡ ok s'
      → Step s s'

All-update_open :
    (org id : Uuid) (set : Conversation → Conversation) (xs : List Conversation)
    → All (λ v. meets_checks v ≡ true) xs
    → All (λ v. (is_open org id v && not (meets_checks (set v))) ≡ false) xs
    → All (λ v. meets_checks v ≡ true) (update_open org id set xs)
All-update_open org id set [] a b = tt
All-update_open org id set (x ∷ xs) a b = elim (Bool-cases (is_open org id x)) [
  | inl e ↦ rw e ((let c = b.0 in ground arith), All-update_open org id set xs a.1 b.1)
  | inr e ↦ rw e (a.0, All-update_open org id set xs a.1 b.1)
]

none_of_any :
    (p : Conversation → Bool) (xs : List Conversation)
    → any p xs ≡ false
    → All (λ v. p v ≡ false) xs
none_of_any p [] h = tt
none_of_any p (x ∷ xs) h = ((ground arith), none_of_any p xs (ground arith))

always_legal :
    (org id : Uuid) (set : Conversation → Conversation) (xs : List Conversation)
    → ((v : Conversation) → meets_checks v ≡ true → meets_checks (set v) ≡ true)
    → All (λ v. meets_checks v ≡ true) xs
    → All (λ v. meets_checks v ≡ true) (update_open org id set xs)
always_legal org id set [] f a = tt
always_legal org id set (x ∷ xs) f a = elim (Bool-cases (is_open org id x)) [
  | inl e ↦ rw e (f x a.0, always_legal org id set xs f a.1)
  | inr e ↦ rw e (a.0, always_legal org id set xs f a.1)
]

abbrev pub begun : Conversation → Conversation
begun new = record new { turn_count = 0; last_summary_turn = 0; deleted_at = none }

-- What a call that returned has made of the table.
pub created-rows :
    (new v : Conversation) (s s' : State)
    → create_conversation new s ≡ ok (s', v)
    → (s'.conversations ≡ s.conversations ++ begun new ∷ []) × (meets_checks (begun new) ≡ true)
unfolding create_conversation
created-rows new v s s' h =
    let row = begun new in
    let (u1, p1, h1) = returned (refuse (ltb new.summary_cadence 1) value_error) _ _ h in
    let (u2, p2, h2) =
      returned (refuse (any (is_named new.id) s.conversations) unique_violation) _ _ h1 in
    let (u3, p3, h3) = returned (refuse (not (meets_checks row)) check_violation) _ _ h2 in
    let s1 : State = record s { conversations = s.conversations ++ row ∷ [] } in
    let (v1, p4, h4) = returned (get_conversation new.org_id new.id s1) (λ w. ok (s1, w)) _ h3 in
    let good = passed (not (meets_checks row)) check_violation u3 p3 in
    (sym (rows_of s1 s' v1 v h4), ground arith)
  where
    rows_of :
        (a b : State) (x y : Conversation)
        → Path (Result (State × Conversation)) (ok (a, x)) (ok (b, y))
        → a.conversations ≡ b.conversations
    rows_of a b x y e = ap (λ r. elim r [ ok p ↦ p.0.conversations | raise z ↦ a.conversations ]) e

pub added-rows :
    (org id memory : Uuid) (role : String) (now index : ℕ) (s s' : State)
    → add_turn org id memory role now s ≡ ok (s', index)
    → s'.conversations ≡ update_open org id (bump now) s.conversations
unfolding add_turn stamp_memory
added-rows org id memory role now index s s' h =
    let (u1, p1, h1) = returned (refuse (not (any (str_eq role) valid_roles)) value_error) _ _ h in
    let (v, p2, h2) =
      returned (or_not_found (head? (filter (is_open org id) s.conversations))) _ _ h1 in
    let (done, p3, h3) =
      returned (update_where now _ (stamp id (v.turn_count + 1) role now) s.memories) _ _ h2 in
    sym (rows_of _ s' _ index h3)
  where
    rows_of :
        (a b : State) (x y : ℕ)
        → Path (Result (State × ℕ)) (ok (a, x)) (ok (b, y))
        → a.conversations ≡ b.conversations
    rows_of a b x y e = ap (λ r. elim r [ ok p ↦ p.0.conversations | raise z ↦ a.conversations ]) e

abbrev broken : Uuid → Uuid → ℕ → ℕ → Conversation → Bool
broken org id through_turn now v = is_open org id v && not (meets_checks (mark through_turn now v))

pub summarized-rows :
    (org id : Uuid) (through_turn now : ℕ) (s s' : State)
    → mark_summary_emitted org id through_turn now s ≡ ok s'
    → (s'.conversations ≡ update_open org id (mark through_turn now) s.conversations)
      × (any (broken org id through_turn now) s.conversations ≡ false)
unfolding mark_summary_emitted
summarized-rows org id through_turn now s s' h =
    let bad = any (broken org id through_turn now) s.conversations in
    let (u, p, h1) = returned (refuse bad check_violation) _ _ h in
    (sym (rows_of _ s' h1), passed bad check_violation u p)
  where
    rows_of : (a b : State) → Path (Result State) (ok a) (ok b) → a.conversations ≡ b.conversations
    rows_of a b e = ap (λ r. elim r [ ok p ↦ p.conversations | raise z ↦ a.conversations ]) e

pub Step-IsLegal : (s s' : State) → Step s s' → IsLegal s → IsLegal s'
Step-IsLegal s s' (create new v _ e) legal =
    let (rows, good) = created-rows new v s s' e in
    subst (All (λ w. meets_checks w ≡ true)) (sym rows)
      (All-append _ s.conversations (begun new ∷ []) legal (good, tt))
Step-IsLegal s s' (add org id memory role now index _ e) legal =
    subst (All (λ w. meets_checks w ≡ true)) (sym (added-rows org id memory role now index s s' e))
      (always_legal org id (bump now) s.conversations (λ w k. (ground arith)) legal)
Step-IsLegal s _ (delete org id now) legal =
    unfold delete_conversation in
    always_legal org id (λ v. record v { deleted_at = some now; updated_at = now }) s.conversations
      (λ v k. k) legal
Step-IsLegal s s' (summarize org id through_turn now _ e) legal =
    let (rows, good) = summarized-rows org id through_turn now s s' e in
    subst (All (λ w. meets_checks w ≡ true)) (sym rows) (
      All-update_open org id (mark through_turn now) s.conversations legal
        (none_of_any (broken org id through_turn now) s.conversations good))
