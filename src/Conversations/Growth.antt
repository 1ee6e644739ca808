-- ===== src/Conversations/Growth.antt =====
-- What a sequence of operations makes of each conversation.
use z3rno_core.Prelude.{
  ℕ, suc, ◌+◌, ◌≡◌, ◌≤◌, ◌⊎◌, refl, sym, ap, ◌∙◌, subst, true, false, ◌&&◌, some, List, [], ◌∷◌,
  ◌++◌, is_none, ◌==◌, if◌then◌else◌, Bool-cases, inl, inr, arith,
}
use z3rno_core.Models.{Uuid}
use z3rno_core.Conversations.Helpers.{
  Conversation, State, is_open, update_open, bump, mark, delete_conversation,
}
use z3rno_core.Conversations.Steps.{
  Step, create, add, delete, summarize, IsLegal, Step-IsLegal, begun, created-rows, added-rows,
  summarized-rows,
}

pub data Steps : State → State → Type 0 where
  stay : (s : State) → Steps s s
  after : (s s1 s' : State) → Step s s1 → Steps s1 s' → Steps s s'

-- The organisation and the conversation of each turn that a step or a sequence adds.
abbrev pub added : (s s' : State) → Step s s' → List (Uuid × Uuid)
added s s' (create new v _ e) = []
added s s' (add org id memory role now index _ e) = (org, id) ∷ []
added s _ (delete org id now) = []
added s s' (summarize org id through_turn now _ e) = []

abbrev pub all_added : (s s' : State) → Steps s s' → List (Uuid × Uuid)
all_added s s' (stay _) = []
all_added s s' (after _ s1 _ first rest) = added s s1 first ++ all_added s1 s' rest

abbrev pub turns_in : Uuid → Uuid → List (Uuid × Uuid) → ℕ
turns_in org id [] = 0
turns_in org id ((o, i) ∷ rest) =
    if (org == o) && (id == i) then suc (turns_in org id rest) else turns_in org id rest

-- How a conversation `w` comes from `v` while turns are added as in `log`.
pub record Grown (log : List (Uuid × Uuid)) (v w : Conversation) : Type 0 where
  pub same_id : w.id ≡ v.id
  pub same_org : w.org_id ≡ v.org_id
  pub same_cadence : w.summary_cadence ≡ v.summary_cadence
  pub more_turns : v.turn_count ≤ w.turn_count
  pub more_summaries : v.last_summary_turn ≤ w.last_summary_turn
  pub frozen : (w ≡ v) ⊎ (is_none v.deleted_at ≡ true)
  pub counted :
      (is_none w.deleted_at ≡ false) ⊎ (w.turn_count ≡ v.turn_count + turns_in v.org_id v.id log)

-- The conversations of a table, in their order, before those that came later.
abbrev pub Later : List (Uuid × Uuid) → List Conversation → List Conversation → Type 0
Later log [] ws = Unit
Later log (v ∷ vs) [] = ⊥
Later log (v ∷ vs) (w ∷ ws) = Grown log v w × Later log vs ws

turns_in-append :
    (org id : Uuid) (l k : List (Uuid × Uuid))
    → turns_in org id (l ++ k) ≡ turns_in org id l + turns_in org id k
turns_in-append org id [] k = omega arith
turns_in-append org id ((o, i) ∷ l) k = let ih = turns_in-append org id l k in ground arith

no_growth : (v : Conversation) → Grown [] v v
no_growth v = record {
  same_id = refl;
  same_org = refl;
  same_cadence = refl;
  more_turns = omega arith;
  more_summaries = omega arith;
  frozen = inl refl;
  counted = inr (omega arith);
}

growth_adds :
    (l k : List (Uuid × Uuid)) (u v w : Conversation)
    → Grown l u v
    → Grown k v w
    → Grown (l ++ k) u w
growth_adds l k u v w g h = record {
  same_id = h.same_id ∙ g.same_id;
  same_org = h.same_org ∙ g.same_org;
  same_cadence = h.same_cadence ∙ g.same_cadence;
  more_turns = (let a = g.more_turns in let b = h.more_turns in omega arith);
  more_summaries = (let a = g.more_summaries in let b = h.more_summaries in omega arith);
  frozen = still g.frozen h.frozen;
  counted = sum g.counted h.frozen h.counted;
}
  where
    still :
        (v ≡ u) ⊎ (is_none u.deleted_at ≡ true)
        → (w ≡ v) ⊎ (is_none v.deleted_at ≡ true)
        → (w ≡ u) ⊎ (is_none u.deleted_at ≡ true)
    still (inr live) b = inr live
    still (inl a) (inl b) = inl (b ∙ a)
    still (inl a) (inr b) = inr (subst (λ x. is_none x.deleted_at ≡ true) a b)

    sum :
        (is_none v.deleted_at ≡ false) ⊎ (v.turn_count ≡ u.turn_count + turns_in u.org_id u.id l)
        → (w ≡ v) ⊎ (is_none v.deleted_at ≡ true)
        → (is_none w.deleted_at ≡ false) ⊎ (w.turn_count ≡ v.turn_count + turns_in v.org_id v.id k)
        → (is_none w.deleted_at ≡ false)
          ⊎ (w.turn_count ≡ u.turn_count + turns_in u.org_id u.id (l ++ k))
    sum a b (inl gone) = inl gone
    sum (inl a) (inl b) c = inl (subst (λ x. is_none x.deleted_at ≡ false) (sym b) a)
    sum (inl a) (inr b) c = absurd (cc (a, b))
    sum (inr a) b (inr c) =
        let more = turns_in-append u.org_id u.id l k in
        let moved : turns_in v.org_id v.id k ≡ turns_in u.org_id u.id k =
          ap (λ o. turns_in o v.id k) g.same_org ∙ ap (λ i. turns_in u.org_id i k) g.same_id in
        inr (omega arith)

unchanged : (xs : List Conversation) → Later [] xs xs
unchanged [] = tt
unchanged (x ∷ xs) = (no_growth x, unchanged xs)

Later-append : (xs ys : List Conversation) → Later [] xs (xs ++ ys)
Later-append [] ys = tt
Later-append (x ∷ xs) ys = (no_growth x, Later-append xs ys)

in_turn :
    (l k : List (Uuid × Uuid)) (xs ys zs : List Conversation)
    → Later l xs ys
    → Later k ys zs
    → Later (l ++ k) xs zs
in_turn l k [] ys zs g h = tt
in_turn l k (x ∷ xs) [] zs g h = absurd g
in_turn l k (x ∷ xs) (y ∷ ys) [] g h = absurd h
in_turn l k (x ∷ xs) (y ∷ ys) (z ∷ zs) g h =
    (growth_adds l k x y z g.0 h.0, in_turn l k xs ys zs g.1 h.1)

Later-update_open :
    (log : List (Uuid × Uuid)) (org id : Uuid) (set : Conversation → Conversation)
    → ((v : Conversation) → Grown log v (if is_open org id v then set v else v))
    → (xs : List Conversation) → Later log xs (update_open org id set xs)
Later-update_open log org id set f [] = tt
Later-update_open log org id set f (x ∷ xs) = (f x, Later-update_open log org id set f xs)

-- A row that the UPDATE does not match, or that it matches.
bump-Grown :
    (org id : Uuid) (now : ℕ) (v : Conversation)
    → Grown ((org, id) ∷ []) v (if is_open org id v then bump now v else v)
bump-Grown org id now v = elim (Bool-cases (is_open org id v)) [
  | inl e ↦ rw e (record {
    same_id = refl;
    same_org = refl;
    same_cadence = refl;
    more_turns = omega arith;
    more_summaries = omega arith;
    frozen = inr (ground arith);
    counted = inr (ground arith);
  })
  | inr e ↦ rw e (record {
    same_id = refl;
    same_org = refl;
    same_cadence = refl;
    more_turns = omega arith;
    more_summaries = omega arith;
    frozen = inl refl;
    counted = elim (Bool-cases (is_none v.deleted_at)) [
      | inl live ↦ inr (ground arith)
      | inr gone ↦ inl gone
    ];
  })
]

-- An UPDATE of an open row that leaves its identity, its cadence and its turns alone.
kept :
    (org id : Uuid) (set : Conversation → Conversation) (v : Conversation)
    → ((set v).id ≡ v.id)
      × ((set v).org_id ≡ v.org_id)
      × ((set v).summary_cadence ≡ v.summary_cadence)
      × ((set v).turn_count ≡ v.turn_count)
      × (v.last_summary_turn ≤ (set v).last_summary_turn)
    → Grown [] v (if is_open org id v then set v else v)
kept org id set v a = elim (Bool-cases (is_open org id v)) [
  | inl e ↦ rw e (record {
    same_id = a.0;
    same_org = a.1;
    same_cadence = a.2;
    more_turns = (let b = a.3 in omega arith);
    more_summaries = a.4;
    frozen = inr (ground arith);
    counted = inr (let b = a.3 in omega arith);
  })
  | inr e ↦ rw e (no_growth v)
]

Step-Later :
    (s s' : State) (step : Step s s') → Later (added s s' step) s.conversations s'.conversations
Step-Later s s' (create new v _ e) =
    subst (Later [] s.conversations) (sym (created-rows new v s s' e).0)
      (Later-append s.conversations (begun new ∷ []))
Step-Later s s' (add org id memory role now index _ e) =
    subst (Later ((org, id) ∷ []) s.conversations)
      (sym (added-rows org id memory role now index s s' e))
      (Later-update_open ((org, id) ∷ []) org id (bump now) (bump-Grown org id now) s.conversations)
Step-Later s _ (delete org id now) =
    unfold delete_conversation in
    Later-update_open [] org id (λ v. record v { deleted_at = some now; updated_at = now })
      (λ v.
        kept org id (λ x. record x { deleted_at = some now; updated_at = now }) v
          (refl, refl, refl, refl, omega arith))
      s.conversations
Step-Later s s' (summarize org id through_turn now _ e) =
    subst (Later [] s.conversations) (sym (summarized-rows org id through_turn now s s' e).0) (
      Later-update_open [] org id (mark through_turn now)
        (λ v. kept org id (mark through_turn now) v (refl, refl, refl, refl, ground arith))
        s.conversations)

-- From a table that meets its constraints, any sequence of operations that return keeps them: the
-- cadence of each conversation is positive, and no summary reaches beyond its last turn. Each
-- conversation keeps its place, id, organisation and cadence, and neither its turns nor its summaries go
-- back. Once deleted it does not change, and while it is not, its turns grow by exactly the turns that
-- the sequence adds to it.
pub Steps-Later :
    (s s' : State) (steps : Steps s s')
    → IsLegal s
    → IsLegal s' × Later (all_added s s' steps) s.conversations s'.conversations
Steps-Later s s' (stay _) legal = (legal, unchanged s.conversations)
Steps-Later s s' (after _ s1 _ first rest) legal =
    let (good, later) = Steps-Later s1 s' rest (Step-IsLegal s s1 first legal) in
    (
      good,
      in_turn (added s s1 first) (all_added s1 s' rest) s.conversations s1.conversations
          s'.conversations (Step-Later s s1 first) later,
    )
