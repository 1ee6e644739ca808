-- ===== src/Conversations/Summary.antt =====
-- The cadence of summaries.
use z3rno_core.Prelude.{ℕ, suc, ◌+◌, ◌≡◌, refl, true, List, [], ◌∷◌, leb, arith}
use z3rno_core.Conversations.Helpers.{Conversation, meets_checks, bump, needs_summary, mark}

-- The row after `k` turns at the times of `times`.
abbrev pub bumps : List ℕ → Conversation → Conversation
bumps [] v = v
bumps (now ∷ times) v = bumps times (bump now v)

abbrev pub count : List ℕ → ℕ
count [] = 0
count (t ∷ ts) = suc (count ts)

bumps_lem :
    (times : List ℕ) (v : Conversation)
    → ((bumps times v).turn_count ≡ v.turn_count + count times)
      × ((bumps times v).last_summary_turn ≡ v.last_summary_turn)
      × ((bumps times v).summary_cadence ≡ v.summary_cadence)
bumps_lem [] v = (omega arith, refl, refl)
bumps_lem (t ∷ ts) v = let (a, b, c) = bumps_lem ts (bump t v) in (omega arith, b, c)

-- Once a summary through the last turn is recorded, the next one is due exactly when
-- `summary_cadence` more turns were added, on any row that meets the table's constraints.
pub needs_summary-bumps :
    (v : Conversation) (now : ℕ) (times : List ℕ)
    → meets_checks v ≡ true
    → needs_summary (bumps times (mark v.turn_count now v)) ≡ leb v.summary_cadence (count times)
unfolding needs_summary
needs_summary-bumps v now times h =
    let (a, b, c) = bumps_lem times (mark v.turn_count now v) in ground arith
