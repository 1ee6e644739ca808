-- ===== src/Refine/Dedupe/Raises.antt =====
-- What the stage does to the memories.
use text.Mathlib.TextPositions.{eq_refl}
use z3rno_core.Prelude.{
  ℕ, ◌≡◌, ◌≤◌, refl, sym, ap₂, ◌∙◌, subst, Bool, true, false, ◌||◌, String, Option, List, [], ◌∷◌,
  map, filter, any, length, In, All, is_none, if◌then◌else◌, ==_refl, Bool-cases, Option-cases, inl,
  inr, arith,
}
use z3rno_core.Prelude.Filter.{All-filter}
use z3rno_core.Prelude.Sort.{sort, All-sort}
use z3rno_core.Models.{Uuid}
use z3rno_core.Result.{Result, ok, raise, unique_violation, ◌>>=◌}
use z3rno_core.Memories.Table.{Memory, has_id}
use z3rno_core.Memories.Scd.{in_place, only_deleted}
use z3rno_core.Memories.InPlace.{IsKeyed, update_where-in_place}
use z3rno_core.Memories.Refused.{
  same_number_refl, same_text_refl, in_place-false, update_where-refused,
}
use z3rno_core.Memories.Deleted.{bool_eq_refl, type_eq_refl, In-any}
use z3rno_core.Engine.State.{State, Transaction, active}
use z3rno_core.Refine.Dedupe.{
  DedupeGroup, DedupeResult, DedupeRow, group_rows, is_in_scope, older, typed_row, scan, is_loser,
  mark_superseded, stamp_lineage, merge_group, merge_groups, run_dedupe,
}
use z3rno_core.Refine.Dedupe.Buckets.{members}
use z3rno_core.Refine.Dedupe.Groups.{ids_of, group_rows-members}

mark_superseded-in_place :
    (now : ℕ) (m : Memory) → is_none m.deleted_at ≡ true → in_place m (mark_superseded now m) ≡ true
unfolding in_place only_deleted
mark_superseded-in_place now m h = elim (Option-cases m.deleted_at) [
  | inr (t, e) ↦ (let k : false ≡ true = rw e at h in cc k)
  | inl e ↦ rw (
    e,
    eq_refl m.content,
    same_text_refl m.summary,
    ==_refl m.importance_score,
    ==_refl m.recall_count,
    same_number_refl m.last_recalled_at,
    bool_eq_refl m.pinned,
    bool_eq_refl m.quarantined,
    ==_refl m.anomaly_score,
    type_eq_refl m.memory_type,
  )
]

any-map :
    (p : Memory → Bool) (f : Memory → Memory) (xs : List Memory)
    → ((m : Memory) → p (f m) ≡ p m)
    → any p (map f xs) ≡ any p xs
any-map p f [] h = refl
any-map p f (x ∷ xs) h = ap₂ (λ a b. a || b) (h x) (any-map p f xs h)

-- The first group ends the stage: the losers are closed, and the stamp on the primary is refused.
merge_group-raises :
    (merge : List Uuid → String → String) (properties : DedupeGroup → String) (org : Uuid) (now : ℕ)
    (g : DedupeGroup) (s : State)
    → IsKeyed s.memories
    → any (has_id g.primary_id) s.memories ≡ true
    → merge_group merge properties org now g s ≡ raise unique_violation
unfolding merge_group
merge_group-raises merge properties org now g s keyed here =
    let loser = is_loser g.loser_ids in
    let closed : List Memory = map (λ m. if loser m then mark_superseded now m else m) s.memories in
    let first =
      update_where-in_place now loser (mark_superseded now) (λ m. refl)
        (λ m h. mark_superseded-in_place now m (let a = is_none m.deleted_at in ground arith))
        s.memories keyed in
    let still : any (has_id g.primary_id) closed ≡ true =
      any-map (has_id g.primary_id) _ s.memories
        (λ m. elim (Bool-cases (loser m)) [ inl e ↦ rw e | inr e ↦ rw e ])
      ∙ here in
    rw (
      first,
      update_where-refused now (has_id g.primary_id) (stamp_lineage merge now g.loser_ids) closed
          (λ m h. in_place-false m (stamp_lineage merge now g.loser_ids m) refl refl refl refl refl)
          still,
    )

here_all :
    (table xs : List Memory)
    → ((m : Memory) → In m xs → In m table)
    → All (λ m. any (has_id m.id) table ≡ true) xs
here_all table [] inc = tt
here_all table (x ∷ xs) inc =
    (In-any table x (inc x (inl refl)), here_all table xs (λ m i. inc m (inr i)))

All-typed :
    (P : Uuid → Type 0) (xs : List Memory)
    → All (λ m. P m.id) xs
    → All (λ (r : DedupeRow). P r.id) (map typed_row xs)
All-typed P [] a = tt
All-typed P (x ∷ xs) a = (a.0, All-typed P xs a.1)

All-ids :
    (P : Uuid → Type 0) (rs : List DedupeRow) → All (λ r. P r.id) rs → All P (map (λ r. r.id) rs)
All-ids P [] a = tt
All-ids P (r ∷ rs) a = (a.0, All-ids P rs a.1)

scan-here :
    (org : Uuid) (dataset : Option Uuid) (table : List Memory)
    → All (λ (r : DedupeRow). any (has_id r.id) table ≡ true) (scan org dataset table)
unfolding scan
scan-here org dataset table =
    All-typed (λ id. any (has_id id) table ≡ true)
      (sort older (filter (is_in_scope org dataset) table))
      (All-sort older (λ (m : Memory). any (has_id m.id) table ≡ true) _
        (All-filter (λ (m : Memory). any (has_id m.id) table ≡ true) (is_in_scope org dataset) table
          (here_all table table (λ m i. i))))

abbrev pub outcome_of : List DedupeGroup → ℕ → State → Result (Transaction × DedupeResult)
outcome_of [] scanned s = ok (active s, record { memos_scanned = scanned; groups = [] })
outcome_of (g ∷ gs) scanned s = raise unique_violation

-- On a table whose ids are distinct, the stage changes nothing and returns no groups where no two
-- rows in scope share a key; where two do, it raises the violation of the primary key.
pub run_dedupe-raises :
    (lower : String → String) (merge : List Uuid → String → String)
    (properties : DedupeGroup → String) (org : Uuid) (dataset : Option Uuid) (now : ℕ) (s : State)
    → IsKeyed s.memories
    → run_dedupe lower merge properties org dataset now s
      ≡ outcome_of
          (group_rows lower (scan org dataset s.memories))
          (length (scan org dataset s.memories))
          s
unfolding run_dedupe merge_groups
run_dedupe-raises lower merge properties org dataset now s keyed =
    by_groups (group_rows lower (scan org dataset s.memories))
      (group_rows-members lower (scan org dataset s.memories) "").0
  where
    rows : List DedupeRow
    rows = scan org dataset s.memories

    primary_here :
        (g : DedupeGroup)
        → ids_of g ≡ members lower g.key rows
        → any (has_id g.primary_id) s.memories ≡ true
    primary_here g e =
        (subst (All (λ id. any (has_id id) s.memories ≡ true)) (sym e) (
          All-ids (λ id. any (has_id id) s.memories ≡ true) _
            (All-filter (λ (r : DedupeRow). any (has_id r.id) s.memories ≡ true) _ rows
              (scan-here org dataset s.memories)))).0

    by_groups :
        (gs : List DedupeGroup)
        → All (λ g. (ids_of g ≡ members lower g.key rows) × (1 ≤ length g.loser_ids)) gs
        → (merge_groups merge properties org now gs (active s) >>= λ t.
            ok (t, record { memos_scanned = length rows; groups = gs }))
          ≡ outcome_of gs (length rows) s
    by_groups [] a = refl
    by_groups (g ∷ gs) a =
        rw (merge_group-raises merge properties org now g s keyed (primary_here g a.0.0))
