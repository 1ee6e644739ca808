-- ===== src/Refine/Dedupe.antt =====
-- refine/dedupe.py. `lower` is `str.lower`, and the JSON texts that the statements build are functions.
use Prim.Native.Char.{code}
use Prim.Native.String.{◌++◌ as append}
use text.Mathlib.Text.{◌==◌ as str_eq}
use z3rno_core.Prelude.{
  ℕ, ◌+◌, Bool, true, false, not, ◌&&◌, ◌||◌, String, Option, none, some, List, [], ◌∷◌, ◌++◌, map,
  filter, elem, length, is_none, leb, ltb, if◌then◌else◌, ◌==◌,
}
use z3rno_core.Prelude.Sort.{sort}
use z3rno_core.Models.{Uuid}
use z3rno_core.Result.{Result, ok, raise, in_failed_transaction, ◌>>=◌}
use z3rno_core.Memories.Table.{Memory, has_id, same_number}
use z3rno_core.Memories.Scd.{update_where}
use z3rno_core.Temporal.Versions.{record_memo_version}
use z3rno_core.Engine.State.{State, Transaction, active, aborted, is_space}
use z3rno_core.Engine.Store.{or_abort}
use z3rno_core.Text.{no_text, strip}
pub mod Buckets
pub mod Groups
pub mod Raises

-- `_WS_RE.sub(" ", s)`; the flag tells that the character before was white space.
unfoldable pub collapse : Bool → String → String
unfolding is_space
collapse inside String.[] = String.[]
collapse inside (String.◌∷◌ c s) =
    let after_space = collapse true s in
    let after_text = collapse false s in
    if is_space (code c)
    then (if inside then after_space else append " " after_space)
    else String.◌∷◌ c after_text

unfoldable pub normalize_name : (String → String) → String → String
unfolding strip collapse
normalize_name lower s = collapse false (lower (strip s))

pub record DedupeGroup : Type 0 where
  pub key : String
  pub primary_id : Uuid
  pub loser_ids : List Uuid

pub record DedupeResult : Type 0 where
  pub memos_scanned : ℕ
  pub groups : List DedupeGroup

abbrev pub memos_deduped : List DedupeGroup → ℕ
memos_deduped [] = 0
memos_deduped (g ∷ gs) = length g.loser_ids + memos_deduped gs

-- The columns that the scan selects.
pub record DedupeRow : Type 0 where
  pub id : Uuid
  pub memo_type : Option String
  pub ontology_uri : Option String
  pub content : String

abbrev type_key : (String → String) → Option String → String → Option String
type_key lower none content = none
type_key lower (some t) content =
    if no_text t
    then none
    else some (append "type:" (append t (append ":" (normalize_name lower content))))

abbrev pub row_key : (String → String) → DedupeRow → Option String
row_key lower r = by_uri r.ontology_uri
  where
    by_uri : Option String → Option String
    by_uri none = type_key lower r.memo_type r.content
    by_uri (some uri) =
        if no_text uri then type_key lower r.memo_type r.content else some (append "uri:" uri)

-- An entry of the dict `by_key`, in the order of insertion.
pub record Bucket : Type 0 where
  pub key : String
  pub ids : List Uuid

-- `by_key.setdefault(key, []).append(row_id)`
unfoldable pub append_to : String → Uuid → List Bucket → List Bucket
append_to key id [] = record { key = key; ids = id ∷ [] } ∷ []
append_to key id (b ∷ bs) =
    let rest = append_to key id bs in
    if str_eq b.key key then record b { ids = b.ids ++ id ∷ [] } ∷ bs else b ∷ rest

abbrev pub place : Option String → Uuid → List Bucket → List Bucket
place none id bs = bs
place (some key) id bs = append_to key id bs

unfoldable pub by_key : (String → String) → List DedupeRow → List Bucket → List Bucket
unfolding append_to normalize_name
by_key lower [] bs = bs
by_key lower (r ∷ rs) bs = by_key lower rs (place (row_key lower r) r.id bs)

abbrev pub group_of : Bucket → List DedupeGroup → List DedupeGroup
group_of b gs = of_ids b.ids
  where
    of_ids : List Uuid → List DedupeGroup
    of_ids [] = gs
    of_ids (id ∷ []) = gs
    of_ids (id ∷ (other ∷ more)) =
        record { key = b.key; primary_id = id; loser_ids = other ∷ more } ∷ gs

abbrev pub groups_of : List Bucket → List DedupeGroup
groups_of [] = []
groups_of (b ∷ bs) = group_of b (groups_of bs)

unfoldable pub group_rows : (String → String) → List DedupeRow → List DedupeGroup
unfolding by_key
group_rows lower rows = groups_of (by_key lower rows [])

abbrev pub is_in_scope : Uuid → Option Uuid → Memory → Bool
is_in_scope org dataset m =
    (m.org_id == org)
    && (is_none m.valid_to && (is_none m.deleted_at && same_number m.dataset_id dataset))

-- ORDER BY valid_from ASC, id ASC
abbrev pub older : Memory → Memory → Bool
older a b = ltb a.valid_from b.valid_from || ((a.valid_from == b.valid_from) && leb a.id b.id)

abbrev pub typed_row : Memory → DedupeRow
typed_row m = record {
  id = m.id;
  memo_type = m.memo_type;
  ontology_uri = m.ontology_uri;
  content = m.content;
}

unfoldable pub scan : Uuid → Option Uuid → List Memory → List DedupeRow
unfolding sort
scan org dataset table = map typed_row (sort older (filter (is_in_scope org dataset) table))

abbrev pub is_loser : List Uuid → Memory → Bool
is_loser ids m = elem m.id ids && (is_none m.valid_to && is_none m.deleted_at)

abbrev pub mark_superseded : ℕ → Memory → Memory
mark_superseded now m = record m { valid_to = some now; deleted_at = some now; updated_at = now }

abbrev pub stamp_lineage : (List Uuid → String → String) → ℕ → List Uuid → Memory → Memory
stamp_lineage merge now merged_from m = record m {
  metadata = merge merged_from m.metadata;
  updated_at = now;
}

unfoldable pub merge_group :
    (List Uuid → String → String)
    → (DedupeGroup → String)
    → Uuid
    → ℕ
    → DedupeGroup
    → State
    → Result Transaction
unfolding update_where record_memo_version
merge_group merge properties org now g s =
    update_where now (is_loser g.loser_ids) (mark_superseded now) s.memories >>= λ losers.
    (update_where now (has_id g.primary_id) (stamp_lineage merge now g.loser_ids) losers.0
      >>= λ primary. ok (
          or_abort (record s { memories = primary.0 })
            (record_memo_version org g.primary_id (properties g) now s.versions)))

unfoldable pub merge_groups :
    (List Uuid → String → String)
    → (DedupeGroup → String)
    → Uuid
    → ℕ
    → List DedupeGroup
    → Transaction
    → Result Transaction
unfolding merge_group
merge_groups merge properties org now [] t = ok t
merge_groups merge properties org now (g ∷ gs) aborted = raise in_failed_transaction
merge_groups merge properties org now (g ∷ gs) (active s) =
    merge_group merge properties org now g s >>= merge_groups merge properties org now gs

unfoldable pub run_dedupe :
    (String → String)
    → (List Uuid → String → String)
    → (DedupeGroup → String)
    → Uuid
    → Option Uuid
    → ℕ
    → State
    → Result (Transaction × DedupeResult)
unfolding scan group_rows merge_groups
run_dedupe lower merge properties org dataset now s =
    let rows = scan org dataset s.memories in
    let groups = group_rows lower rows in
    merge_groups merge properties org now groups (active s) >>= λ t.
    ok (t, record { memos_scanned = length rows; groups = groups })
