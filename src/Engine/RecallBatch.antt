-- ===== src/Engine/RecallBatch.antt =====
-- engine/recall_batch.py: the batcher of recall counts, beside the UPDATE that recall runs at once
-- (engine/recall.py). Row-level security keeps each statement to the rows of its organisation.
use z3rno_core.Prelude.{
  ℕ, ◌+◌, Bool, true, false, not, ◌&&◌, ◌||◌, Option, none, some, List, [], ◌∷◌, map, filter, any,
  elem, leb, length, if◌then◌else◌, ◌==◌,
}
use z3rno_core.Models.{Uuid}
use z3rno_core.Result.{Result, ok, raise, ◌>>=◌}
use z3rno_core.Memories.Table.{Memory}
use z3rno_core.Memories.Scd.{update_where}
use z3rno_core.Audit.Tables.{distinct}
pub mod Counts
pub mod Flushes
pub mod Refines

-- A key (org_id, memory_id) with its delta; the dict in the order of insertion.
pub record Delta : Type 0 where
  pub org_id : Uuid
  pub memory_id : Uuid
  pub delta : ℕ

pub record Batcher : Type 0 where
  pub pending : List Delta
  pub wake : Bool
  pub draining : Bool
  pub closed : Bool

abbrev pub has_key : Uuid → Uuid → Delta → Bool
has_key org id d = (d.org_id == org) && (d.memory_id == id)

-- `self._pending[(org_key, mid)] += 1`
unfoldable pub add_one : Uuid → Uuid → List Delta → List Delta
add_one org id [] = record { org_id = org; memory_id = id; delta = 1 } ∷ []
add_one org id (d ∷ ds) =
    let rest = add_one org id ds in
    if has_key org id d then record d { delta = d.delta + 1 } ∷ ds else d ∷ rest

unfoldable pub add_all : Uuid → List Uuid → List Delta → List Delta
unfolding add_one
add_all org [] ds = ds
add_all org (id ∷ ids) ds = add_all org ids (add_one org id ds)

-- Every bump sets the event and sees to it that the drain task runs.
unfoldable pub bump : Uuid → List Uuid → Batcher → Batcher
unfolding add_all
bump org ids b =
    if b.closed
    then b
    else record b { pending = add_all org ids b.pending; wake = true; draining = true }

-- The deltas of one organisation.
abbrev pub of_org : Uuid → List Delta → List Delta
of_org org ds = filter (λ d. d.org_id == org) ds

abbrev pub delta_in : Uuid → List Delta → ℕ
delta_in id [] = 0
delta_in id (d ∷ ds) = if d.memory_id == id then d.delta else delta_in id ds

abbrev pub bumped : ℕ → ℕ → Memory → Memory
bumped now n m = record m {
  recall_count = m.recall_count + n;
  last_recalled_at = some now;
  updated_at = now;
}

-- UPDATE … FROM (SELECT unnest(:ids), unnest(:deltas)) AS bump WHERE m.id = bump.id
unfoldable pub update_counts : ℕ → Uuid → List Delta → List Memory → Result (List Memory × ℕ)
unfolding update_where
update_counts now org deltas table =
    update_where now (λ m. (m.org_id == org) && any (λ d. d.memory_id == m.id) deltas)
      (λ m. bumped now (delta_in m.id deltas) m) table

abbrev or_drop : List Memory → Result (List Memory × ℕ) → List Memory
or_drop table (ok done) = done.0
or_drop table (raise e) = table

-- One UPDATE per organisation; `reachable` tells for which the connection works. A failure is dropped.
unfoldable pub flush_orgs : (Uuid → Bool) → ℕ → List Delta → List Uuid → List Memory → List Memory
unfolding update_counts
flush_orgs reachable now ds [] table = table
flush_orgs reachable now ds (org ∷ orgs) table =
    flush_orgs reachable now ds orgs
      (if reachable org then or_drop table (update_counts now org (of_org org ds) table) else table)

unfoldable pub flush_once : (Uuid → Bool) → ℕ → Batcher → List Memory → Batcher × List Memory
unfolding flush_orgs distinct
flush_once reachable now b table = (
  record b { pending = [] },
  flush_orgs reachable now b.pending (distinct [] (map (λ d. d.org_id) b.pending)) table,
)

-- The UPDATE of recall itself.
unfoldable pub bump_inline : ℕ → Uuid → List Uuid → List Memory → Result (List Memory × ℕ)
unfolding update_where
bump_inline now org ids table =
    update_where now (λ m. (m.org_id == org) && elem m.id ids) (bumped now 1) table
