-- ===== src/Memories/Scd.antt =====
-- `memories_scd_trigger` and the UPDATE statement that it runs in.
use text.Mathlib.Text.{◌==◌ as str_eq}
use z3rno_core.Prelude.{
  ℕ, ◌+◌, Bool, not, ◌&&◌, ◌||◌, none, some, List, [], ◌∷◌, map, filter, if◌then◌else◌, ◌==◌,
  is_none,
}
use z3rno_core.Models.{Uuid}
use z3rno_core.Result.{Result, ok, ◌>>=◌}
use z3rno_core.Memories.Table.{
  Memory, bool_eq, type_eq, same_number, same_text, has_id, insert_memory, replace,
}

-- Only `deleted_at` changed (or columns that the trigger does not look at).
unfoldable pub only_deleted : Memory → Memory → Bool
only_deleted old new =
    not (same_number new.deleted_at old.deleted_at)
    && (str_eq new.content old.content
        && (same_text new.summary old.summary
            && ((new.importance_score == old.importance_score)
                && ((new.recall_count == old.recall_count)
                    && (same_number new.last_recalled_at old.last_recalled_at
                        && (bool_eq new.pinned old.pinned
                            && (bool_eq new.quarantined old.quarantined
                                && ((new.anomaly_score == old.anomaly_score)
                                    && type_eq new.memory_type old.memory_type))))))))

-- A bump of `recall_count`.
unfoldable pub only_recalled : Memory → Memory → Bool
only_recalled old new =
    not (new.recall_count == old.recall_count)
    && (str_eq new.content old.content
        && (same_text new.summary old.summary
            && ((new.importance_score == old.importance_score)
                && (type_eq new.memory_type old.memory_type
                    && (bool_eq new.pinned old.pinned
                        && same_number new.deleted_at old.deleted_at)))))

-- The link to a conversation changed.
unfoldable pub only_linked : Memory → Memory → Bool
only_linked old new =
    ((not (same_number new.conversation_id old.conversation_id)
      || (not (same_number new.turn_index old.turn_index)
          || not (same_text new.turn_role old.turn_role))))
    && (str_eq new.content old.content
        && (same_text new.summary old.summary
            && ((new.importance_score == old.importance_score)
                && ((new.recall_count == old.recall_count)
                    && (same_number new.last_recalled_at old.last_recalled_at
                        && (bool_eq new.pinned old.pinned
                            && (bool_eq new.quarantined old.quarantined
                                && ((new.anomaly_score == old.anomaly_score)
                                    && (type_eq new.memory_type old.memory_type
                                        && same_number new.deleted_at old.deleted_at)))))))))

-- The three early returns: the row is updated where it stands.
unfoldable pub in_place : Memory → Memory → Bool
unfolding only_deleted only_recalled only_linked
in_place old new = only_deleted old new || (only_recalled old new || only_linked old new)

-- UPDATE memories SET valid_to = now() WHERE id = OLD.id AND valid_to IS NULL. The trigger's guard
-- on its depth lets this inner statement through.
unfoldable pub supersede : Uuid → ℕ → List Memory → List Memory
supersede id now =
    map (λ r. if has_id id r && is_none r.valid_to then record r { valid_to = some now } else r)

-- The version that the trigger inserts. Columns that its INSERT does not name take their default.
unfoldable pub next_version : ℕ → Memory → Memory → Memory
next_version now old new = record new {
  id = old.id;
  valid_from = now;
  valid_to = none;
  created_at = old.created_at;
  updated_at = now;
  dataset_id = none;
  conversation_id = none;
  turn_index = none;
  turn_role = none;
  memo_type = none;
  ontology_uri = none;
  distill_provenance = none;
}

-- One row of an UPDATE, with the number of rows that the statement counts for it: the trigger
-- returns NULL where it made a version, and the row itself is then not updated.
unfoldable pub update_row : ℕ → Memory → Memory → List Memory → Result (List Memory × ℕ)
unfolding in_place supersede next_version insert_memory
update_row now old new table =
    if in_place old new
    then ok (replace old.id new table, 1)
    else (insert_memory (next_version now old new) (supersede old.id now table) >>= λ t. ok (t, 0))

unfoldable pub update_rows :
    ℕ → (Memory → Memory) → List Memory → List Memory → Result (List Memory × ℕ)
unfolding update_row
update_rows now set [] table = ok (table, 0)
update_rows now set (old ∷ rest) table = update_row now old (set old) table >>= λ one.
    (update_rows now set rest one.0 >>= λ more. ok (more.0, one.1 + more.1))

-- UPDATE memories SET … WHERE …
unfoldable pub update_where :
    ℕ → (Memory → Bool) → (Memory → Memory) → List Memory → Result (List Memory × ℕ)
unfolding update_rows
update_where now where_ set table = update_rows now set (filter where_ table) table
