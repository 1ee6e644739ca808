-- ===== src/Temporal/Queries.antt =====
-- temporal/queries.py: reads of the table memories by time. A SELECT without ORDER BY gives its rows in
-- the order of the table.
use z3rno_core.Prelude.{ℕ, Bool, ◌&&◌, Option, none, some, List, filter, head?, leb, ◌==◌}
use z3rno_core.Prelude.Sort.{sort}
use z3rno_core.Models.{Uuid}
use z3rno_core.Memories.Table.{Memory, has_id}
use z3rno_core.Temporal.Versions.{lasts}
pub mod Single

-- `valid_from <= :ts AND (valid_to IS NULL OR valid_to > :ts)`
abbrev pub is_valid_at : ℕ → Memory → Bool
is_valid_at ts m = leb m.valid_from ts && lasts m.valid_to ts

unfoldable pub get_memory_at_time : Uuid → ℕ → List Memory → Option Memory
get_memory_at_time id ts table = head? (filter (λ m. has_id id m && is_valid_at ts m) table)

-- ORDER BY valid_from ASC
abbrev pub starts_before : Memory → Memory → Bool
starts_before a b = leb a.valid_from b.valid_from

unfoldable pub get_memory_history : Uuid → List Memory → List Memory
unfolding sort
get_memory_history id table = sort starts_before (filter (has_id id) table)

abbrev pub starts_within : ℕ → ℕ → Memory → Bool
starts_within start end m = leb start m.valid_from && leb m.valid_from end

unfoldable pub get_memories_changed_between : ℕ → ℕ → Option Uuid → List Memory → List Memory
unfolding sort
get_memories_changed_between start end none table =
    sort starts_before (filter (starts_within start end) table)
get_memories_changed_between start end (some org) table =
    sort starts_before (filter (λ m. starts_within start end m && (m.org_id == org)) table)
