-- ===== src/Engine/Get.antt =====
-- engine/get.py: `get_memory`.
use z3rno_core.Prelude.{Bool, ◌&&◌, ◌||◌, Option, none, some, filter, is_none, ◌==◌, head?}
use z3rno_core.Models.{Uuid}
use z3rno_core.Result.{Result, ok, raise, memory_not_found}
use z3rno_core.Memories.Table.{Memory, has_id}
use z3rno_core.Engine.State.{State}

-- The WHERE clause; the columns of `MemoryDetail` are those of the row.
abbrev pub is_current : Uuid → Uuid → Bool → Memory → Bool
is_current org id include_deleted m =
    (m.org_id == org)
    && (has_id id m && (is_none m.valid_to && (include_deleted || is_none m.deleted_at)))

or_not_found : Option Memory → Result Memory
or_not_found none = raise memory_not_found
or_not_found (some m) = ok m

unfoldable pub get_memory : Uuid → Uuid → Bool → State → Result Memory
unfolding or_not_found
get_memory org id include_deleted s =
    or_not_found (head? (filter (is_current org id include_deleted) s.memories))
