-- ===== src/Engine/Forget/Related.antt =====
-- `_find_related_memories`: breadth first over `memory_relationships`. A Python set is the list of
-- its elements.
use z3rno_core.Prelude.{
  ℕ, zero, suc, Bool, not, ◌&&◌, ◌||◌, List, [], ◌∷◌, ◌++◌, map, filter, elem, if◌then◌else◌, ◌==◌,
}
use z3rno_core.Models.{Uuid}
use z3rno_core.Engine.State.{Relationship}

abbrev pub touches : Uuid → List Uuid → Relationship → Bool
touches org ids r =
    (r.org_id == org) && (elem r.source_memory_id ids || elem r.target_memory_id ids)

-- CASE WHEN source_memory_id IN (…) THEN target_memory_id ELSE source_memory_id END
abbrev pub related_id : List Uuid → Relationship → Uuid
related_id ids r = if elem r.source_memory_id ids then r.target_memory_id else r.source_memory_id

-- The SELECT DISTINCT of one round.
unfoldable pub neighbors : Uuid → List Relationship → List Uuid → List Uuid
neighbors org rels frontier = map (related_id frontier) (filter (touches org frontier) rels)

-- `a - b`
unfoldable pub minus : List Uuid → List Uuid → List Uuid
minus a b = filter (λ x. not (elem x b)) a

-- The loop over `range(depth)`, which ends early on an empty frontier.
unfoldable pub explore : Uuid → List Relationship → ℕ → List Uuid → List Uuid → List Uuid
unfolding neighbors minus
explore org rels zero frontier visited = visited
explore org rels (suc depth) [] visited = visited
explore org rels (suc depth) (x ∷ xs) visited =
    let next = minus (neighbors org rels (x ∷ xs)) visited in
    explore org rels depth next (visited ++ next)

unfoldable pub find_related_memories : Uuid → List Relationship → List Uuid → ℕ → List Uuid
unfolding explore
find_related_memories org rels ids depth = minus (explore org rels depth ids ids) ids
