-- ===== src/Tests/Recall.antt =====
-- Two recalls that overlap in memory 2, and one of another organisation.
use z3rno_core.Prelude.{◌≡◌, refl, true, false, List, [], ◌∷◌}
use z3rno_core.Result.{ok}
use z3rno_core.Memories.Table.{Memory}
use z3rno_core.Engine.RecallBatch.{Batcher, bump, flush_once}
use z3rno_core.Engine.RecallBatch.Flushes.{counts_of}
use z3rno_core.Engine.RecallBatch.Refines.{Recall, bump_each, inline_each, flush_once-bump}
use z3rno_core.Tests.Rows.{four}

abbrev recalls : List Recall
recalls =
    record { at = 5; org_id = 7; memory_ids = 1 ∷ 2 ∷ [] }
    ∷ record { at = 6; org_id = 8; memory_ids = 2 ∷ [] }
    ∷ record { at = 7; org_id = 7; memory_ids = 2 ∷ [] }
    ∷ []

abbrev idle : Batcher
idle = record { pending = []; wake = false; draining = false; closed = false }

counted :
    counts_of (flush_once (λ org. true) 9 (bump_each recalls idle) four.memories).1
    ≡ 1 ∷ 2 ∷ 0 ∷ 0 ∷ []
unfolding flush_once bump
counted = refl

flush_once-bump_example :
    (t : List Memory) × (inline_each recalls four.memories ≡ ok t)
    × (counts_of (flush_once (λ org. true) 9 (bump_each recalls idle) four.memories).1
        ≡ counts_of t)
    × ((flush_once (λ org. true) 9 (bump_each recalls idle) four.memories).0.pending ≡ [])
flush_once-bump_example =
    flush_once-bump recalls idle 9 four.memories (refl, (refl, (refl, (refl, tt))))
      ((refl, (refl, tt)), ((refl, tt), ((refl, tt), tt))) refl refl
