-- ===== src/Tests/Refine.antt =====
-- The stages of Refine at small inputs.
use z3rno_core.Prelude.{
  ◌≡◌, ◌≤◌, refl, true, none, some, String, List, [], ◌∷◌, length, leb, any, All, filter, false,
  arith,
}
use text.Mathlib.Text.{◌==◌ as str_eq}
use z3rno_core.Result.{raise, unique_violation}
use z3rno_core.Memories.Table.{Memory}
use z3rno_core.Engine.State.{State}
use z3rno_core.Refine.Dedupe.{DedupeRow, group_rows, scan, run_dedupe}
use z3rno_core.Refine.Dedupe.Buckets.{members}
use z3rno_core.Refine.Scheduler.Overdue.{is_overdue, ticks}
use z3rno_core.Refine.Dedupe.Groups.{ids_of, KeysDiffer, group_rows-members}
use z3rno_core.Refine.Dedupe.Raises.{outcome_of, run_dedupe-raises}
use z3rno_core.Refine.Scheduler.{Tenant, pick_refine_tenants}
use z3rno_core.Refine.Scheduler.Rotation.{ticks-rotate}
use z3rno_core.Tests.Rows.{memory, four}

-- No upper-case letters are used here.
abbrev lower : String → String
lower s = s

-- 1 and 3 have one URI, 2 and 5 one name under one type, 4 has neither.
abbrev dedupe_rows : List DedupeRow
dedupe_rows =
    record { id = 1; memo_type = some "person"; ontology_uri = some "u"; content = "ann" }
    ∷ record { id = 2; memo_type = some "person"; ontology_uri = none; content = " ann  lee" }
    ∷ record { id = 3; memo_type = none; ontology_uri = some "u"; content = "bob" }
    ∷ record { id = 4; memo_type = some ""; ontology_uri = some ""; content = "ann lee" }
    ∷ record { id = 5; memo_type = some "person"; ontology_uri = none; content = "ann lee " }
    ∷ []

grouped :
    group_rows lower dedupe_rows
    ≡ record { key = "uri:u"; primary_id = 1; loser_ids = 3 ∷ [] }
      ∷ record { key = "type:person:ann lee"; primary_id = 2; loser_ids = 5 ∷ [] }
      ∷ []
unfolding group_rows
grouped = refl

group_rows-members_example :
    All
      (λ g. (ids_of g ≡ members lower g.key dedupe_rows) × (1 ≤ length g.loser_ids))
      (group_rows lower dedupe_rows)
    × KeysDiffer (group_rows lower dedupe_rows)
    × (any (λ g. str_eq g.key "uri:u") (group_rows lower dedupe_rows)
        ≡ leb 2 (length (members lower "uri:u" dedupe_rows)))
group_rows-members_example = group_rows-members lower dedupe_rows "uri:u"

abbrev typed : Memory → Memory
typed m = record m { memo_type = some "fact" }

abbrev twins : State
twins = record four { memories = typed (memory 1) ∷ memory 2 ∷ typed (memory 3) ∷ [] }

refused : run_dedupe lower (λ ids m. m) (λ g. "{}") 7 none 9 twins ≡ raise unique_violation
unfolding run_dedupe
refused = refl

run_dedupe-raises_example :
    run_dedupe lower (λ ids m. m) (λ g. "{}") 7 none 9 twins
    ≡ outcome_of
        (group_rows lower (scan 7 none twins.memories))
        (length (scan 7 none twins.memories))
        twins
run_dedupe-raises_example =
    run_dedupe-raises lower (λ ids m. m) (λ g. "{}") 7 none 9 twins (refl, (refl, (refl, tt)))

-- Tenant 3 has not opted in; two ticks of two take the other three.
abbrev tenants : List Tenant
tenants =
    record { org_id = 1; refine_enabled = true; refine_last_run_at = some 4 }
    ∷ record { org_id = 2; refine_enabled = true; refine_last_run_at = none }
    ∷ record { org_id = 3; refine_enabled = false; refine_last_run_at = none }
    ∷ record { org_id = 4; refine_enabled = true; refine_last_run_at = some 2 }
    ∷ []

first_two :
    pick_refine_tenants (λ org. false) 2 tenants
    ≡ record { org_id = 2; last_run_at = none } ∷ record { org_id = 4; last_run_at = some 2 } ∷ []
unfolding pick_refine_tenants
first_two = refl

ticks-rotate_example : filter (is_overdue 5) (ticks 2 (5 ∷ 6 ∷ []) tenants) ≡ []
ticks-rotate_example =
    ticks-rotate 5 2 (5 ∷ 6 ∷ []) tenants (omega arith, (omega arith, tt)) (omega arith)
