-- ===== src/Tests/Temporal.antt =====
-- Two versions of memo 5, beside one of memo 6.
use z3rno_core.Prelude.{suc, ◌≡◌, refl, some, List, [], ◌∷◌, ◌++◌, map, length, arith}
use z3rno_core.Result.{ok}
use z3rno_core.Temporal.Versions.{MemoVersion, record_memo_version, get_memo_at}
use z3rno_core.Temporal.History.{
  IsHistory, versions, close_open, new_version, record_memo_version_lem,
}
use z3rno_core.Temporal.Lookup.{last_by, get_memo_at_lem}

abbrev rows : List MemoVersion
rows =
    record (new_version 7 5 "{a}" 10 1) { valid_to = some 20 }
    ∷ new_version 7 6 "{}" 15 1
    ∷ new_version 7 5 "{b}" 20 2
    ∷ []

history : IsHistory 1 (versions 5 rows)
history = (refl, refl, omega arith, (refl, refl))

as_of_run :
    get_memo_at 5 (some 19) rows ≡ some (record (new_version 7 5 "{a}" 10 1) { valid_to = some 20 })
unfolding get_memo_at
as_of_run = refl

record_memo_version_lem_example :
    (rows' : List MemoVersion) × (record_memo_version 7 5 "{c}" 30 rows
      ≡ ok (rows', suc (length (versions 5 rows))))
    × (versions 5 rows'
        ≡ map (close_open 30) (versions 5 rows)
          ++ new_version 7 5 "{c}" 30 (suc (length (versions 5 rows))) ∷ [])
    × IsHistory 1 (versions 5 rows')
    × (versions 6 rows' ≡ versions 6 rows)
record_memo_version_lem_example =
    record_memo_version_lem 7 5 6 "{c}" 30 rows history (omega arith, (omega arith, tt)) refl

get_memo_at_lem_example : get_memo_at 5 (some 19) rows ≡ last_by 19 (versions 5 rows)
get_memo_at_lem_example = get_memo_at_lem 5 19 rows history
