-- ===== src/Temporal/Versions.antt =====
-- The versions of memos, and the functions that write and read them. The properties are JSON text.
use z3rno_core.Prelude.{
  ℕ, ◌+◌, Bool, true, ◌&&◌, String, Option, none, some, List, [], ◌∷◌, ◌++◌, map, filter, any, take,
  head?, is_none, is_some, leb, ltb, if◌then◌else◌, ◌==◌,
}
use z3rno_core.Prelude.Sort.{sort}
use z3rno_core.Models.{Uuid}
use z3rno_core.Result.{Result, ok, raise, unique_violation, ◌>>=◌}

pub record MemoVersion : Type 0 where
  pub org_id : Uuid
  pub memo_id : Uuid
  pub version : ℕ
  pub properties : String
  pub valid_from : ℕ
  pub valid_to : Option ℕ

abbrev pub of_memo : Uuid → MemoVersion → Bool
of_memo memo r = r.memo_id == memo

-- `memo_id = :memo_id AND valid_to IS NULL`
abbrev pub is_open : Uuid → MemoVersion → Bool
is_open memo r = of_memo memo r && is_none r.valid_to

abbrev pub version_after : Option MemoVersion → ℕ
version_after none = 1
version_after (some r) = r.version + 1

abbrev pub close : Uuid → ℕ → MemoVersion → MemoVersion
close memo now r = if is_open memo r then record r { valid_to = some now } else r

-- INSERT under PRIMARY KEY (memo_id, version).
unfoldable pub insert_version : MemoVersion → List MemoVersion → Result (List MemoVersion)
insert_version r rows =
    if any (λ x. of_memo r.memo_id x && (x.version == r.version)) rows
    then raise unique_violation
    else ok (rows ++ r ∷ [])

unfoldable pub record_memo_version :
    Uuid → Uuid → String → ℕ → List MemoVersion → Result (List MemoVersion × ℕ)
unfolding insert_version
record_memo_version org memo properties now rows =
    let row = head? (filter (is_open memo) rows) in
    let next_version = version_after row in
    let closed = if is_some row then map (close memo now) rows else rows in
    insert_version
      (record {
        org_id = org;
        memo_id = memo;
        version = next_version;
        properties = properties;
        valid_from = now;
        valid_to = none;
      })
      closed
    >>= λ t. ok (t, next_version)

-- `valid_to IS NULL OR valid_to > :as_of`
abbrev pub lasts : Option ℕ → ℕ → Bool
lasts none as_of = true
lasts (some t) as_of = ltb as_of t

abbrev pub is_valid : ℕ → MemoVersion → Bool
is_valid as_of r = leb r.valid_from as_of && lasts r.valid_to as_of

-- ORDER BY version DESC
abbrev pub newer : MemoVersion → MemoVersion → Bool
newer a b = leb b.version a.version

unfoldable pub get_memo_at : Uuid → Option ℕ → List MemoVersion → Option MemoVersion
unfolding sort
get_memo_at memo none rows = head? (sort newer (filter (is_open memo) rows))
get_memo_at memo (some as_of) rows =
    head? (sort newer (filter (λ r. of_memo memo r && is_valid as_of r) rows))

unfoldable pub list_memo_versions : Uuid → ℕ → List MemoVersion → List MemoVersion
unfolding sort
list_memo_versions memo limit rows = take limit (sort newer (filter (of_memo memo) rows))
