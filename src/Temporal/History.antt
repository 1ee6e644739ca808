-- ===== src/Temporal/History.antt =====
-- `record_memo_version`, and the order of the versions of a memo that it keeps.
use z3rno_core.Prelude.{
  ℕ, suc, ◌+◌, ◌≡◌, ◌≤◌, refl, sym, ap, ap₂, ◌∙◌, subst, Bool, false, ◌&&◌, String, none, some,
  List, [], ◌∷◌, ◌++◌, map, filter, any, head?, length, is_none, is_some, if◌then◌else◌, ◌==◌,
  ==_refl, Bool-cases, inl, inr, filter-append, arith, append-nil,
}
use z3rno_core.Prelude.Filter.{filter-and}
use z3rno_core.Models.{Uuid}
use z3rno_core.Result.{ok, ◌>>=◌}
use z3rno_core.Temporal.Versions.{
  MemoVersion, of_memo, is_open, version_after, close, insert_version, record_memo_version,
}

-- `xs` are versions `k`, `k + 1`, …: each is closed at the instant at which the next one starts.
abbrev pub IsHistory : ℕ → List MemoVersion → Type 0
IsHistory k [] = Unit
IsHistory k (r ∷ []) = (r.version ≡ k) × (r.valid_to ≡ none)
IsHistory k (r ∷ s ∷ rest) =
    (r.version ≡ k)
    × (r.valid_to ≡ some s.valid_from)
    × (r.valid_from ≤ s.valid_from)
    × IsHistory (suc k) (s ∷ rest)

abbrev pub versions : Uuid → List MemoVersion → List MemoVersion
versions memo rows = filter (of_memo memo) rows

abbrev open_ : MemoVersion → Bool
open_ r = is_none r.valid_to

unfoldable pub close_open : ℕ → MemoVersion → MemoVersion
close_open now r = if open_ r then record r { valid_to = some now } else r

any-and :
    (p q : MemoVersion → Bool) (xs : List MemoVersion)
    → any (λ r. p r && q r) xs ≡ any q (filter p xs)
any-and p q [] = refl
any-and p q (x ∷ xs) = elim (Bool-cases (p x)) [
  | inl e ↦ rw (e, any-and p q xs)
  | inr e ↦ rw (e, any-and p q xs)
]

-- The only open version of a history is its last one, numbered by its length.
newest :
    (k : ℕ) (x : MemoVersion) (xs : List MemoVersion)
    → IsHistory k (x ∷ xs)
    → (r : MemoVersion) × (filter open_ (x ∷ xs) ≡ r ∷ []) × (suc r.version ≡ k + length (x ∷ xs))
newest k x [] h = (x, rw h.1, omega (arith, h.0))
newest k x (y ∷ ys) h = let (r, e, v) = newest (suc k) y ys h.3 in (r, rw h.1 e, omega (arith, v))

absent :
    (k n : ℕ) (xs : List MemoVersion)
    → IsHistory k xs
    → k + length xs ≤ n
    → any (λ r. r.version == n) xs ≡ false
absent k n [] h b = refl
absent k n (x ∷ []) h b = let v = h.0 in ground arith
absent k n (x ∷ y ∷ ys) h b =
    let ih = absent (suc k) n (y ∷ ys) h.3 (omega arith) in let v = h.0 in ground arith

-- No version starts after `now`.
abbrev pub IsPast : ℕ → List MemoVersion → Type 0
IsPast now [] = Unit
IsPast now (x ∷ xs) = (x.valid_from ≤ now) × IsPast now xs

from_close : (now : ℕ) (y : MemoVersion) → (close_open now y).valid_from ≡ y.valid_from
unfolding close_open
from_close now y = elim (Bool-cases (open_ y)) [ inl e ↦ rw e | inr e ↦ rw e ]

extended :
    (k now : ℕ) (xs : List MemoVersion) (r : MemoVersion)
    → IsHistory k xs
    → IsPast now xs
    → r.version ≡ k + length xs
    → r.valid_from ≡ now
    → r.valid_to ≡ none
    → IsHistory k (map (close_open now) xs ++ r ∷ [])
unfolding close_open
extended k now [] r h p v f t = (omega arith, t)
extended k now (x ∷ []) r h p v f t =
    rw h.1 (h.0, ap some (sym f), (omega (arith, p.0)), (omega arith, t))
extended k now (x ∷ y ∷ ys) r h p v f t = rw h.1 (
  h.0,
  ap some (sym (from_close now y)),
  subst (λ z. x.valid_from ≤ z) (sym (from_close now y)) h.2,
  extended (suc k) now (y ∷ ys) r h.3 p.1 (omega (arith, v)) f t,
)

-- Closing touches the versions of the memo only.
versions-close :
    (memo now : ℕ) (rows : List MemoVersion)
    → versions memo (map (close memo now) rows) ≡ map (close_open now) (versions memo rows)
unfolding close_open
versions-close memo now [] = refl
versions-close memo now (x ∷ xs) = elim (Bool-cases (of_memo memo x)) [
  | inl e ↦ elim (Bool-cases (open_ x)) [
    | inl f ↦ rw (e, f, e, versions-close memo now xs)
    | inr f ↦ rw (e, f, e, versions-close memo now xs)
  ]
  | inr e ↦ rw (e, e, versions-close memo now xs)
]

others-close :
    (memo other now : ℕ) (rows : List MemoVersion)
    → (memo == other) ≡ false
    → versions other (map (close memo now) rows) ≡ versions other rows
others-close memo other now [] d = refl
others-close memo other now (x ∷ xs) d = elim (Bool-cases (of_memo memo x)) [
  | inl e ↦
      let f : of_memo other x ≡ false = ground arith in
      elim (Bool-cases (open_ x)) [
        | inl g ↦ rw (e, g, f, others-close memo other now xs d)
        | inr g ↦ rw (e, g, f, others-close memo other now xs d)
      ]
  | inr e ↦ rw (e, others-close memo other now xs d)
]

close_nothing :
    (memo now : ℕ) (rows : List MemoVersion)
    → filter (is_open memo) rows ≡ []
    → map (close memo now) rows ≡ rows
close_nothing memo now [] h = refl
close_nothing memo now (x ∷ xs) h = elim (Bool-cases (is_open memo x)) [
  | inl e ↦ absurd (cc (rw e at h))
  | inr e ↦ rw e (ap (◌∷◌ x) (close_nothing memo now xs (rw e at h)))
]

abbrev pub new_version : Uuid → Uuid → String → ℕ → ℕ → MemoVersion
new_version org memo properties now version = record {
  org_id = org;
  memo_id = memo;
  version = version;
  properties = properties;
  valid_from = now;
  valid_to = none;
}

abbrev closed_rows : Uuid → ℕ → List MemoVersion → List MemoVersion
closed_rows memo now rows =
    if is_some (head? (filter (is_open memo) rows)) then map (close memo now) rows else rows

closed_all :
    (memo now : ℕ) (rows : List MemoVersion) → closed_rows memo now rows ≡ map (close memo now) rows
closed_all memo now rows = by_case _ refl
  where
    by_case :
        (found : List MemoVersion)
        → filter (is_open memo) rows ≡ found
        → (if is_some (head? found) then map (close memo now) rows else rows)
          ≡ map (close memo now) rows
    by_case [] e = sym (close_nothing memo now rows e)
    by_case (x ∷ xs) e = refl

-- The number that the new version takes.
next_number :
    (memo : Uuid) (rows : List MemoVersion)
    → IsHistory 1 (versions memo rows)
    → version_after (head? (filter (is_open memo) rows)) ≡ suc (length (versions memo rows))
next_number memo rows h =
    ap (λ l. version_after (head? l)) (filter-and (of_memo memo) open_ rows)
    ∙ by_case (versions memo rows) h
  where
    by_case :
        (xs : List MemoVersion)
        → IsHistory 1 xs
        → version_after (head? (filter open_ xs)) ≡ suc (length xs)
    by_case [] g = omega arith
    by_case (x ∷ xs) g =
        let (r, e, v) = newest 1 x xs g in ap (λ l. version_after (head? l)) e ∙ omega (arith, v)

length-map_close : (now : ℕ) (xs : List MemoVersion) → length (map (close_open now) xs) ≡ length xs
length-map_close now [] = refl
length-map_close now (x ∷ xs) = ap suc (length-map_close now xs)

version_close :
    (now n : ℕ) (xs : List MemoVersion)
    → any (λ r. r.version == n) (map (close_open now) xs) ≡ any (λ r. r.version == n) xs
unfolding close_open
version_close now n [] = refl
version_close now n (x ∷ xs) = elim (Bool-cases (open_ x)) [
  | inl e ↦ rw (e, version_close now n xs)
  | inr e ↦ rw (e, version_close now n xs)
]

-- Recording a version at or after the starts of the memo's versions, which are a history, returns the
-- next number. The memo's versions are then the old ones, the open one closed now, and the new one,
-- and they are a history again; those of any other memo are as before.
pub record_memo_version_lem :
    (org memo other : Uuid) (properties : String) (now : ℕ) (rows : List MemoVersion)
    → IsHistory 1 (versions memo rows)
    → IsPast now (versions memo rows)
    → (memo == other) ≡ false
    → (rows' : List MemoVersion) × (record_memo_version org memo properties now rows
        ≡ ok (rows', suc (length (versions memo rows))))
      × (versions memo rows'
          ≡ map (close_open now) (versions memo rows)
            ++ new_version org memo properties now (suc (length (versions memo rows))) ∷ [])
      × IsHistory 1 (versions memo rows')
      × (versions other rows' ≡ versions other rows)
unfolding record_memo_version insert_version
record_memo_version_lem org memo other properties now rows h p d =
    let n = suc (length (versions memo rows)) in
    let r = new_version org memo properties now n in
    let closed = map (close memo now) rows in
    let fresh : any (λ x. of_memo memo x && (x.version == n)) closed ≡ false =
      any-and (of_memo memo) (λ x. x.version == n) closed
      ∙ ap (any (λ x. x.version == n)) (versions-close memo now rows)
      ∙ version_close now n (versions memo rows)
      ∙ absent 1 n (versions memo rows) h (omega arith) in
    let mine : versions memo (closed ++ r ∷ [])
        ≡ map (close_open now) (versions memo rows) ++ r ∷ [] =
      filter-append (of_memo memo) closed (r ∷ [])
      ∙ ap₂ (λ (a b : List MemoVersion). a ++ b) (versions-close memo now rows)
          (rw (==_refl memo)) in
    (
      closed ++ r ∷ [],
      ap₂
            (λ (v : ℕ) (c : List MemoVersion).
              insert_version (new_version org memo properties now v) c >>= λ t. ok (t, v))
            (next_number memo rows h) (closed_all memo now rows)
          ∙ rw fresh,
      mine,
      subst (IsHistory 1) (sym mine)
          (extended 1 now (versions memo rows) r h p (omega arith) refl refl),
      filter-append (of_memo other) closed (r ∷ [])
          ∙ ap₂ (λ (a b : List MemoVersion). a ++ b) (others-close memo other now rows d) (rw d)
          ∙ append-nil (versions other rows),
    )
