-- ===== src/Temporal/Lookup.antt =====
-- `get_memo_at` as of a time.
use z3rno_core.Prelude.{
  ℕ, suc, ◌≡◌, ◌<◌, refl, sym, ap, ◌∙◌, true, false, ◌&&◌, Option, none, some, List, [], ◌∷◌,
  filter, head?, leb, ltb, if◌then◌else◌, Bool-cases, inl, inr, arith,
}
use z3rno_core.Prelude.Sort.{sort, insert}
use z3rno_core.Prelude.Filter.{filter-and}
use z3rno_core.Models.{Uuid}
use z3rno_core.Temporal.Versions.{MemoVersion, of_memo, lasts, is_valid, newer, get_memo_at}
use z3rno_core.Temporal.History.{IsHistory, versions}

abbrev pub or_this : ℕ → MemoVersion → Option MemoVersion → Option MemoVersion
or_this as_of r none = if leb r.valid_from as_of then some r else none
or_this as_of r (some s) = some s

-- The last of the versions that started at or before `as_of`.
abbrev pub last_by : ℕ → List MemoVersion → Option MemoVersion
last_by as_of [] = none
last_by as_of (r ∷ rest) = or_this as_of r (last_by as_of rest)

abbrev as_list : Option MemoVersion → List MemoVersion
as_list none = []
as_list (some r) = r ∷ []

-- Versions that start after `as_of` are neither valid then nor last by then.
not_yet :
    (k as_of : ℕ) (x : MemoVersion) (xs : List MemoVersion)
    → IsHistory k (x ∷ xs)
    → as_of < x.valid_from
    → (filter (is_valid as_of) (x ∷ xs) ≡ []) × (last_by as_of (x ∷ xs) ≡ none)
not_yet k as_of x [] h late = let e : leb x.valid_from as_of ≡ false = ground arith in (rw e, rw e)
not_yet k as_of x (y ∷ ys) h late =
    let e : leb x.valid_from as_of ≡ false = ground arith in
    let (f, l) = not_yet (suc k) as_of y ys h.3 (omega (arith, h.2)) in (rw (e, f), rw (l, e))

found_by :
    (as_of : ℕ) (y : MemoVersion) (ys : List MemoVersion)
    → leb y.valid_from as_of ≡ true
    → (s : MemoVersion) × (last_by as_of (y ∷ ys) ≡ some s)
found_by as_of y ys e = by_rest _ refl
  where
    by_rest :
        (o : Option MemoVersion)
        → last_by as_of ys ≡ o
        → (s : MemoVersion) × (or_this as_of y (last_by as_of ys) ≡ some s)
    by_rest none l = (y, rw (l, e))
    by_rest (some s) l = (s, rw l)

valid_ones :
    (k as_of : ℕ) (xs : List MemoVersion)
    → IsHistory k xs
    → filter (is_valid as_of) xs ≡ as_list (last_by as_of xs)
valid_ones k as_of [] h = refl
valid_ones k as_of (x ∷ []) h = elim (Bool-cases (leb x.valid_from as_of)) [
  | inl e ↦ rw (e, h.1)
  | inr e ↦ rw e
]
valid_ones k as_of (x ∷ y ∷ ys) h = elim (Bool-cases (leb y.valid_from as_of)) [
  | inr e ↦
      let (f, l) = not_yet (suc k) as_of y ys h.3 (ground arith) in
      ap (λ rest. if is_valid as_of x then x ∷ rest else rest) f
      ∙ first_only e
      ∙ sym (ap (λ o. as_list (or_this as_of x o)) l)
  | inl e ↦
      let (s, found) = found_by as_of y ys e in
      ap (λ b. if b then x ∷ filter (is_valid as_of) (y ∷ ys) else filter (is_valid as_of) (y ∷ ys))
        (over e)
      ∙ valid_ones (suc k) as_of (y ∷ ys) h.3
      ∙ ap as_list found
      ∙ sym (ap (λ o. as_list (or_this as_of x o)) found)
]
  where
    validity : is_valid as_of x ≡ (leb x.valid_from as_of && ltb as_of y.valid_from)
    validity = ap (λ o. leb x.valid_from as_of && lasts o as_of) h.1

    over : leb y.valid_from as_of ≡ true → is_valid as_of x ≡ false
    over e = validity ∙ ground arith

    by_start :
        (if leb x.valid_from as_of && true then x ∷ [] else [])
        ≡ as_list (if leb x.valid_from as_of then some x else none)
    by_start = elim (Bool-cases (leb x.valid_from as_of)) [ inl g ↦ rw g | inr g ↦ rw g ]

    first_only :
        leb y.valid_from as_of ≡ false
        → (if is_valid as_of x then x ∷ [] else []) ≡ as_list (or_this as_of x none)
    first_only e =
        let f : ltb as_of y.valid_from ≡ true = ground arith in
        ap (λ b. if b then x ∷ [] else []) (validity ∙ rw f refl) ∙ by_start

-- Reading as of a time, where the memo's versions are a history, gives the version recorded last at
-- or before that time, and nothing if none was.
pub get_memo_at_lem :
    (memo : Uuid) (as_of : ℕ) (rows : List MemoVersion)
    → IsHistory 1 (versions memo rows)
    → get_memo_at memo (some as_of) rows ≡ last_by as_of (versions memo rows)
unfolding get_memo_at
get_memo_at_lem memo as_of rows h =
    ap (λ l. head? (sort newer l))
      (filter-and (of_memo memo) (is_valid as_of) rows ∙ valid_ones 1 as_of (versions memo rows) h)
    ∙ one_left (last_by as_of (versions memo rows))
  where
    one_left : (o : Option MemoVersion) → head? (sort newer (as_list o)) ≡ o
    one_left none = unfold sort in refl
    one_left (some r) = unfold sort insert in refl
