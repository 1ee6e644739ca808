-- ===== src/Audit/Query/Walk.antt =====
-- Following the cursors of a query, page by page.
use mathlib.Core.List.{map-append}
use z3rno_core.Prelude.{
  ℕ, zero, suc, ◌≡◌, ◌≤◌, ◌<◌, refl, sym, ap, ◌∙◌, Bool, true, false, ◌&&◌, Option, none, some,
  List, [], ◌∷◌, ◌++◌, map, filter, any, take, drop, take-append-drop, length, length-take,
  length-drop, length-filter-le, min, leb, ltb, ◌==◌, Bool-cases, inl, inr, All, arith,
}
use z3rno_core.Prelude.Filter.{filter-and, IsSorted-filter, filter-All}
use z3rno_core.Prelude.Distinct.{any-sort, AreDistinct, filter-AreDistinct}
use z3rno_core.Prelude.Sort.{sort, insert, IsSorted, filter-sort, length-sort}
use z3rno_core.Models.{Uuid}
use z3rno_core.Audit.Tables.{LogRow}
use z3rno_core.Audit.Query.{
  AuditEntry, AuditPage, Filters, meets, row_to_entry, by_id_desc, effective_limit, last_id,
  page_of, keyset_page,
}

-- All pages from a cursor on; the fuel bounds their number, and `none` is a walk that has not ended.
abbrev onward : AuditPage → (ℕ → Option (List AuditEntry)) → Option (List AuditEntry)
onward page next = by_has_next page.has_next page.next_cursor
  where
    joined : Option (List AuditEntry) → Option (List AuditEntry)
    joined none = none
    joined (some more) = some (page.entries ++ more)

    by_has_next : Bool → Option ℕ → Option (List AuditEntry)
    by_has_next false cursor = some page.entries
    by_has_next true none = none
    by_has_next true (some cursor) = joined (next cursor)

unfoldable pub walk : Uuid → Filters → Option ℕ → ℕ → ℕ → List LogRow → Option (List AuditEntry)
unfolding keyset_page
walk org f limit zero cursor log = none
walk org f limit (suc fuel) cursor log =
    onward (keyset_page org f cursor limit log) (λ c. walk org f limit fuel c log)

abbrev descends : LogRow → LogRow → Bool
descends a b = ltb b.id a.id

all_below :
    (x y : LogRow) (zs : List LogRow)
    → descends x y ≡ true
    → All (λ z. descends y z ≡ true) zs
    → All (λ z. descends x z ≡ true) zs
all_below x y [] e a = tt
all_below x y (z ∷ zs) e a = (let b = a.0 in ground arith, all_below x y zs e a.1)

insert-descends :
    (x : LogRow) (ys : List LogRow)
    → any (λ s. s.id == x.id) ys ≡ false
    → IsSorted descends ys
    → IsSorted descends (insert by_id_desc x ys)
unfolding insert
insert-descends x [] h s = (tt, tt)
insert-descends x (y ∷ ys) h s = elim (Bool-cases (leb y.id x.id)) [
  | inl e ↦
      let lower : descends x y ≡ true = ground arith in
      rw e ((lower, all_below x y ys lower s.0), s)
  | inr e ↦
      let higher : descends y x ≡ true = ground arith in
      rw e (below ys higher s.0, insert-descends x ys (ground arith) s.1)
]
  where
    below :
        (zs : List LogRow)
        → descends y x ≡ true
        → All (λ z. descends y z ≡ true) zs
        → All (λ z. descends y z ≡ true) (insert by_id_desc x zs)
    below [] e a = (e, tt)
    below (z ∷ zs) e a = elim (Bool-cases (leb z.id x.id)) [
      | inl g ↦ rw g (e, a)
      | inr g ↦ rw g (a.0, below zs e a.1)
    ]

sort-descends :
    (xs : List LogRow) → AreDistinct (λ r. r.id) xs → IsSorted descends (sort by_id_desc xs)
unfolding sort
sort-descends [] d = tt
sort-descends (x ∷ xs) d =
    insert-descends x (sort by_id_desc xs) (any-sort by_id_desc (λ s. s.id == x.id) xs ∙ d.0)
      (sort-descends xs d.1)

abbrev below : ℕ → LogRow → Bool
below c r = ltb r.id c

filter_all : (c : ℕ) (xs : List LogRow) → All (λ r. below c r ≡ true) xs → filter (below c) xs ≡ xs
filter_all c [] a = refl
filter_all c (x ∷ xs) a = rw a.0 (ap (◌∷◌ x) (filter_all c xs a.1))

-- The last id of a page: what is below it is what comes after the page.
cut :
    (n c : ℕ) (x : LogRow) (xs : List LogRow)
    → IsSorted descends (x ∷ xs)
    → All (λ r. below c r ≡ true) (x ∷ xs)
    → (l : ℕ) × (last_id (map row_to_entry (take (suc n) (x ∷ xs))) ≡ some l)
      × (l ≤ x.id)
      × (l < c)
      × (filter (below l) (x ∷ xs) ≡ drop (suc n) (x ∷ xs))
cut zero c x xs s a =
    let self : below x.id x ≡ false = ground arith in
    (x.id, refl, omega arith, (let b = a.0 in ground arith), rw self (filter_all x.id xs s.0))
cut (suc n) c x [] s a =
    let self : below x.id x ≡ false = ground arith in
    (x.id, refl, omega arith, (let b = a.0 in ground arith), rw self)
cut (suc n) c x (y ∷ ys) s a =
    let (l, e, le, lt, rest) = cut n c y ys s.1 a.1 in
    let lower = s.0.0 in
    let above : below l x ≡ false = ground arith in (l, e, (ground arith), lt, rw above rest)

take-take : (n : ℕ) (xs : List LogRow) → take n (take (suc n) xs) ≡ take n xs
take-take zero xs = refl
take-take (suc n) [] = refl
take-take (suc n) (x ∷ xs) = ap (◌∷◌ x) (take-take n xs)

take_all : (n : ℕ) (xs : List LogRow) → length xs ≤ n → take n xs ≡ xs
take_all zero [] h = refl
take_all zero (x ∷ xs) h = absurd (omega (arith, h))
take_all (suc n) [] h = refl
take_all (suc n) (x ∷ xs) h = ap (◌∷◌ x) (take_all n xs (omega (arith, h)))

effective_limit_pos : (limit : Option ℕ) → (n : ℕ) × (effective_limit limit ≡ suc n)
effective_limit_pos none = (49, refl)
effective_limit_pos (some zero) = (49, ground arith)
effective_limit_pos (some (suc n)) = (min n 99, ground arith)

below-below :
    (l c : ℕ) (xs : List LogRow)
    → l < c
    → filter (below l) (filter (below c) xs) ≡ filter (below l) xs
below-below l c [] h = refl
below-below l c (x ∷ xs) h = let ih = below-below l c xs h in ground arith

step :
    (m c : ℕ) (xs : List LogRow) (next : ℕ → Option (List AuditEntry))
    → IsSorted descends xs
    → All (λ r. below c r ≡ true) xs
    → ((l : ℕ)
        → l < c
        → suc m < length xs
        → filter (below l) xs ≡ drop (suc m) xs
        → next l ≡ some (map row_to_entry (drop (suc m) xs)))
    → onward (page_of (suc m) (take (suc (suc m)) xs)) next ≡ some (map row_to_entry xs)
step m c [] next s a h = let e : ltb (suc m) 0 ≡ false = ground arith in rw e
step m c (x ∷ xs) next s a h = elim (Bool-cases (ltb (suc m) (length (x ∷ xs)))) [
  | inr short ↦
      let n = length-take (suc (suc m)) (x ∷ xs) in
      let e : ltb (suc m) (length (take (suc (suc m)) (x ∷ xs))) ≡ false = ground arith in
      let whole : take (suc (suc m)) (x ∷ xs) ≡ x ∷ xs =
        take_all (suc (suc m)) (x ∷ xs) (ground arith) in
      rw e (ap (λ l. some (map row_to_entry l)) whole)
  | inl long ↦
      let n = length-take (suc (suc m)) (x ∷ xs) in
      let e : ltb (suc m) (length (take (suc (suc m)) (x ∷ xs))) ≡ true = ground arith in
      let (l, last, le, lt, rest) = cut m c x xs s a in
      let first = take-take m xs in
      rw (e, first, last, h l lt (ground arith) rest)
        (ap some (
          sym (map-append row_to_entry (take (suc m) (x ∷ xs)) (drop (suc m) (x ∷ xs)))
          ∙ ap (map row_to_entry) (take-append-drop (suc m) (x ∷ xs))))
]

module _ (org : Uuid) (f : Filters) (limit : Option ℕ) (log : List LogRow) where
  -- The rows that a query without pages would give.
  abbrev pub matching : List LogRow
  matching = sort by_id_desc (filter (meets org f) log)

  page_rows :
      (c : ℕ)
      → sort by_id_desc (filter (λ r. meets org f r && ltb r.id c) log) ≡ filter (below c) matching
  page_rows c =
      ap (sort by_id_desc) (filter-and (meets org f) (below c) log)
      ∙ sym (
          filter-sort by_id_desc (λ x y h. (ground arith)) (λ x y z h k. (ground arith)) (below c)
            (filter (meets org f) log))

  walk_rows :
      (fuel c : ℕ)
      → IsSorted descends matching
      → length (filter (below c) matching) < fuel
      → walk org f limit fuel c log ≡ some (map row_to_entry (filter (below c) matching))
  unfolding walk keyset_page
  walk_rows zero c s h = absurd (omega (arith, h))
  walk_rows (suc fuel) c s h =
      let (m, size) = effective_limit_pos limit in
      let xs = filter (below c) matching in
      let next : ℕ → Option (List AuditEntry) = λ l. walk org f limit fuel l log in
      ap
        (λ rows.
          onward (page_of (effective_limit limit) (take (suc (effective_limit limit)) rows)) next)
        (page_rows c)
      ∙ ap (λ n. onward (page_of n (take (suc n) xs)) next) size
      ∙ step m c xs next (IsSorted-filter descends (below c) matching s)
          (filter-All (below c) matching)
          (λ l lt long rest.
            let here : filter (below l) matching ≡ drop (suc m) xs =
              sym (below-below l c matching lt) ∙ rest in
            let shorter = ap length here ∙ length-drop (suc m) xs in
            walk_rows fuel l s (omega (arith, h, shorter, long))
            ∙ ap (λ l. some (map row_to_entry l)) here)

  -- On a log whose ids are distinct, following the cursors page by page, from any cursor, ends after
  -- no more pages than one above the number of rows that match; and the pages in a row are what one
  -- query without pages gives: every row that matches with an id below the cursor, once, the newest id
  -- first.
  pub walk-matching :
      (cursor fuel : ℕ)
      → AreDistinct (λ r. r.id) log
      → length (filter (meets org f) log) < fuel
      → walk org f limit fuel cursor log
        ≡ some (
            map row_to_entry (sort by_id_desc (filter (λ r. meets org f r && ltb r.id cursor) log)))
  walk-matching cursor fuel distinct enough =
      let fewer = length-filter-le (below cursor) matching in
      let whole = length-sort by_id_desc (filter (meets org f) log) in
      walk_rows fuel cursor
        (sort-descends (filter (meets org f) log)
          (filter-AreDistinct (λ r. r.id) (meets org f) log distinct))
        (omega (arith, fewer, whole, enough))
      ∙ ap (λ l. some (map row_to_entry l)) (sym (page_rows cursor))
