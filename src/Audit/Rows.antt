-- ===== src/Audit/Rows.antt =====
-- The rows of one organisation: their order, the latest of them, and what a batch adds.
use z3rno_core.Prelude.{
  ℕ, suc, ◌+◌, ◌≤◌, ◌<◌, ◌≡◌, refl, sym, ap, ◌∙◌, Bool, true, false, ◌&&◌, ◌||◌, Option, none, some,
  List, [], ◌∷◌, ◌++◌, map, ltb, ◌==◌, filter, head?, length, All, arith, Bool-cases, inl, inr,
}
use z3rno_core.Prelude.Sort.{sort, insert, IsSorted}
use z3rno_core.Prelude.Filter.{All-mono}
use z3rno_core.Models.{Uuid, Bytes}
use z3rno_core.Audit.Tables.{Event, Pending, LogRow, Db, later, get_latest_hash}
use z3rno_core.Audit.Hash.{Hashing, row_data, compute_row_hash}
use z3rno_core.Audit.Drain.{new_row, chain_rows}
use z3rno_core.Audit.Queue.{ready}

abbrev pub row_of : Uuid → LogRow → Bool
row_of org r = r.event.org_id == org

-- `r` comes before `s` by `(created_at, id)`.
abbrev pub before : LogRow → LogRow → Bool
before r s = ltb r.created_at s.created_at || (r.created_at == s.created_at && ltb r.id s.id)

-- The rows link: each holds the hash of the one before, and its own hash is the one recomputed.
abbrev pub IsChain : Hashing → Option Bytes → List LogRow → Type 0
IsChain h prev [] = Unit
IsChain h prev (r ∷ rs) =
    (r.prev_hash ≡ prev)
    × (r.row_hash ≡ compute_row_hash h prev (row_data r.event r.created_at))
    × IsChain h (some r.row_hash) rs

-- The hash that the next row of a chain holds.
abbrev pub last_hash : Option Bytes → List LogRow → Option Bytes
last_hash prev [] = prev
last_hash prev (r ∷ rs) = last_hash (some r.row_hash) rs

pub IsChain-append :
    (h : Hashing) (prev : Option Bytes) (xs ys : List LogRow)
    → IsChain h prev xs
    → IsChain h (last_hash prev xs) ys
    → IsChain h prev (xs ++ ys)
IsChain-append h prev [] ys p q = q
IsChain-append h prev (x ∷ xs) ys p q = (p.0, p.1, IsChain-append h (some x.row_hash) xs ys p.2 q)

pub chain_rows-IsChain :
    (h : Hashing) (prev : Option Bytes) (id : ℕ) (ps : List Pending)
    → IsChain h prev (chain_rows h prev id ps)
unfolding chain_rows
chain_rows-IsChain h prev id [] = tt
chain_rows-IsChain h prev id (p ∷ ps) = (
  refl,
  refl,
  chain_rows-IsChain h (some (compute_row_hash h prev (row_data p.event p.created_at))) (suc id) ps,
)

last? : List LogRow → Option LogRow
last? [] = none
last? (x ∷ []) = some x
last? (x ∷ y ∷ r) = last? (y ∷ r)

insert-All :
    (P : LogRow → Type 0) (x : LogRow) (ys : List LogRow)
    → P x
    → All P ys
    → All P (insert later x ys)
unfolding insert
insert-All P x [] p h = (p, tt)
insert-All P x (y ∷ ys) p h = elim (Bool-cases (later x y)) [
  | inl e ↦ rw e (p, h)
  | inr e ↦ rw e (h.0, insert-All P x ys p h.1)
]

sort-All : (P : LogRow → Type 0) (xs : List LogRow) → All P xs → All P (sort later xs)
unfolding sort
sort-All P [] h = tt
sort-All P (x ∷ xs) h = insert-All P x (sort later xs) h.0 (sort-All P xs h.1)

before-not_later : (x y : LogRow) → before x y ≡ true → later x y ≡ false
before-not_later x y h = ground arith

or_first : LogRow → Option LogRow → Option LogRow
or_first x none = some x
or_first x (some y) = some y

head-insert :
    (x : LogRow) (ys : List LogRow)
    → All (λ y. before x y ≡ true) ys
    → head? (insert later x ys) ≡ or_first x (head? ys)
unfolding insert or_first
head-insert x [] h = refl
head-insert x (y ∷ ys) h = rw (before-not_later x y h.0)

or_first-last :
    (x y : LogRow) (rest : List LogRow) → or_first x (last? (y ∷ rest)) ≡ last? (y ∷ rest)
unfolding or_first last?
or_first-last x y [] = refl
or_first-last x y (z ∷ rest) = or_first-last x z rest

-- ORDER BY created_at DESC, id DESC LIMIT 1 finds the last of rows in ascending order.
head-sort-later : (rows : List LogRow) → IsSorted before rows → head? (sort later rows) ≡ last? rows
unfolding sort last?
head-sort-later [] h = refl
head-sort-later (x ∷ []) h = unfold insert in refl
head-sort-later (x ∷ y ∷ rest) h =
    head-insert x (sort later (y ∷ rest)) (sort-All (λ z. before x z ≡ true) (y ∷ rest) h.0)
    ∙ ap (or_first x) (head-sort-later (y ∷ rest) h.1)
    ∙ or_first-last x y rest

abbrev hash_of : Option LogRow → Option Bytes
hash_of none = none
hash_of (some r) = some r.row_hash

last_hash-last :
    (prev : Option Bytes) (x : LogRow) (rest : List LogRow)
    → last_hash prev (x ∷ rest) ≡ hash_of (last? (x ∷ rest))
unfolding last?
last_hash-last prev x [] = refl
last_hash-last prev x (y ∷ rest) = last_hash-last (some x.row_hash) y rest

-- With its rows in ascending order, the hash that a drain starts from is that of the last row.
pub get_latest_hash-last :
    (org : Uuid) (db : Db)
    → IsSorted before (filter (row_of org) db.log)
    → get_latest_hash org db ≡ last_hash none (filter (row_of org) db.log)
unfolding sort get_latest_hash
get_latest_hash-last org db h = latest-last (filter (row_of org) db.log) h
  where
    latest-last :
        (rows : List LogRow)
        → IsSorted before rows
        → hash_of (head? (sort later rows)) ≡ last_hash none rows
    latest-last [] k = refl
    latest-last (x ∷ rest) k =
        ap hash_of (head-sort-later (x ∷ rest) k) ∙ sym (last_hash-last none x rest)

module _ (h : Hashing) where
  -- The ids of a batch are those that follow the counter.
  pub chain_rows-ids :
      (prev : Option Bytes) (id bound : ℕ) (ps : List Pending)
      → id + length ps ≤ bound
      → All (λ r. (id ≤ r.id) × (r.id < bound)) (chain_rows h prev id ps)
  unfolding chain_rows
  chain_rows-ids prev id bound [] l = tt
  chain_rows-ids prev id bound (p ∷ ps) l =
      let rest =
        chain_rows-ids (some (compute_row_hash h prev (row_data p.event p.created_at))) (suc id)
          bound ps (omega arith) in
      (
        (omega arith, omega arith),
        All-mono (λ r. (suc id ≤ r.id) × (r.id < bound)) (λ r. (id ≤ r.id) × (r.id < bound)) _
            (λ r b. (omega arith, b.1)) rest,
      )

  -- Every statement about event and time passes from the queue to the rows.
  pub chain_rows-All :
      (P : Event → ℕ → Type 0) (prev : Option Bytes) (id : ℕ) (ps : List Pending)
      → All (λ p. P p.event p.created_at) ps
      → All (λ r. P r.event r.created_at) (chain_rows h prev id ps)
  unfolding chain_rows
  chain_rows-All P prev id [] k = tt
  chain_rows-All P prev id (p ∷ ps) k = (
    k.0,
    chain_rows-All P (some (compute_row_hash h prev (row_data p.event p.created_at))) (suc id) ps
        k.1,
  )

  pub event-chain_rows :
      (prev : Option Bytes) (id : ℕ) (ps : List Pending)
      → map (λ r. r.event) (chain_rows h prev id ps) ≡ map (λ p. p.event) ps
  unfolding chain_rows
  event-chain_rows prev id [] = refl
  event-chain_rows prev id (p ∷ ps) = ap (◌∷◌ p.event) (
      event-chain_rows (some (compute_row_hash h prev (row_data p.event p.created_at))) (suc id) ps)

  pub row-before-All :
      (t : ℕ) (r : LogRow) (prev : Option Bytes) (id : ℕ) (ps : List Pending)
      → r.created_at ≡ t
      → r.id < id
      → All (λ p. t ≤ p.created_at) ps
      → All (λ s. before r s ≡ true) (chain_rows h prev id ps)
  unfolding chain_rows
  row-before-All t r prev id [] e l k = tt
  row-before-All t r prev id (p ∷ ps) e l k = (
    (let b = k.0 in ground arith),
    row-before-All t r (some (compute_row_hash h prev (row_data p.event p.created_at))) (suc id) ps
        e (omega arith) k.1,
  )

  -- Rows drained from a queue in insertion order are in ascending order.
  pub chain_rows-IsSorted :
      (prev : Option Bytes) (id : ℕ) (ps : List Pending)
      → IsSorted ready ps
      → IsSorted before (chain_rows h prev id ps)
  unfolding chain_rows
  chain_rows-IsSorted prev id [] k = tt
  chain_rows-IsSorted prev id (p ∷ ps) k =
      let next : Option Bytes = some (compute_row_hash h prev (row_data p.event p.created_at)) in
      (
        row-before-All p.created_at (new_row h prev id p) next (suc id) ps refl (omega arith) (
            All-mono (λ q. ready p q ≡ true) (λ q. p.created_at ≤ q.created_at) ps
              (λ q e. ground arith) k.0),
        chain_rows-IsSorted next (suc id) ps k.1,
      )

  pub length-chain_rows :
      (prev : Option Bytes) (id : ℕ) (ps : List Pending)
      → length (chain_rows h prev id ps) ≡ length ps
  unfolding chain_rows
  length-chain_rows prev id [] = refl
  length-chain_rows prev id (p ∷ ps) = ap suc (
      length-chain_rows (some (compute_row_hash h prev (row_data p.event p.created_at))) (suc id)
        ps)
