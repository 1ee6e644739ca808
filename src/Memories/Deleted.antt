-- ===== src/Memories/Deleted.antt =====
-- UPDATE memories SET deleted_at = now(), updated_at = now(): the soft deletion that forget, the TTL
-- sweep and the retention cap share.
use text.Mathlib.TextPositions.{eq_refl}
use z3rno_core.Prelude.{
  ℕ, ◌≡◌, refl, sym, ap, ap₂, ◌∙◌, subst, Bool, true, false, ◌&&◌, some, List, [], ◌∷◌, map, filter,
  any, elem, length, In, if◌then◌else◌, ◌==◌, ==_iff, ==_refl, Bool-cases, Option-cases, inl, inr,
  is_none, arith,
}
use z3rno_core.Models.{Uuid, MemoryType, working, episodic, semantic, procedural}
use z3rno_core.Result.{ok}
use z3rno_core.Memories.Table.{Memory, has_id, bool_eq, type_eq}
use z3rno_core.Memories.Scd.{in_place, only_deleted, update_rows, update_where}
use z3rno_core.Memories.Refused.{same_number_refl, same_text_refl}
use z3rno_core.Memories.InPlace.{IsKeyed, update_where-in_place}

unfoldable pub mark_deleted : ℕ → Memory → Memory
mark_deleted now m = record m { deleted_at = some now; updated_at = now }

pub bool_eq_refl : (b : Bool) → bool_eq b b ≡ true
bool_eq_refl true = refl
bool_eq_refl false = refl

pub type_eq_refl : (t : MemoryType) → type_eq t t ≡ true
type_eq_refl working = refl
type_eq_refl episodic = refl
type_eq_refl semantic = refl
type_eq_refl procedural = refl

mark_deleted-in_place :
    (now : ℕ) (m : Memory) → is_none m.deleted_at ≡ true → in_place m (mark_deleted now m) ≡ true
unfolding in_place only_deleted mark_deleted
mark_deleted-in_place now m h = elim (Option-cases m.deleted_at) [
  | inr (t, e) ↦ (let k : false ≡ true = rw e at h in cc k)
  | inl e ↦ rw (
    e,
    eq_refl m.content,
    same_text_refl m.summary,
    ==_refl m.importance_score,
    ==_refl m.recall_count,
    same_number_refl m.last_recalled_at,
    bool_eq_refl m.pinned,
    bool_eq_refl m.quarantined,
    ==_refl m.anomaly_score,
    type_eq_refl m.memory_type,
  )
]

-- The rows of one id are one row, so ids that stand for rows with `p` pick only rows with `p`.
picked :
    (p : Memory → Bool) (table : List Memory) (u : Uuid)
    → elem u (map (λ m. m.id) (filter p table)) ≡ true
    → any (has_id u) table ≡ true
picked p [] u h = cc h
picked p (x ∷ xs) u h = elim (Bool-cases (p x)) [
  | inl e ↦ elim (Bool-cases (u == x.id)) [
    | inl same ↦ rw ((==_iff u x.id).0 same, ==_refl x.id)
    | inr other ↦ (let ih = picked p xs u (rw (e, other) at h) in ground arith)
  ]
  | inr e ↦ (let ih = picked p xs u (rw e at h) in ground arith)
]

pub In-any : (table : List Memory) (m : Memory) → In m table → any (has_id m.id) table ≡ true
In-any [] m i = elim i [ ]
In-any (x ∷ xs) m (inl same) = rw (ap (λ r. r.id) same, ==_refl x.id)
In-any (x ∷ xs) m (inr there) = let ih = In-any xs m there in ground arith

picked_first :
    (p : Memory → Bool) (x : Memory) (xs : List Memory)
    → any (has_id x.id) xs ≡ false
    → elem x.id (map (λ r. r.id) (filter p (x ∷ xs))) ≡ true
    → p x ≡ true
picked_first p x xs absent h = elim (Bool-cases (p x)) [
  | inl e ↦ e
  | inr e ↦ (let found = picked p xs x.id (rw e at h) in cc)
]

picked_later :
    (p : Memory → Bool) (x : Memory) (xs : List Memory) (u : Uuid)
    → (u == x.id) ≡ false
    → elem u (map (λ r. r.id) (filter p (x ∷ xs))) ≡ true
    → elem u (map (λ r. r.id) (filter p xs)) ≡ true
picked_later p x xs u other h = elim (Bool-cases (p x)) [
  | inl e ↦ rw (e, other) at h
  | inr e ↦ rw e at h
]

pub picked-holds :
    (p : Memory → Bool) (table : List Memory) (m : Memory)
    → IsKeyed table
    → In m table
    → elem m.id (map (λ r. r.id) (filter p table)) ≡ true
    → p m ≡ true
picked-holds p [] m k i h = elim i [ ]
picked-holds p (x ∷ xs) m k (inl same) h =
    subst (λ z. p z ≡ true) (sym same)
      (picked_first p x xs k.0
        (subst (λ (z : Memory). elem z.id (map (λ r. r.id) (filter p (x ∷ xs))) ≡ true) same h))
picked-holds p (x ∷ xs) m k (inr there) h = elim (Bool-cases (m.id == x.id)) [
  | inl e ↦
      let found = In-any xs m there in
      let absent = k.0 in
      absurd (cc (subst (λ z. any (has_id z) xs ≡ true) ((==_iff m.id x.id).0 e) found))
  | inr e ↦ picked-holds p xs m k.1 there (picked_later p x xs m.id e h)
]

filter_same :
    (p q : Memory → Bool) (xs : List Memory)
    → ((m : Memory) → In m xs → p m ≡ q m)
    → filter p xs ≡ filter q xs
filter_same p q [] h = refl
filter_same p q (x ∷ xs) h =
    let e = h x (inl refl) in let ih = filter_same p q xs (λ m i. h m (inr i)) in rw (e, ih)

pub map_same :
    (f g : Memory → Memory) (xs : List Memory)
    → ((m : Memory) → In m xs → f m ≡ g m)
    → map f xs ≡ map g xs
map_same f g [] h = refl
map_same f g (x ∷ xs) h =
    ap₂ (λ (a : Memory) (b : List Memory). a ∷ b) (h x (inl refl))
      (map_same f g xs (λ m i. h m (inr i)))

abbrev pub picks : List Uuid → Memory → Bool
picks ids m = elem m.id ids

-- `where_` may be exchanged for a condition that agrees with it on the table.
pub update_where_same :
    (now : ℕ) (p q : Memory → Bool) (set : Memory → Memory) (table : List Memory)
    → ((m : Memory) → In m table → p m ≡ q m)
    → update_where now p set table ≡ update_where now q set table
unfolding update_where
update_where_same now p q set table agree =
    ap (λ rows. update_rows now set rows table) (filter_same p q table agree)

abbrev pub deleted_where : ℕ → (Memory → Bool) → Memory → Memory
deleted_where now where_ m = if where_ m then mark_deleted now m else m

-- A soft deletion whose condition holds of live rows only deletes exactly those rows and raises
-- nothing.
pub update_where-mark_deleted :
    (now : ℕ) (p where_ : Memory → Bool) (table : List Memory)
    → IsKeyed table
    → ((m : Memory) → p m ≡ true → is_none m.deleted_at ≡ true)
    → ((m : Memory) → In m table → where_ m ≡ true → p m ≡ true)
    → update_where now where_ (mark_deleted now) table
      ≡ ok (map (deleted_where now where_) table, length (filter where_ table))
update_where-mark_deleted now p where_ table k live only =
    update_where_same now where_ both (mark_deleted now) table agree
    ∙ update_where-in_place now both (mark_deleted now) (λ m. unfold mark_deleted in refl)
        (λ m h. mark_deleted-in_place now m (live m (let a = p m in ground arith))) table k
    ∙ ap₂ (λ (l : List Memory) (n : ℕ). ok (l, n))
        (map_same (deleted_where now both) (deleted_where now where_) table
          (λ m i. ap (λ b. if b then mark_deleted now m else m) (sym (agree m i))))
        (ap length (sym (filter_same where_ both table agree)))
  where
    both : Memory → Bool
    both m = where_ m && p m

    agree : (m : Memory) → In m table → where_ m ≡ both m
    agree m i = elim (Bool-cases (where_ m)) [ inl e ↦ rw (e, only m i e) | inr e ↦ rw e ]
