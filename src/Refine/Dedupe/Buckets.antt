-- ===== src/Refine/Dedupe/Buckets.antt =====
-- What the entries of the dict hold, by key.
use text.Mathlib.Text.{◌==◌ as str_eq}
use text.Mathlib.TextEquality.{eq_iff}
use text.Mathlib.TextPositions.{eq_refl}
use z3rno_core.Prelude.{
  ◌≡◌, refl, sym, ap, ◌∙◌, subst, Bool, true, false, String, Option, none, some, List, [], ◌∷◌,
  ◌++◌, map, filter, any, if◌then◌else◌, Bool-cases, inl, inr, All, append_assoc, append-nil,
}
use z3rno_core.Models.{Uuid}
use z3rno_core.Memories.Table.{same_text}
use z3rno_core.Refine.Dedupe.{DedupeRow, row_key, Bucket, append_to, place, by_key}

-- The ids of the rows with a key, in their order.
abbrev pub members : (String → String) → String → List DedupeRow → List Uuid
members lower key rows = map (λ r. r.id) (filter (λ r. same_text (row_key lower r) (some key)) rows)

abbrev pub has_key : String → Bucket → Bool
has_key key b = str_eq b.key key

abbrev pub ids_in : String → List Bucket → List Uuid
ids_in key [] = []
ids_in key (b ∷ bs) = if has_key key b then b.ids else ids_in key bs

abbrev one_if : Bool → Uuid → List Uuid
one_if c id = if c then id ∷ [] else []

str_false : (a b c : String) → str_eq a b ≡ true → str_eq a c ≡ false → str_eq b c ≡ false
str_false a b c e f = subst (λ z. str_eq z c ≡ false) ((eq_iff a b).0 e) f

str_true : (a b c : String) → str_eq a b ≡ true → str_eq a c ≡ true → str_eq b c ≡ true
str_true a b c e f = subst (λ z. str_eq z c ≡ true) ((eq_iff a b).0 e) f

ids_in-append_to :
    (key k : String) (id : Uuid) (bs : List Bucket)
    → ids_in key (append_to k id bs) ≡ ids_in key bs ++ one_if (str_eq k key) id
unfolding append_to
ids_in-append_to key k id [] = refl
ids_in-append_to key k id (b ∷ bs) = elim (Bool-cases (str_eq b.key k)) [
  | inl e ↦ elim (Bool-cases (str_eq b.key key)) [
    | inl f ↦ rw (e, f, str_true b.key k key e f)
    | inr f ↦ rw (e, f, str_false b.key k key e f) (sym (append-nil (ids_in key bs)))
  ]
  | inr e ↦ elim (Bool-cases (str_eq b.key key)) [
    | inl f ↦
        let other : str_eq k key ≡ false = elim (Bool-cases (str_eq k key)) [
          | inr g ↦ g
          | inl g ↦
              let same : str_eq b.key k ≡ true =
                subst (λ z. str_eq b.key z ≡ true) (sym ((eq_iff k key).0 g)) f in
              absurd (cc (same, e))
        ] in
        rw (e, f, other) (sym (append-nil b.ids))
    | inr f ↦ rw (e, f) (ids_in-append_to key k id bs)
  ]
]

ids_in-place :
    (key : String) (o : Option String) (id : Uuid) (bs : List Bucket)
    → ids_in key (place o id bs) ≡ ids_in key bs ++ one_if (same_text o (some key)) id
ids_in-place key none id bs = sym (append-nil (ids_in key bs))
ids_in-place key (some k) id bs = ids_in-append_to key k id bs

members-cons :
    (lower : String → String) (key : String) (r : DedupeRow) (rs : List DedupeRow)
    → members lower key (r ∷ rs)
      ≡ one_if (same_text (row_key lower r) (some key)) r.id ++ members lower key rs
members-cons lower key r rs = elim (Bool-cases (same_text (row_key lower r) (some key))) [
  | inl e ↦ rw e
  | inr e ↦ rw e
]

pub ids_in-by_key :
    (lower : String → String) (key : String) (rows : List DedupeRow) (bs : List Bucket)
    → ids_in key (by_key lower rows bs) ≡ ids_in key bs ++ members lower key rows
unfolding by_key
ids_in-by_key lower key [] bs = sym (append-nil (ids_in key bs))
ids_in-by_key lower key (r ∷ rs) bs =
    ids_in-by_key lower key rs (place (row_key lower r) r.id bs)
    ∙ ap (λ l. l ++ members lower key rs) (ids_in-place key (row_key lower r) r.id bs)
    ∙ append_assoc (ids_in key bs) (one_if (same_text (row_key lower r) (some key)) r.id)
        (members lower key rs)
    ∙ ap (λ l. ids_in key bs ++ l) (sym (members-cons lower key r rs))

-- No two entries have one key.
abbrev pub AreApart : List Bucket → Type 0
AreApart [] = Unit
AreApart (b ∷ bs) = (any (has_key b.key) bs ≡ false) × AreApart bs

any-append_to :
    (key k : String) (id : Uuid) (bs : List Bucket)
    → str_eq k key ≡ false
    → any (has_key key) bs ≡ false
    → any (has_key key) (append_to k id bs) ≡ false
unfolding append_to
any-append_to key k id [] other h = rw other
any-append_to key k id (b ∷ bs) other h = elim (Bool-cases (str_eq b.key key)) [
  | inl f ↦ absurd (let z : true ≡ false = rw f at h in cc z)
  | inr f ↦ elim (Bool-cases (str_eq b.key k)) [
    | inl e ↦ rw (e, f) (rw f at h)
    | inr e ↦ rw (e, f) (any-append_to key k id bs other (rw f at h))
  ]
]

str_sym_false : (a b : String) → str_eq a b ≡ false → str_eq b a ≡ false
str_sym_false a b e = elim (Bool-cases (str_eq b a)) [
  | inr g ↦ g
  | inl g ↦ absurd (
      let same : str_eq a b ≡ true =
        subst (λ z. str_eq z b ≡ true) ((eq_iff b a).0 g) (eq_refl b) in
      cc (same, e))
]

append_to-AreApart :
    (k : String) (id : Uuid) (bs : List Bucket) → AreApart bs → AreApart (append_to k id bs)
unfolding append_to
append_to-AreApart k id [] a = (refl, tt)
append_to-AreApart k id (b ∷ bs) a = elim (Bool-cases (str_eq b.key k)) [
  | inl e ↦ rw e (a.0, a.1)
  | inr e ↦
      rw e
        (any-append_to b.key k id bs (str_sym_false b.key k e) a.0, append_to-AreApart k id bs a.1)
]

pub by_key-AreApart :
    (lower : String → String) (rows : List DedupeRow) (bs : List Bucket)
    → AreApart bs
    → AreApart (by_key lower rows bs)
unfolding by_key
by_key-AreApart lower [] bs a = a
by_key-AreApart lower (r ∷ rs) bs a =
    by_key-AreApart lower rs (place (row_key lower r) r.id bs) (placed (row_key lower r))
  where
    placed : (o : Option String) → AreApart (place o r.id bs)
    placed none = a
    placed (some k) = append_to-AreApart k r.id bs a

-- An entry holds what is found under its key.
abbrev pub Holds : List Bucket → Bucket → Type 0
Holds all b = b.ids ≡ ids_in b.key all

Holds-later :
    (b : Bucket) (all bs : List Bucket)
    → any (has_key b.key) bs ≡ false
    → All (Holds all) bs
    → All (Holds (b ∷ all)) bs
Holds-later b all [] h a = tt
Holds-later b all (c ∷ cs) h a = elim (Bool-cases (str_eq c.key b.key)) [
  | inl e ↦ absurd (let z : true ≡ false = rw e at h in cc z)
  | inr e ↦ (rw (str_sym_false c.key b.key e) a.0, Holds-later b all cs (rw e at h) a.1)
]

pub Holds-all : (bs : List Bucket) → AreApart bs → All (Holds bs) bs
Holds-all [] a = tt
Holds-all (b ∷ bs) a = (rw (eq_refl b.key), Holds-later b bs bs a.0 (Holds-all bs a.1))
