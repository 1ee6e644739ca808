-- ===== src/Chunking/Paragraphs/Slices.antt =====
-- Spans in order, and slices of a text that meet.
use Prim.Native.String.{◌++◌ as append}
use text.Mathlib.TextLemmas.{nil-append, cons-append}
use z3rno_core.Prelude.{
  ℕ, zero, suc, ◌+◌, ◌-◌, ◌≡◌, ◌≤◌, ◌<◌, refl, sym, ap, ◌∙◌, Bool, String, List, [], ◌∷◌, filter,
  ltb, Bool-cases, inl, inr, arith,
}
use z3rno_core.Text.{text_length, text_take, text_drop, text_slice}
use z3rno_core.Chunking.Paragraphs.{Span, spans_from}

-- The spans start at `lo` or later, in order, and none is empty.
abbrev pub AreSpans : ℕ → List Span → Type 0
AreSpans lo [] = Unit
AreSpans lo (s ∷ ss) = (lo ≤ s.0) × (s.0 < s.1) × AreSpans s.1 ss

-- As `finditer` gives its matches: in order, and apart.
abbrev pub AreMatches : ℕ → List Span → Type 0
AreMatches lo [] = Unit
AreMatches lo (m ∷ ms) = (lo ≤ m.0) × (m.0 ≤ m.1) × AreMatches m.1 ms

lower : (a b : ℕ) (ss : List Span) → a ≤ b → AreSpans b ss → AreSpans a ss
lower a b [] h k = tt
lower a b (s ∷ ss) h k = ((let x = k.0 in omega (arith, h, x)), k.1, k.2)

pub spans_from-AreSpans :
    (text : String) (pos : ℕ) (ms : List Span)
    → AreMatches pos ms
    → AreSpans pos (spans_from text pos ms)
unfolding spans_from
spans_from-AreSpans text pos [] a = elim (Bool-cases (ltb pos (text_length text))) [
  | inl e ↦ rw e (omega arith, ground arith, tt)
  | inr e ↦ rw e tt
]
spans_from-AreSpans text pos (m ∷ ms) a =
    let x = a.0 in
    let y = a.1 in
    elim (Bool-cases (ltb pos m.0)) [
      | inl e ↦
          rw e (omega arith, ground arith, lower m.0 m.1 _ y (spans_from-AreSpans text m.1 ms a.2))
      | inr e ↦ rw e (lower pos m.1 _ (omega (arith, x, y)) (spans_from-AreSpans text m.1 ms a.2))
    ]

pub filter-AreSpans :
    (p : Span → Bool) (lo : ℕ) (ss : List Span) → AreSpans lo ss → AreSpans lo (filter p ss)
filter-AreSpans p lo [] a = tt
filter-AreSpans p lo (s ∷ ss) a = elim (Bool-cases (p s)) [
  | inl e ↦ rw e (a.0, a.1, filter-AreSpans p s.1 ss a.2)
  | inr e ↦
      (let x = a.0 in
        let y = a.1 in rw e (lower lo s.1 _ (omega (arith, x, y)) (filter-AreSpans p s.1 ss a.2)))
]

take-nil : (n : ℕ) → text_take n String.[] ≡ String.[]
take-nil zero = refl
take-nil (suc n) = refl

drop-nil : (n : ℕ) → text_drop n String.[] ≡ String.[]
drop-nil zero = refl
drop-nil (suc n) = refl

suc_add : (n m : ℕ) → suc n + m ≡ suc (n + m)
suc_add n m = omega arith

take-join :
    (n m : ℕ) (s : String)
    → append (text_take n s) (text_take m (text_drop n s)) ≡ text_take (n + m) s
take-join zero m s = nil-append (text_take m s) ∙ ap (λ k. text_take k s) (omega arith)
take-join (suc n) m String.[] =
    nil-append (text_take m String.[]) ∙ take-nil m ∙ sym (take-nil (suc n + m))
take-join (suc n) m (String.◌∷◌ c s) =
    cons-append c (text_take n s) (text_take m (text_drop n s))
    ∙ ap (λ t. String.◌∷◌ c t) (take-join n m s)
    ∙ ap (λ k. text_take k (String.◌∷◌ c s)) (sym (suc_add n m))

drop-drop : (n m : ℕ) (s : String) → text_drop m (text_drop n s) ≡ text_drop (n + m) s
drop-drop zero m s = ap (λ k. text_drop k s) (omega arith)
drop-drop (suc n) m String.[] = drop-nil m ∙ sym (drop-nil (suc n + m))
drop-drop (suc n) m (String.◌∷◌ c s) =
    drop-drop n m s ∙ ap (λ k. text_drop k (String.◌∷◌ c s)) (sym (suc_add n m))

pub slice-join :
    (i j k : ℕ) (s : String)
    → i ≤ j
    → j ≤ k
    → append (text_slice i j s) (text_slice j k s) ≡ text_slice i k s
slice-join i j k s h l =
    let e : i + (j - i) ≡ j = omega arith in
    let f : (j - i) + (k - j) ≡ k - i = omega arith in
    ap (λ t. append (text_take (j - i) (text_drop i s)) (text_take (k - j) t))
      (ap (λ n. text_drop n s) (sym e) ∙ sym (drop-drop i (j - i) s))
    ∙ take-join (j - i) (k - j) (text_drop i s)
    ∙ ap (λ n. text_take n (text_drop i s)) f
