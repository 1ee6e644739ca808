-- ===== src/Usage/Totals.antt =====
-- What recording adds to the totals of a window.
use mathlib.Core.List.{Permᴰ}
use z3rno_core.Prelude.{
  ℕ, ◌+◌, ◌≡◌, refl, sym, ap, ap₂, ◌∙◌, Bool, true, false, ◌&&◌, List, [], ◌∷◌, filter, leb,
  if◌then◌else◌, ◌==◌, Bool-cases, inl, inr, arith,
}
use z3rno_core.Models.{Uuid}
use z3rno_core.Usage.Counters.{
  UsageKind, kind_eq, Counter, has_key, upsert, record_usage, in_window, total,
}

swapped :
    (k : UsageKind) (a b : Counter) (l : List Counter) → total k (a ∷ b ∷ l) ≡ total k (b ∷ a ∷ l)
unfolding total
swapped k a b l = elim (Bool-cases (kind_eq a.kind k)) [
  | inl e ↦ elim (Bool-cases (kind_eq b.kind k)) [
    | inl f ↦ rw (e, f) (omega arith)
    | inr f ↦ rw (e, f)
  ]
  | inr e ↦ rw e
]

pub total-perm : (k : UsageKind) {xs ys : List Counter} → Permᴰ xs ys → total k xs ≡ total k ys
unfolding total
total-perm k Permᴰ.nil = refl
total-perm k (Permᴰ.cons {l₁ = l} {l₂ = m} e p) =
    ap₂ (λ (r : Counter) (t : ℕ). if kind_eq r.kind k then r.count + t else t) e (total-perm k p)
total-perm k (Permᴰ.trans p q) = total-perm k p ∙ total-perm k q
total-perm k (Permᴰ.swap {a = a} {b = b} {l = l} e f) =
    swapped k a b l ∙ ap₂ (λ (x y : Counter). total k (x ∷ y ∷ l)) f e

-- The sum of one kind over a window, straight from the table.
abbrev pub used : Uuid → UsageKind → ℕ → ℕ → List Counter → ℕ
used org k since until rows = total k (filter (in_window org since until) rows)

abbrev pub counts : Uuid → UsageKind → ℕ → ℕ → Uuid → UsageKind → ℕ → Bool
counts org k since until org' kind day =
    (org' == org) && (kind_eq kind k && (leb since day && leb day until))

-- One row more in front.
used_cons :
    (org : Uuid) (k : UsageKind) (since until : ℕ) (r : Counter) (rows : List Counter)
    → used org k since until (r ∷ rows)
      ≡ (if counts org k since until r.org_id r.kind r.period_day then r.count else 0)
        + used org k since until rows
unfolding total
used_cons org k since until r rows = elim (Bool-cases (in_window org since until r)) [
  | inl e ↦ rw e (ground arith)
  | inr e ↦ rw e (ground arith)
]

same_counts :
    (org : Uuid) (k : UsageKind) (since until : ℕ) (org' : Uuid) (kind : UsageKind) (day : ℕ)
    (r : Counter)
    → has_key org' day kind r ≡ true
    → counts org k since until r.org_id r.kind r.period_day ≡ counts org k since until org' kind day
same_counts org k since until org' kind day r e = ground arith

shifted :
    {b c : Bool} (n m u : ℕ)
    → b ≡ c
    → (if b then n + m else 0) + u ≡ ((if b then n else 0) + u) + (if c then m else 0)
shifted {b = true} {c = true} n m u e = omega arith
shifted {b = false} {c = false} n m u e = omega arith
shifted {b = true} {c = false} n m u e = absurd (cc e)
shifted {b = false} {c = true} n m u e = absurd (cc e)

upsert-used :
    (org : Uuid) (k : UsageKind) (since until : ℕ) (org' : Uuid) (kind : UsageKind) (count day : ℕ)
    (rows : List Counter)
    → used org k since until (upsert org' day kind count rows)
      ≡ used org k since until rows + (if counts org k since until org' kind day then count else 0)
unfolding upsert
upsert-used org k since until org' kind count day [] =
    used_cons org k since until
      (record { org_id = org'; period_day = day; kind = kind; count = count }) []
    ∙ (unfold total in omega arith)
upsert-used org k since until org' kind count day (r ∷ rows) =
    elim (Bool-cases (has_key org' day kind r)) [
      | inl e ↦
          let a = used_cons org k since until r rows in
          let b = used_cons org k since until (record r { count = r.count + count }) rows in
          rw e (
            b
            ∙ shifted r.count count (used org k since until rows)
                (same_counts org k since until org' kind day r e)
            ∙ ap (λ z. z + (if counts org k since until org' kind day then count else 0)) (sym a))
      | inr e ↦
          let a = used_cons org k since until r rows in
          let b = used_cons org k since until r (upsert org' day kind count rows) in
          let ih = upsert-used org k since until org' kind count day rows in
          rw e (
            b
            ∙ ap
                (λ z.
                  (if counts org k since until r.org_id r.kind r.period_day then r.count else 0)
                  + z)
                ih
            ∙ omega arith
            ∙ ap (λ z. z + (if counts org k since until org' kind day then count else 0)) (sym a))
    ]

-- Recording `count` under any organisation, kind and day adds `count` to the totals of exactly the
-- organisation's windows that hold the day and have the kind, and changes no other total.
pub record_usage-used :
    (org : Uuid) (k : UsageKind) (since until : ℕ) (org' : Uuid) (kind : UsageKind) (count day : ℕ)
    (rows : List Counter)
    → used org k since until (record_usage org' kind count day rows)
      ≡ used org k since until rows + (if counts org k since until org' kind day then count else 0)
unfolding record_usage
record_usage-used org k since until org' kind count day rows = elim (Bool-cases (leb count 0)) [
  | inl e ↦ rw e (ground arith)
  | inr e ↦ rw e (upsert-used org k since until org' kind count day rows)
]
