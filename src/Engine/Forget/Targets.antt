-- ===== src/Engine/Forget/Targets.antt =====
-- Which memories `forget` works on.
use z3rno_core.Prelude.{
  ◌≡◌, refl, sym, ap, ◌∙◌, subst, Bool, true, false, not, ◌&&◌, List, [], ◌∷◌, ◌++◌, elem,
  if◌then◌else◌, ◌==◌, ==_iff, ==_refl, Bool-cases, ◌⊎◌, inl, inr, ◌↔◌, arith,
}
use z3rno_core.Models.{Uuid}
use z3rno_core.Audit.Tables.{distinct}
use z3rno_core.Engine.State.{State}
use z3rno_core.Engine.Forget.Related.{find_related_memories}
use z3rno_core.Engine.Forget.Edges.{Within, elem-append}
use z3rno_core.Engine.Forget.Hops.{find_related_memories-Within}
use z3rno_core.Engine.Forget.Delete.{Request, named, cascaded, targets}

distinct_step :
    (seen : List Uuid) (x : Uuid) (xs : List Uuid)
    → distinct seen (x ∷ xs)
      ≡ (if elem x seen then distinct seen xs else x ∷ distinct (x ∷ seen) xs)
unfolding distinct
distinct_step seen x xs = by_case (elem x seen)
  where
    by_case :
        (b : Bool)
        → elim b [ true ↦ distinct seen xs | false ↦ x ∷ distinct (x ∷ seen) xs ]
          ≡ (if b then distinct seen xs else x ∷ distinct (x ∷ seen) xs)
    by_case true = refl
    by_case false = refl

-- `distinct seen xs` has the elements of `xs` that are not among `seen`.
pub elem-distinct :
    (v : Uuid) (seen xs : List Uuid) → elem v (distinct seen xs) ≡ (elem v xs && not (elem v seen))
unfolding distinct
elem-distinct v seen [] = refl
elem-distinct v seen (x ∷ xs) =
    ap (elem v) (distinct_step seen x xs)
    ∙ (let same = elem-distinct v seen xs in
        let more = elem-distinct v (x ∷ seen) xs in
        elim (Bool-cases (v == x)) [
          | inr other ↦ elim (Bool-cases (elem x seen)) [
            | inl e ↦ rw e (ground arith)
            | inr e ↦ rw e (ground arith)
          ]
          | inl eq ↦
              let agree : elem v seen ≡ elem x seen = ap (λ z. elem z seen) ((==_iff v x).0 eq) in
              elim (Bool-cases (elem x seen)) [
                | inl e ↦ rw e (ground arith)
                | inr e ↦ rw e (ground arith)
              ]
        ])

-- Each element once.
abbrev pub IsUnique : List Uuid → Type 0
IsUnique [] = Unit
IsUnique (x ∷ xs) = (elem x xs ≡ false) × IsUnique xs

pub distinct-IsUnique : (seen xs : List Uuid) → IsUnique (distinct seen xs)
unfolding distinct
distinct-IsUnique seen [] = tt
distinct-IsUnique seen (x ∷ xs) =
    subst IsUnique (sym (distinct_step seen x xs)) (elim (Bool-cases (elem x seen)) [
      | inl e ↦ rw e (distinct-IsUnique seen xs)
      | inr e ↦ rw e (
        (let d = elem-distinct x (x ∷ seen) xs in let r = ==_refl x in ground arith),
        distinct-IsUnique (x ∷ seen) xs,
      )
    ])

-- `forget` works on the memories that the caller names and, if it cascades, on those within
-- `cascade_depth` relationships of one of them, and works on each of them once.
pub targets_lem :
    (org : Uuid) (r : Request) (s : State)
    → IsUnique (targets org r s)
      × ((v : Uuid)
          → (elem v (targets org r s) ≡ true) ↔ (
              (elem v (named r) ≡ true)
              ⊎ ((r.cascade ≡ true) × Within org s.relationships (named r) r.cascade_depth v)))
unfolding targets
targets_lem org r s = (distinct-IsUnique [] (named r ++ cascaded org r s), both)
  where
    all : List Uuid
    all = named r ++ cascaded org r s

    member :
        (v : Uuid)
        → elem v (distinct [] all) ≡ true
        → elem v (named r) ≡ false
        → elem v (cascaded org r s) ≡ true
    member v h e =
        let d = elem-distinct v [] all in
        let a = elem-append v (named r) (cascaded org r s) in ground arith

    found :
        (v : Uuid)
        → elem v (distinct [] all) ≡ true
        → elem v (named r) ≡ false
        → r.cascade ≡ true
        → elem v (find_related_memories org s.relationships (named r) r.cascade_depth) ≡ true
    found v h e c = rw c at (member v h e)

    nothing :
        (v : Uuid)
        → elem v (distinct [] all) ≡ true
        → elem v (named r) ≡ false
        → r.cascade ≡ false
        → ⊥
    nothing v h e c = let m : false ≡ true = rw c at (member v h e) in cc m

    forth :
        (v : Uuid)
        → elem v (distinct [] all) ≡ true
        → (elem v (named r) ≡ true)
          ⊎ ((r.cascade ≡ true) × Within org s.relationships (named r) r.cascade_depth v)
    forth v h = elim (Bool-cases (elem v (named r))) [
      | inl e ↦ inl e
      | inr e ↦ elim (Bool-cases r.cascade) [
        | inl c ↦ inr (
          c,
          ((find_related_memories-Within org s.relationships (named r) r.cascade_depth v).0
              (found v h e c)).0,
        )
        | inr c ↦ absurd (nothing v h e c)
      ]
    ]

    from_named : (v : Uuid) → elem v (named r) ≡ true → elem v (distinct [] all) ≡ true
    from_named v e =
        let d = elem-distinct v [] all in
        let a = elem-append v (named r) (cascaded org r s) in ground arith

    from_cascade :
        (v : Uuid)
        → r.cascade ≡ true
        → elem v (find_related_memories org s.relationships (named r) r.cascade_depth) ≡ true
        → elem v (distinct [] all) ≡ true
    from_cascade v c f =
        let g : elem v (cascaded org r s) ≡ true = rw c f in
        let d = elem-distinct v [] all in
        let a = elem-append v (named r) (cascaded org r s) in ground arith

    back :
        (v : Uuid)
        → (elem v (named r) ≡ true)
          ⊎ ((r.cascade ≡ true) × Within org s.relationships (named r) r.cascade_depth v)
        → elem v (distinct [] all) ≡ true
    back v (inl e) = from_named v e
    back v (inr (c, w)) = elim (Bool-cases (elem v (named r))) [
      | inl e ↦ from_named v e
      | inr e ↦
          from_cascade v c (
            (find_related_memories-Within org s.relationships (named r) r.cascade_depth v).1 (w, e))
    ]

    both :
        (v : Uuid)
        → (elem v (distinct [] all) ≡ true) ↔ (
            (elem v (named r) ≡ true)
            ⊎ ((r.cascade ≡ true) × Within org s.relationships (named r) r.cascade_depth v))
    both v = (forth v, back v)
