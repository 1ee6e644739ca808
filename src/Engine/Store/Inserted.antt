-- ===== src/Engine/Store/Inserted.antt =====
-- The memory and the relationships that `store` inserts.
use mathlib.Core.List.{map-append}
use z3rno_core.Prelude.{
  ℕ, ◌+◌, ◌≡◌, ◌≤◌, refl, sym, ap, ◌∙◌, true, false, some, List, [], ◌∷◌, ◌++◌, map, any, ltb, ◌==◌,
  append_assoc, append-nil, arith, none, Bool, ◌||◌, Option-cases, inl, inr, if◌then◌else◌,
}
use z3rno_core.Models.{Uuid}
use z3rno_core.Result.{ok}
use z3rno_core.Memories.Table.{Memory, has_id}
use z3rno_core.Engine.State.{Relationship}
use z3rno_core.Engine.Store.{
  StoreInput, RelationshipInput, new_memory, new_relationship, insert_relationship,
  insert_relationships,
}

-- The relationships of a memory `id` meet the constraints of their table when they are inserted in
-- order: fresh ids, weights of at most 1, and targets other than the memory that stand in `table`.
abbrev pub AreAcceptable :
    List Memory
    → Uuid
    → List Relationship
    → List RelationshipInput
    → List RelationshipInput
    → Type 0
AreAcceptable table id rows seen [] = Unit
AreAcceptable table id rows seen (rel ∷ rels) =
    (any (λ x. x.id == rel.rel_id) rows ≡ false)
    × (any (λ x. x.rel_id == rel.rel_id) seen ≡ false)
    × (rel.weight ≤ 1000000)
    × ((id == rel.target_memory_id) ≡ false)
    × (any (has_id rel.target_memory_id) table ≡ true)
    × AreAcceptable table id rows (seen ++ rel ∷ []) rels

-- `rows` are the relationships that the inputs describe, one for each, in their order.
abbrev pub Describe : Uuid → Uuid → List RelationshipInput → List Relationship → Type 0
Describe id org [] [] = Unit
Describe id org [] (row ∷ rows) = ⊥
Describe id org (rel ∷ rels) [] = ⊥
Describe id org (rel ∷ rels) (row ∷ rows) =
    (row.id ≡ rel.rel_id)
    × (row.org_id ≡ org)
    × (row.source_memory_id ≡ id)
    × (row.target_memory_id ≡ rel.target_memory_id)
    × (row.relationship_type ≡ rel.relationship_type)
    × (row.weight ≡ rel.weight)
    × (row.metadata ≡ rel.metadata)
    × Describe id org rels rows

-- The row holds what the caller gave, with the defaults of what was not given, and is live, current and
-- as yet never recalled.
pub record IsStored (id org : Uuid) (i : StoreInput) (clock : ℕ) (m : Memory) : Type 0 where
  pub named : m.id ≡ id
  pub owned : m.org_id ≡ org
  pub by_agent : m.agent_id ≡ i.agent_id
  pub for_user : m.user_id ≡ i.user_id
  pub typed : m.memory_type ≡ i.memory_type
  pub said : m.content ≡ i.content
  pub described : m.metadata ≡ i.metadata
  pub weighed : m.importance_score ≡ (elim i.importance [ none ↦ 500000 | some n ↦ n ])
  pub starts : m.valid_from ≡ clock
  pub lasts : m.valid_to ≡ none
  pub live : m.deleted_at ≡ none
  pub expires :
      m.ttl_expires_at
      ≡ (elim i.ttl_seconds [ none ↦ none | some n ↦ if n == 0 then none else some (clock + n) ])
  pub in_dataset : m.dataset_id ≡ i.dataset_id
  pub distilled : m.distill_provenance ≡ i.distill_provenance
  pub embedded :
      m.embedding ≡ (elim i.embedding_provider [ none ↦ none | some p ↦ p.embed_text i.content ])
  pub never_recalled : m.recall_count ≡ 0
  pub unpinned : m.pinned ≡ false

has-append :
    (id : Uuid) (m : Memory) (xs : List Memory) → m.id ≡ id → any (has_id id) (xs ++ m ∷ []) ≡ true
has-append id m [] e = let f : (m.id == id) ≡ true = ground (arith, e) in rw f
has-append id m (x ∷ xs) e = let ih = has-append id m xs e in ground arith

pub any-append :
    {A : Type 0} (p : A → Bool) (xs ys : List A) → any p (xs ++ ys) ≡ (any p xs || any p ys)
any-append p [] ys = refl
any-append p (x ∷ xs) ys = let ih = any-append p xs ys in ground arith

pub no_row :
    (id org u : Uuid) (seen : List RelationshipInput)
    → any (λ x. x.rel_id == u) seen ≡ false
    → any (λ x. x.id == u) (map (new_relationship id org) seen) ≡ false
no_row id org u [] h = refl
no_row id org u (x ∷ xs) h = let ih = no_row id org u xs in ground arith

pub insert_relationships_lem :
    (table : List Memory) (m : Memory) (id org : Uuid) (rows : List Relationship)
    (seen rels : List RelationshipInput)
    → m.id ≡ id
    → AreAcceptable table id rows seen rels
    → insert_relationships
        (table ++ m ∷ [])
        id
        org
        rels
        (rows ++ map (new_relationship id org) seen)
      ≡ ok (rows ++ map (new_relationship id org) (seen ++ rels))
unfolding insert_relationships insert_relationship
insert_relationships_lem table m id org rows seen [] e a =
    ap (λ l. ok (rows ++ map (new_relationship id org) l)) (sym (append-nil seen))
insert_relationships_lem table m id org rows seen (rel ∷ rels) e a =
    let (unused, unseen, weight, other, there, rest) = a in
    let now_rows = rows ++ map (new_relationship id org) seen in
    let light : ltb 1000000 rel.weight ≡ false = ground arith in
    let free : any (λ x. x.id == rel.rel_id) now_rows ≡ false =
      any-append (λ (x : Relationship). x.id == rel.rel_id) rows
        (map (new_relationship id org) seen)
      ∙ rw (unused, no_row id org rel.rel_id seen unseen) in
    let found : any (has_id rel.target_memory_id) (table ++ m ∷ []) ≡ true =
      any-append (has_id rel.target_memory_id) table (m ∷ []) ∙ rw there in
    rw (free, light, other, has-append id m table e, found)
      (ap (insert_relationships (table ++ m ∷ []) id org rels) (
          append_assoc rows (map (new_relationship id org) seen) (new_relationship id org rel ∷ [])
          ∙ ap (λ l. rows ++ l) (sym (map-append (new_relationship id org) seen (rel ∷ []))))
        ∙ insert_relationships_lem table m id org rows (seen ++ rel ∷ []) rels e rest
        ∙ ap (λ l. ok (rows ++ map (new_relationship id org) l))
            (append_assoc seen (rel ∷ []) rels))

pub new_relationship-Describe :
    (id org : Uuid) (rels : List RelationshipInput)
    → Describe id org rels (map (new_relationship id org) rels)
new_relationship-Describe id org [] = tt
new_relationship-Describe id org (rel ∷ rels) =
    (refl, refl, refl, refl, refl, refl, refl, new_relationship-Describe id org rels)

pub new_memory-IsStored :
    (id org : Uuid) (i : StoreInput) (clock : ℕ)
    → IsStored id org i clock (new_memory id org i clock)
new_memory-IsStored id org i clock = record {
  named = refl;
  owned = refl;
  by_agent = refl;
  for_user = refl;
  typed = refl;
  said = refl;
  described = refl;
  weighed = elim (Option-cases i.importance) [ inl e ↦ rw e | inr (n, e) ↦ rw e ];
  starts = refl;
  lasts = refl;
  live = refl;
  expires = elim (Option-cases i.ttl_seconds) [ inl e ↦ rw e | inr (n, e) ↦ rw e ];
  in_dataset = refl;
  distilled = refl;
  embedded = elim (Option-cases i.embedding_provider) [ inl e ↦ rw e | inr (p, e) ↦ rw e ];
  never_recalled = refl;
  unpinned = refl;
}
