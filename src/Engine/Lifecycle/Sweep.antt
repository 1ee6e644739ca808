-- ===== src/Engine/Lifecycle/Sweep.antt =====
-- `sweep_expired_memories`: which rows it deletes.
use z3rno_core.Prelude.{
  ℕ, ◌≡◌, refl, sym, ap, ◌∙◌, subst, Bool, true, false, String, List, [], ◌∷◌, ◌++◌, map, filter,
  elem, is_none, if◌then◌else◌, ==_refl, Bool-cases, inl, inr, In, arith, append-nil,
}
use z3rno_core.Models.{Uuid, AuditOperation}
use z3rno_core.Result.{ok, ◌>>=◌}
use z3rno_core.Memories.Table.{Memory}
use z3rno_core.Memories.InPlace.{IsKeyed}
use z3rno_core.Memories.Deleted.{
  mark_deleted, picks, picked-holds, deleted_where, update_where-mark_deleted, map_same,
}
use z3rno_core.Engine.State.{State, Context}
use z3rno_core.Engine.Forget.Delete.{audit_each}
use z3rno_core.Engine.Forget.After.{events, event_of, audit_each_lem}
use z3rno_core.Engine.Lifecycle.{no_context, is_expired, expire, sweep_expired_memories}

-- Rows with `p` stand under their own ids.
pub own_id :
    (p : Memory → Bool) (xs : List Memory) (m : Memory)
    → In m xs
    → p m ≡ true
    → elem m.id (map (λ r. r.id) (filter p xs)) ≡ true
own_id p [] m i h = elim i [ ]
own_id p (x ∷ xs) m (inl same) h =
    let q : p x ≡ true = subst (λ z. p z ≡ true) same h in rw (q, ap (λ r. r.id) same, ==_refl x.id)
own_id p (x ∷ xs) m (inr there) h = elim (Bool-cases (p x)) [
  | inl e ↦ (let ih = own_id p xs m there h in rw e (ground arith))
  | inr e ↦ rw e (own_id p xs m there h)
]

-- Picking the ids of the rows with `p` picks the rows with `p`.
picks_own :
    (p : Memory → Bool) (table : List Memory)
    → IsKeyed table
    → (m : Memory) → In m table
    → picks (map (λ r. r.id) (filter p table)) m ≡ p m
picks_own p table k m i = elim (Bool-cases (p m)) [
  | inl e ↦ own_id p table m i e ∙ sym e
  | inr e ↦ elim (Bool-cases (picks (map (λ r. r.id) (filter p table)) m)) [
    | inl h ↦ absurd (cc (picked-holds p table m k i h))
    | inr h ↦ h ∙ sym e
  ]
]

-- `expire` under ids that all belong to live rows.
pub expire_lem :
    (details : Uuid → String) (org : Uuid) (c : Context) (now : ℕ) (p : Memory → Bool)
    (ids : List Uuid) (s : State)
    → IsKeyed s.memories
    → ((m : Memory) → p m ≡ true → is_none m.deleted_at ≡ true)
    → ((m : Memory) → In m s.memories → picks ids m ≡ true → p m ≡ true)
    → (s' : State) × (expire details org c now ids s ≡ ok (s', ids))
      × (s'.memories ≡ map (deleted_where now (picks ids)) s.memories)
      × (events s' ≡ events s ++ map (event_of org AuditOperation.forget details c) ids)
unfolding expire
expire_lem details org c now p [] s k live only =
    (s, refl, sym (same s.memories), sym (append-nil (events s)))
  where
    same : (xs : List Memory) → map (λ m. m) xs ≡ xs
    same [] = refl
    same (x ∷ xs) = ap (◌∷◌ x) (same xs)
expire_lem details org c now p (id ∷ ids) s k live only =
    let s1 : State = record s {
      memories = map (deleted_where now (picks (id ∷ ids))) s.memories;
    } in
    let (m, rel, cert, e) = audit_each_lem org AuditOperation.forget details c now (id ∷ ids) s1 in
    (
      audit_each org AuditOperation.forget details c now (id ∷ ids) s1,
      ap
          (λ r. r >>= λ done. ok (
            audit_each org AuditOperation.forget details c now (id ∷ ids)
                (record s { memories = done.0 }),
            id ∷ ids,
          ))
          (update_where-mark_deleted now p (picks (id ∷ ids)) s.memories k live only),
      m,
      e,
    )

not_expired :
    (org : Uuid) (now : ℕ) (x : Memory)
    → is_expired org now (deleted_where now (is_expired org now) x) ≡ false
unfolding mark_deleted
not_expired org now x = elim (Bool-cases (is_expired org now x)) [
  | inr e ↦ ap (λ b. is_expired org now (if b then mark_deleted now x else x)) e ∙ e
  | inl e ↦ ap (λ b. is_expired org now (if b then mark_deleted now x else x)) e ∙ ground arith
]

none_expired :
    (org : Uuid) (now : ℕ) (xs : List Memory)
    → filter (is_expired org now) (map (deleted_where now (is_expired org now)) xs) ≡ []
none_expired org now [] = refl
none_expired org now (x ∷ xs) =
    ap
      (λ b.
        if b
        then deleted_where now (is_expired org now) x
          ∷ filter (is_expired org now) (map (deleted_where now (is_expired org now)) xs)
        else filter (is_expired org now) (map (deleted_where now (is_expired org now)) xs))
      (not_expired org now x)
    ∙ none_expired org now xs

-- The sweep returns, on a table whose ids are distinct. It marks exactly the live rows of the organisation whose TTL has passed, so that
-- none is left for a second sweep, returns their ids and enqueues one audit event for each.
pub sweep_expired_memories_lem :
    (details : String) (org : Uuid) (now : ℕ) (s : State)
    → IsKeyed s.memories
    → (s' : State) × (sweep_expired_memories details org now s
        ≡ ok (s', map (λ m. m.id) (filter (is_expired org now) s.memories)))
      × (s'.memories ≡ map (deleted_where now (is_expired org now)) s.memories)
      × (filter (is_expired org now) s'.memories ≡ [])
      × (events s'
          ≡ events s
            ++ map
                (event_of org AuditOperation.forget (λ id. details) no_context)
                (map (λ m. m.id) (filter (is_expired org now) s.memories)))
unfolding sweep_expired_memories
sweep_expired_memories_lem details org now s k =
    let p = is_expired org now in
    let ids = map (λ m. m.id) (filter p s.memories) in
    let (s', e, m, v) =
      expire_lem (λ id. details) org no_context now p ids s k (λ m h. (ground arith))
        (λ m i h. picked-holds p s.memories m k i h) in
    let rows =
      m
      ∙ map_same (deleted_where now (picks ids)) (deleted_where now p) s.memories
          (λ x i. ap (λ b. if b then mark_deleted now x else x) (picks_own p s.memories k x i)) in
    (s', e, rows, ap (filter p) rows ∙ none_expired org now s.memories, v)
