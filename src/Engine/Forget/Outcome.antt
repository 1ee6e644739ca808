-- ===== src/Engine/Forget/Outcome.antt =====
-- What `forget` leaves behind, for a soft and for a hard deletion.
use z3rno_core.Prelude.{
  ℕ, ◌≡◌, sym, ap, ◌∙◌, subst, Bool, true, false, not, String, List, [], ◌∷◌, ◌++◌, map, filter,
  elem, length, is_none, Bool-cases, inl, inr, All, arith, if◌then◌else◌,
}
use z3rno_core.Models.{Uuid, AuditOperation}
use z3rno_core.Result.{ok, ◌>>=◌}
use z3rno_core.Memories.Table.{Memory}
use z3rno_core.Memories.InPlace.{IsKeyed}
use z3rno_core.Memories.Deleted.{deleted_where, update_where-mark_deleted}
use z3rno_core.Engine.State.{State, Transaction, commit, Context, Relationship}
use z3rno_core.Engine.Forget.Delete.{
  Request, ForgetResult, named, targets, soft_matches, hard_matches, severed, soft_delete,
  hard_delete, content_hashes, operation_of, after_delete, forget, delete,
}
use z3rno_core.Engine.Forget.After.{
  events, event_of, is_taken, issued, or_aborted, commit-or_aborted, after_delete_lem,
  forget_of_delete, some_target,
}

pub soft_delete_lem :
    (org : Uuid) (ids : List Uuid) (now : ℕ) (s : State)
    → IsKeyed s.memories
    → soft_delete org ids now s
      ≡ ok (
        record s { memories = map (deleted_where now (soft_matches org ids)) s.memories },
        length (filter (soft_matches org ids) s.memories),
      )
unfolding soft_delete
soft_delete_lem org ids now s keyed =
    ap (λ x. x >>= λ done. ok (record s { memories = done.0 }, done.1))
      (update_where-mark_deleted now (λ m. is_none m.deleted_at) (soft_matches org ids) s.memories
        keyed (λ m h. h) (λ m i h. (let a = elem m.id ids in ground arith)))

-- A soft `forget` that names a memory returns, on a table whose ids are distinct. Where it has a signing
-- key whose certificate id is taken already, it issues no certificate and the transaction is aborted, so
-- that a COMMIT leaves what there was before. Otherwise it marks exactly the live rows of its
-- organisation among the targets, keeps every other row and all relationships, and enqueues one audit
-- event for each target. The result names the targets and the number of rows that it marked.
pub soft_forget_lem :
    (details : Uuid → String) (org : Uuid) (r : Request) (c : Context) (now : ℕ) (s : State)
    (u : Uuid) (us : List Uuid)
    → IsKeyed s.memories
    → r.hard_delete ≡ false
    → named r ≡ u ∷ us
    → (t : Transaction) × (s' : State) × (result : ForgetResult) × (forget details org r c now s
        ≡ ok (t, result))
      × (t ≡ or_aborted (is_taken r.signing_key s.certificates) s')
      × (commit s t ≡ (if is_taken r.signing_key s.certificates then s else s'))
      × (s'.memories ≡ map (deleted_where now (soft_matches org (targets org r s))) s.memories)
      × (s'.relationships ≡ s.relationships)
      × (events s'
          ≡ events s ++ map (event_of org AuditOperation.forget details c) (targets org r s))
      × (result.deleted_count ≡ length (filter (soft_matches org (targets org r s)) s.memories))
      × (result.memory_ids ≡ targets org r s)
      × (result.cert_id ≡ issued r.signing_key s.certificates)
soft_forget_lem details org r c now s u us keyed soft given =
    let ids = targets org r s in
    let marked = map (deleted_where now (soft_matches org ids)) s.memories in
    let count = length (filter (soft_matches org ids) s.memories) in
    let s1 : State = record s { memories = marked } in
    let hashes = content_hashes r.signing_key org ids s in
    let (v, vs, target) = some_target org r s u us given in
    let (s', t, m, rel, e, n, i, cert) =
      after_delete_lem details org r c now s hashes s1 count v vs target in
    (
      (after_delete details org r c now s hashes (s1, count)).0,
      s',
      (after_delete details org r c now s hashes (s1, count)).1,
      forget_of_delete details org r c now s u us (s1, count) given
          (ap (λ b. delete org b ids now s) soft ∙ soft_delete_lem org ids now s keyed),
      t,
      ap (commit s) t ∙ commit-or_aborted _ s s',
      m,
      rel,
      subst (λ b. events s' ≡ events s ++ map (event_of org (operation_of b) details c) ids) soft e,
      n,
      i,
      cert,
    )

none_left :
    (p : Memory → Bool) (xs : List Memory) → All (λ m. p m ≡ false) (filter (λ m. not (p m)) xs)
none_left p [] = tt
none_left p (x ∷ xs) = elim (Bool-cases (p x)) [
  | inl e ↦ rw e (none_left p xs)
  | inr e ↦ rw e (e, none_left p xs)
]

none_linked :
    (p : Relationship → Bool) (xs : List Relationship)
    → All (λ m. p m ≡ false) (filter (λ m. not (p m)) xs)
none_linked p [] = tt
none_linked p (x ∷ xs) = elim (Bool-cases (p x)) [
  | inl e ↦ rw e (none_linked p xs)
  | inr e ↦ rw e (e, none_linked p xs)
]

-- A hard `forget` that names a memory returns. Where it has a signing key whose certificate id is taken
-- already, it issues no certificate and the transaction is aborted, so that a COMMIT leaves what there
-- was before. Otherwise no row of its organisation with the id of a target is left, and no relationship
-- of the organisation at a target or of any organisation at a row that went; each row and each
-- relationship of which neither holds is kept, in its order, and the queue grows by one event for each
-- target. The result counts the rows that went.
pub hard_forget_lem :
    (details : Uuid → String) (org : Uuid) (r : Request) (c : Context) (now : ℕ) (s : State)
    (u : Uuid) (us : List Uuid)
    → r.hard_delete ≡ true
    → named r ≡ u ∷ us
    → (t : Transaction) × (s' : State) × (result : ForgetResult) × (forget details org r c now s
        ≡ ok (t, result))
      × (t ≡ or_aborted (is_taken r.signing_key s.certificates) s')
      × (commit s t ≡ (if is_taken r.signing_key s.certificates then s else s'))
      × All (λ m. hard_matches org (targets org r s) m ≡ false) s'.memories
      × All (λ l. severed org (targets org r s) s.memories l ≡ false) s'.relationships
      × (s'.memories ≡ filter (λ m. not (hard_matches org (targets org r s) m)) s.memories)
      × (s'.relationships
          ≡ filter (λ l. not (severed org (targets org r s) s.memories l)) s.relationships)
      × (result.deleted_count ≡ length (filter (hard_matches org (targets org r s)) s.memories))
      × (events s'
          ≡ events s ++ map (event_of org AuditOperation.gdpr_delete details c) (targets org r s))
      × (result.cert_id ≡ issued r.signing_key s.certificates)
unfolding hard_delete
hard_forget_lem details org r c now s u us hard given =
    let ids = targets org r s in
    let done = hard_delete org ids s in
    let hashes = content_hashes r.signing_key org ids s in
    let (v, vs, target) = some_target org r s u us given in
    let (s', t, m, rel, e, n, i, cert) =
      after_delete_lem details org r c now s hashes done.0 done.1 v vs target in
    (
      (after_delete details org r c now s hashes done).0,
      s',
      (after_delete details org r c now s hashes done).1,
      forget_of_delete details org r c now s u us done given
          (ap (λ b. delete org b ids now s) hard),
      t,
      ap (commit s) t ∙ commit-or_aborted _ s s',
      subst (λ l. All (λ m. hard_matches org ids m ≡ false) l) (sym m)
          (none_left (hard_matches org ids) s.memories),
      subst (λ l. All (λ x. severed org ids s.memories x ≡ false) l) (sym rel)
          (none_linked (severed org ids s.memories) s.relationships),
      m,
      rel,
      n,
      subst (λ b. events s' ≡ events s ++ map (event_of org (operation_of b) details c) ids) hard e,
      cert,
    )
