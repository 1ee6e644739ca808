-- ===== src/ForgetProof/Leaves.antt =====
-- `Leaf`, its digest, and `build_leaves`.
use z3rno_core.Prelude.{List, [], ◌∷◌, ◌++◌, Option, none, some, map, if◌then◌else◌, ◌==◌}
use z3rno_core.Models.{Bytes, Uuid}
use z3rno_core.ForgetProof.Hex.{uuid_str}

pub record Leaf : Type 0 where
  pub memory_id : Uuid
  pub content_hash : Bytes
  pub audit_entry_hash : Bytes

-- `s or "-"`
unfoldable pub or_dash : Bytes → Bytes
or_dash [] = b'-' ∷ []
or_dash (c ∷ s) = c ∷ s

-- `":".join(parts)` over the three parts.
unfoldable pub join_colon : Bytes → Bytes → Bytes → Bytes
join_colon a b c = a ++ b':' ∷ (b ++ b':' ∷ c)

module _ (sha256 : Bytes → Bytes) where
  unfoldable pub digest : Leaf → Bytes
  unfolding or_dash join_colon uuid_str
  digest leaf = sha256 (
      join_colon (uuid_str leaf.memory_id) (or_dash leaf.content_hash)
        (or_dash leaf.audit_entry_hash))

-- A dict from UUIDs to hashes, as an association list; `d.get(k, "")`.
abbrev pub Hashes : Type 0
Hashes = List (Uuid × Bytes)

unfoldable pub get_hash : Uuid → Hashes → Bytes
get_hash k [] = []
get_hash k ((j, h) ∷ d) = if j == k then h else get_hash k d

-- An absent dict (`None`) is the empty one.
abbrev pub or_empty : Option Hashes → Hashes
or_empty none = []
or_empty (some d) = d

unfoldable pub build_leaves : List Uuid → Option Hashes → Option Hashes → List Leaf
unfolding get_hash
build_leaves memory_ids content_hashes audit_hashes =
    map
      (λ mid. record {
        memory_id = mid;
        content_hash = get_hash mid (or_empty content_hashes);
        audit_entry_hash = get_hash mid (or_empty audit_hashes);
      })
      memory_ids
