-- ===== src/Result.antt =====
-- A call that returns, or raises. An exception in a transaction leaves the transaction to the
-- caller, so the state is not carried along beside it.
use z3rno_core.Prelude.{Bool, true, false, ◌≡◌, refl}

pub data Error : Type 0 where
  -- ValueError, TypeError, and the engine's own exceptions
  value_error type_error update_error store_error duplicate_memory memory_not_found forget_error
        conversation_not_found unknown_strategy unsupported_content_type index_error :
      Error
  -- what the database raises
  unique_violation check_violation foreign_key_violation invalid_row_count in_failed_transaction :
      Error

pub data Result {ℓ} (A : Type ℓ) : Type ℓ where
  ok : A → Result A
  raise : Error → Result A

infixl 5 ◌>>=◌ ◌>>◌
abbrev pub ◌>>=◌ {ℓ κ} : {A : Type ℓ} {B : Type κ} → Result A → (A → Result B) → Result B
ok a >>= f = f a
raise e >>= f = raise e

abbrev pub ◌>>◌ {ℓ κ} : {A : Type ℓ} {B : Type κ} → Result A → Result B → Result B
m >> k = m >>= λ _. k

-- `if b: raise e`
abbrev pub refuse : Bool → Error → Result (Unit {0})
refuse true e = raise e
refuse false e = ok tt

-- What a chain of calls that returned has passed.
pub returned {ℓ κ} :
    {A : Type ℓ} {B : Type κ} (r : Result A) (f : A → Result B) (b : B)
    → (r >>= f) ≡ ok b
    → (a : A) × (r ≡ ok a) × (f a ≡ ok b)
returned (ok a) f b h = (a, refl, h)
returned (raise x) f b h = absurd (cc h)

pub passed : (b : Bool) (e : Error) (u : Unit {0}) → refuse b e ≡ ok u → b ≡ false
passed true e u h = absurd (cc h)
passed false e u h = refl
