-- ===== src/ForgetProof/Hex.antt =====
-- `str(uuid)`, `hexdigest()` and the order of byte strings.
pub mod Laws
use z3rno_core.Prelude.{
  ℕ, zero, suc, ◌+◌, ◌/◌, ◌%◌, ◌≡◌, refl, ap, Bool, true, false, List, [], ◌∷◌, ◌++◌, ltb, leb,
  ==_iff, take, drop, if◌then◌else◌, arith,
}
use z3rno_core.Prelude.Sort.{IsLinear}
use z3rno_core.Models.{Bytes, Uuid}

-- The character of a digit below 16.
abbrev hex_digit : ℕ → ℕ
hex_digit d = if ltb d 10 then b'0' + d else 87 + d

-- The last `k` hexadecimal digits of a number, the most significant first.
hex_digits : ℕ → ℕ → Bytes
hex_digits zero n = []
hex_digits (suc k) n = hex_digits k (n / 16) ++ hex_digit (n % 16) ∷ []

abbrev dash : Bytes
dash = b'-' ∷ []

-- The 8-4-4-4-12 form of a UUID, which is a 128-bit number.
unfoldable pub uuid_str : Uuid → Bytes
unfolding hex_digits
uuid_str u =
    let h = hex_digits 32 u in
    take 8 h
    ++ (dash
        ++ (take 4 (drop 8 h)
            ++ (dash
                ++ (take 4 (drop 12 h) ++ (dash ++ (take 4 (drop 16 h) ++ (dash ++ drop 20 h)))))))

-- `hexdigest()`: two digits for each byte.
unfoldable pub hexdigest : Bytes → Bytes
unfolding hex_digits
hexdigest [] = []
hexdigest (b ∷ bs) = hex_digits 2 b ++ hexdigest bs

-- Python compares byte strings lexicographically.
unfoldable pub bytes_le : Bytes → Bytes → Bool
bytes_le [] ys = true
bytes_le (x ∷ xs) [] = false
bytes_le (x ∷ xs) (y ∷ ys) =
    let rest = bytes_le xs ys in if ltb x y then true else if ltb y x then false else rest

bytes_le_total : (xs ys : Bytes) → bytes_le xs ys ≡ false → bytes_le ys xs ≡ true
unfolding bytes_le
bytes_le_total [] ys h = ground arith
bytes_le_total (x ∷ xs) [] h = refl
bytes_le_total (x ∷ xs) (y ∷ ys) h = ground (arith, bytes_le_total xs ys)

bytes_le_trans :
    (xs ys zs : Bytes) → bytes_le xs ys ≡ true → bytes_le ys zs ≡ true → bytes_le xs zs ≡ true
unfolding bytes_le
bytes_le_trans [] ys zs h k = refl
bytes_le_trans (x ∷ xs) [] zs h k = ground arith
bytes_le_trans (x ∷ xs) (y ∷ ys) [] h k = ground arith
bytes_le_trans (x ∷ xs) (y ∷ ys) (z ∷ zs) h k = ground (arith, bytes_le_trans xs ys zs)

bytes_le_antisym : (xs ys : Bytes) → bytes_le xs ys ≡ true → bytes_le ys xs ≡ true → xs ≡ ys
unfolding bytes_le
bytes_le_antisym [] [] h k = refl
bytes_le_antisym [] (y ∷ ys) h k = ground arith
bytes_le_antisym (x ∷ xs) [] h k = ground arith
bytes_le_antisym (x ∷ xs) (y ∷ ys) h k = ground (arith, bytes_le_antisym xs ys)

pub bytes_le-IsLinear : IsLinear bytes_le
bytes_le-IsLinear = record {
  total = bytes_le_total;
  trans = bytes_le_trans;
  antisym = bytes_le_antisym;
}
