-- ===== src/ForgetProof/Hex/Laws.antt =====
-- Which values `uuid_str` has, and of what length.
use native.Mathlib.Nat.{pow-suc}
use z3rno_core.Prelude.{
  ℕ, zero, suc, ◌/◌, ◌%◌, ◌^◌, ◌<◌, ◌≡◌, refl, ap, sym, ◌∙◌, [], ◌∷◌, ◌++◌, take, drop, length,
  arith, length-append,
}
use z3rno_core.Models.{Bytes, Uuid}
use z3rno_core.ForgetProof.Hex.{hex_digit, hex_digits, uuid_str}

pub append-inj :
    (a b : Bytes) {c d : Bytes} → length a ≡ length b → a ++ c ≡ b ++ d → (a ≡ b) × (c ≡ d)
append-inj [] [] h e = (refl, e)
append-inj [] (y ∷ b) h e = absurd (omega arith)
append-inj (x ∷ a) [] h e = absurd (omega arith)
append-inj (x ∷ a) (y ∷ b) {c} {d} h e =
    let (p, q) = append-inj a b {c = c} {d = d} (omega arith) (cc) in (cc, q)

length-hex_digits : (k n : ℕ) → length (hex_digits k n) ≡ k
unfolding hex_digits
length-hex_digits zero n = refl
length-hex_digits (suc k) n = omega (
  arith,
  length-append (hex_digits k (n / 16)) (hex_digit (n % 16) ∷ []),
  length-hex_digits k (n / 16),
)

hex_digit-inj : (a b : ℕ) → a < 16 → b < 16 → hex_digit a ≡ hex_digit b → a ≡ b
hex_digit-inj a b p q e = ground arith

head_inj : {a b : ℕ} → ◌≡◌ {A = Bytes} (a ∷ []) (b ∷ []) → a ≡ b
head_inj e = cc

hex_digits-inj : (k n m : ℕ) → n < 16 ^ k → m < 16 ^ k → hex_digits k n ≡ hex_digits k m → n ≡ m
unfolding hex_digits
hex_digits-inj zero n m p q e = omega arith
hex_digits-inj (suc k) n m p q e =
    let (high, low) =
      append-inj (hex_digits k (n / 16)) (hex_digits k (m / 16))
        (length-hex_digits k (n / 16) ∙ sym (length-hex_digits k (m / 16))) e in
    let last = hex_digit-inj (n % 16) (m % 16) (omega arith) (omega arith) (head_inj low) in
    let first =
      hex_digits-inj k (n / 16) (m / 16) (omega (arith, pow-suc 16 k)) (omega (arith, pow-suc 16 k))
        high in
    omega arith

pub length-uuid_str : (u : Uuid) → length (uuid_str u) ≡ 36
unfolding uuid_str
length-uuid_str u = refl

-- The digits of a UUID's text.
undash : Bytes → Bytes
undash s =
    take 8 s ++ (take 4 (drop 9 s) ++ (take 4 (drop 14 s) ++ (take 4 (drop 19 s) ++ drop 24 s)))

undash-uuid_str : (u : Uuid) → undash (uuid_str u) ≡ hex_digits 32 u
unfolding undash uuid_str
undash-uuid_str u = refl

-- The text determines the UUID.
pub uuid_str-inj : (u v : Uuid) → u < 16 ^ 32 → v < 16 ^ 32 → uuid_str u ≡ uuid_str v → u ≡ v
uuid_str-inj u v p q e =
    hex_digits-inj 32 u v p q (sym (undash-uuid_str u) ∙ ap undash e ∙ undash-uuid_str v)
