-- ===== src/Prelude/Decimal/Laws.antt =====
-- A number below the limit is read back from its decimal text.
use Prim.Native.Nat.{ℕ, zero, suc, ◌+◌, ◌/◌, ◌%◌, ◌^◌, ◌<◌}
use mathlib.Core.Path.{◌≡◌, refl}
use mathlib.Core.Bool.{true}
use mathlib.Core.Logic.{inl, inr, ◌≢◌}
use mathlib.Core.Option.{some}
use mathlib.Core.List.{[], ◌∷◌, ◌++◌, map}
use native.Mathlib.Omega.{arith}
use brewmble.Prelude.Tests.{ltb, Bool-cases}
use brewmble.Prelude.Lists.{all}
use brewmble.Prelude.Strings.{Text, to_ascii_lower}
use brewmble.Prelude.Decimal.{
  is_digit, decimal_from, decimal, digits_value, parse_unsigned, parse_u16, hex_digit, hex_byte,
}

digits_value-decimal_from :
    (fuel n : ℕ) (rest : Text)
    → n < fuel
    → digits_value 0 (decimal_from fuel n rest) ≡ digits_value n rest
unfolding decimal_from digits_value
digits_value-decimal_from zero n rest h = absurd (omega arith)
digits_value-decimal_from (suc fuel) n rest h =
    ground (arith, digits_value-decimal_from fuel (n / 10) ((b'0' + n % 10) ∷ rest))

-- The text starts with a digit.
decimal_from_cons :
    (fuel n : ℕ) (rest : Text)
    → n < fuel
    → (c : ℕ) × (s : Text) × (decimal_from fuel n rest ≡ c ∷ s) × (is_digit c ≡ true)
unfolding decimal_from
decimal_from_cons zero n rest h = absurd (omega arith)
decimal_from_cons (suc fuel) n rest h = elim (Bool-cases (ltb n 10)) [
  | inl small ↦ (b'0' + n, rest, rw small, ground arith)
  | inr big ↦
      let (c, s, e, d) = decimal_from_cons fuel (n / 10) ((b'0' + n % 10) ∷ rest) (ground arith) in
      (c, s, rw big e, d)
]

decimal_from_digits :
    (fuel n : ℕ) (rest : Text)
    → n < fuel
    → all is_digit rest ≡ true
    → all is_digit (decimal_from fuel n rest) ≡ true
unfolding decimal_from
decimal_from_digits zero n rest h k = absurd (omega arith)
decimal_from_digits (suc fuel) n rest h k =
    ground (arith, decimal_from_digits fuel (n / 10) ((b'0' + n % 10) ∷ rest))

pub decimal_digits : (n : ℕ) → all is_digit (decimal n) ≡ true
unfolding decimal
decimal_digits n = decimal_from_digits (suc n) n [] (omega arith) refl

pub parse_u16-decimal : (n : ℕ) → n < 2 ^ 16 → parse_u16 (decimal n) ≡ some n
unfolding parse_u16 decimal
parse_u16-decimal n h =
    let (c, s, e, d) = decimal_from_cons (suc n) n [] (omega arith) in
    let v : digits_value 0 (c ∷ s) ≡ some n =
      rw e at (digits_value-decimal_from (suc n) n [] (omega arith)) in
    rw (e, parse_unsigned) (ground arith)

hex_digit_injective : (a b : ℕ) → a < 16 → b < 16 → hex_digit a ≡ hex_digit b → a ≡ b
unfolding hex_digit
hex_digit_injective a b h k e = ground arith

-- A hexadecimal digit is not a colon, and lower case leaves it as it is.
hex_digit_range :
    (a : ℕ) → a < 16 → (hex_digit a ≢ b':') × (to_ascii_lower (hex_digit a) ≡ hex_digit a)
unfolding hex_digit to_ascii_lower
hex_digit_range a h = (ground arith, ground arith)

pub hex_byte_lower : (b : ℕ) → b < 256 → map to_ascii_lower (hex_byte b) ≡ hex_byte b
unfolding hex_byte
hex_byte_lower b h =
    rw ((hex_digit_range (b / 16) (omega arith)).1)
      (rw ((hex_digit_range (b % 16) (omega arith)).1))

-- Two bytes with the same two digits, whatever follows them, are the same.
pub hex_byte_injective :
    (a b : ℕ) (s t : Text)
    → a < 256
    → b < 256
    → hex_byte a ++ s ≡ hex_byte b ++ t
    → (a ≡ b) × (s ≡ t)
unfolding hex_byte
hex_byte_injective a b s t h k e =
    let hi : hex_digit (a / 16) ≡ hex_digit (b / 16) = cc in
    let lo : hex_digit (a % 16) ≡ hex_digit (b % 16) = cc in
    let p = hex_digit_injective (a / 16) (b / 16) (omega arith) (omega arith) hi in
    let q = hex_digit_injective (a % 16) (b % 16) (omega arith) (omega arith) lo in
    (omega arith, cc)
