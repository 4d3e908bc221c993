-- ===== src/Prelude/Decimal.antt =====
-- Decimal and hexadecimal numbers as texts.
pub mod Laws
use Prim.Native.Nat.{ℕ, zero, suc, ◌+◌, ◌-◌, ◌*◌, ◌/◌, ◌%◌, ◌^◌}
use mathlib.Core.Bool.{Bool, ◌&&◌}
use mathlib.Core.Option.{Option, none, some}
use mathlib.Core.List.{[], ◌∷◌}
use brewmble.Prelude.Tests.{leb, ltb, ◌==◌, if◌then◌else◌}
use brewmble.Prelude.Strings.{Text}

abbrev pub is_digit : ℕ → Bool
is_digit c = leb b'0' c && leb c b'9'

-- Each round drops a digit, so that the number itself is fuel enough.
decimal_from : ℕ → ℕ → Text → Text
decimal_from zero n rest = rest
decimal_from (suc fuel) n rest =
    let more = decimal_from fuel (n / 10) ((b'0' + n % 10) ∷ rest) in
    if ltb n 10 then (b'0' + n) ∷ rest else more

-- `format!("{}", n)` of an unsigned number.
unfoldable pub decimal : ℕ → Text
unfolding decimal_from
decimal n = decimal_from (suc n) n []

digits_value : ℕ → Text → Option ℕ
digits_value n [] = some n
digits_value n (c ∷ s) =
    let rest = digits_value (n * 10 + (c - b'0')) s in if is_digit c then rest else none

abbrev fits : ℕ → Option ℕ → Option ℕ
fits limit none = none
fits limit (some n) = if ltb n limit then some n else none

-- The digits of `from_str` of an unsigned type: at least one, and a value below the limit. The
-- source rejects an overflow as soon as it occurs; the value only grows, so that is the same.
parse_digits : ℕ → Text → Option ℕ
parse_digits limit [] = none
parse_digits limit (c ∷ s) = fits limit (digits_value 0 (c ∷ s))

-- `from_str` allows one leading plus sign.
parse_unsigned : ℕ → Text → Option ℕ
parse_unsigned limit [] = none
parse_unsigned limit (c ∷ s) =
    if c == b'+' then parse_digits limit s else parse_digits limit (c ∷ s)

unfoldable pub parse_u16 : Text → Option ℕ
unfolding parse_unsigned parse_digits digits_value
parse_u16 s = parse_unsigned (2 ^ 16) s

unfoldable pub parse_u64 : Text → Option ℕ
unfolding parse_unsigned parse_digits digits_value
parse_u64 s = parse_unsigned (2 ^ 64) s

unfoldable pub hex_digit : ℕ → ℕ
hex_digit n = if ltb n 10 then b'0' + n else (b'a' - 10) + n

-- `format!("{:02x}", b)` of a byte.
unfoldable pub hex_byte : ℕ → Text
unfolding hex_digit
hex_byte b = hex_digit (b / 16) ∷ hex_digit (b % 16) ∷ []
