-- ===== src/Cli/Ca/Legacy.antt =====
-- The old store of macOS in cli/src/ca.rs: `read_legacy` and `delete_legacy`. The command
-- `security` and the reader of UTF-8 are parameters. On the other platforms the store has nothing.
use brewmble.Prelude.{
  ◌/◌, hex_digit, Bool, List, Option, Result, Text, [], all, err, if◌then◌else◌, is_empty, leb,
  length, none, not, ok, some, trim, true, ℕ, ◌%◌, ◌&&◌, ◌*◌, ◌+◌, ◌++◌, ◌-◌, ◌==◌, ◌||◌, ◌∷◌,
  hex_byte, All, ◌<◌, ◌≤◌, ◌≡◌, refl, arith,
}

abbrev in_range : ℕ → ℕ → ℕ → Bool
in_range low high c = leb low c && leb c high

-- `is_ascii_hexdigit`.
abbrev pub is_hex_digit : ℕ → Bool
is_hex_digit c = in_range b'0' b'9' c || in_range b'a' b'f' c || in_range b'A' b'F' c

-- The numbers of bytes and of characters are the same for a text of hexadecimal digits.
unfoldable pub is_hex_encoding : Text → Bool
is_hex_encoding s =
    not (is_empty s) && (length s % 2 == 0) && leb 40 (length s) && all is_hex_digit s

abbrev hex_value : ℕ → ℕ
hex_value c =
    if in_range b'0' b'9' c
    then c - b'0'
    else if in_range b'a' b'f' c
    then c - b'a' + 10
    else c - b'A' + 10

-- `from_str_radix(…, 16)` of each two digits.
unfoldable pub hex_bytes : Text → List ℕ
hex_bytes [] = []
hex_bytes (c ∷ []) = []
hex_bytes (c ∷ d ∷ s) = (16 * hex_value c + hex_value d) ∷ hex_bytes s

-- What the command gives: whether it succeeded, and its output if that is text.
pub record Found : Type 0 where
  pub success : Bool
  pub stdout : Result Text Text

module _ (from_utf8 : List ℕ → Option Text) where
  abbrev text_or : Text → Option Text → Text
  text_or trimmed none = trimmed
  text_or trimmed (some text) = text

  abbrev decoded : Text → Text
  decoded trimmed =
      if is_hex_encoding trimmed then text_or trimmed (from_utf8 (hex_bytes trimmed)) else trimmed

  abbrev of_stdout : Result Text Text → Result Text (Option Text)
  of_stdout (err e) = err e
  of_stdout (ok raw) = ok (some (decoded (trim raw)))

  unfoldable pub read_legacy : Result Text Found → Result Text (Option Text)
  unfolding is_hex_encoding hex_bytes
  read_legacy (err e) = err e
  read_legacy (ok found) = if not found.success then ok none else of_stdout found.stdout

-- The result of the command is dropped.
unfoldable pub delete_legacy : Result Text Found → Result Text (Unit {0})
delete_legacy (err e) = err e
delete_legacy (ok found) = ok tt

-- The digits of bytes, as the command prints a value that is not plain text.
abbrev pub hex_text : List ℕ → Text
hex_text [] = []
hex_text (b ∷ bs) = hex_byte b ++ hex_text bs

hex_digit-value :
    (n : ℕ) → n < 16 → (hex_value (hex_digit n) ≡ n) × (is_hex_digit (hex_digit n) ≡ true)
unfolding hex_digit
hex_digit-value n h = (ground arith, ground arith)

hex_bytes-hex_text : (bs : List ℕ) → All (λ b. b < 256) bs → hex_bytes (hex_text bs) ≡ bs
unfolding hex_bytes hex_byte
hex_bytes-hex_text [] h = refl
hex_bytes-hex_text (b ∷ bs) h =
    let hi = hex_digit-value (b / 16) (omega (arith, h.0)) in
    let lo = hex_digit-value (b % 16) (omega (arith, h.0)) in
    let whole : 16 * (b / 16) + b % 16 ≡ b = omega arith in
    rw (hex_bytes-hex_text bs h.1, hi.0, lo.0, whole) refl

hex_text-digits :
    (bs : List ℕ)
    → All (λ b. b < 256) bs
    → (all is_hex_digit (hex_text bs) ≡ true) × (length (hex_text bs) ≡ 2 * length bs)
unfolding hex_byte
hex_text-digits [] h = (refl, refl)
hex_text-digits (b ∷ bs) h =
    let hi = hex_digit-value (b / 16) (omega (arith, h.0)) in
    let lo = hex_digit-value (b % 16) (omega (arith, h.0)) in
    let ih = hex_text-digits bs h.1 in (rw (hi.1, lo.1) ih.0, omega (arith, ih.1))

hex_text-encoding :
    (bs : List ℕ) → All (λ b. b < 256) bs → 20 ≤ length bs → is_hex_encoding (hex_text bs) ≡ true
unfolding is_hex_encoding hex_byte
hex_text-encoding [] h k = absurd (omega arith)
hex_text-encoding (b ∷ bs) h k =
    let d = hex_text-digits (b ∷ bs) h in
    let even : length (hex_text (b ∷ bs)) % 2 ≡ 0 = omega (arith, d.1) in
    let long : 40 ≤ length (hex_text (b ∷ bs)) = omega (arith, d.1) in
    let digits = d.0 in ground arith

-- If the command succeeds and prints, up to white space around it, the digits of twenty bytes or
-- more that are text, then that text is read.
pub read_legacy_hex :
    (from_utf8 : List ℕ → Option Text) (bs : List ℕ) (raw text : Text)
    → All (λ b. b < 256) bs
    → 20 ≤ length bs
    → trim raw ≡ hex_text bs
    → from_utf8 bs ≡ some text
    → read_legacy from_utf8 (ok (record { success = true; stdout = ok raw })) ≡ ok (some text)
unfolding read_legacy
read_legacy_hex from_utf8 bs raw text h k e f =
    rw (e, hex_text-encoding bs h k, hex_bytes-hex_text bs h, f) refl
