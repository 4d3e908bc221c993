-- ===== src/Cli/Pin/Fingerprint.antt =====
-- The fingerprints of cli/src/pin.rs and the digests that they print.
use brewmble.Prelude.{
  All, List, Text, [], eq_ignore_ascii_case, hex_byte, hex_byte_lower, join, length, map, refl,
  to_ascii_lower, true, ℕ, ◌*◌, ◌++◌, ◌+◌, ◌<◌, ◌↔◌, ◌∷◌, ◌≡◌, ap, arith, eq_text_iff,
  hex_byte_injective, lit,
}
use brewmble.Cli.Pin.{format_bytes, format_fingerprint}

abbrev pub IsBytes : List ℕ → Type 0
IsBytes = All (λ b. b < 256)

map-lower-append :
    (s t : Text) → map to_ascii_lower (s ++ t) ≡ map to_ascii_lower s ++ map to_ascii_lower t
map-lower-append [] t = refl
map-lower-append (c ∷ s) t = rw (map-lower-append s t)

format_bytes_lower :
    (bytes : List ℕ) → IsBytes bytes → map to_ascii_lower (format_bytes bytes) ≡ format_bytes bytes
unfolding format_bytes join lit to_ascii_lower
format_bytes_lower [] h = refl
format_bytes_lower (b ∷ []) h = hex_byte_lower b h.0
format_bytes_lower (b ∷ c ∷ ys) h =
    rw (map-lower-append (hex_byte b) (b':' ∷ format_bytes (c ∷ ys))) (
      rw (hex_byte_lower b h.0)
        (ap (λ s. hex_byte b ++ (b':' ∷ s)) (format_bytes_lower (c ∷ ys) h.1)))

format_bytes_injective :
    (xs ys : List ℕ) → IsBytes xs → IsBytes ys → format_bytes xs ≡ format_bytes ys → xs ≡ ys
unfolding format_bytes join lit hex_byte
format_bytes_injective [] [] h k e = refl
format_bytes_injective [] (b ∷ []) h k e = cc
format_bytes_injective [] (b ∷ c ∷ ys) h k e = cc
format_bytes_injective (a ∷ []) [] h k e = cc
format_bytes_injective (a ∷ b ∷ xs) [] h k e = cc
format_bytes_injective (a ∷ []) (b ∷ []) h k e =
    ap (λ z. z ∷ []) (hex_byte_injective a b [] [] h.0 k.0 e).0
format_bytes_injective (a ∷ []) (b ∷ c ∷ ys) h k e =
    cc ((hex_byte_injective a b [] (b':' ∷ format_bytes (c ∷ ys)) h.0 k.0 e).1)
format_bytes_injective (a ∷ c ∷ xs) (b ∷ []) h k e =
    cc ((hex_byte_injective a b (b':' ∷ format_bytes (c ∷ xs)) [] h.0 k.0 e).1)
format_bytes_injective (a ∷ c ∷ xs) (b ∷ d ∷ ys) h k e =
    let (p, q) =
      hex_byte_injective a b (b':' ∷ format_bytes (c ∷ xs)) (b':' ∷ format_bytes (d ∷ ys)) h.0 k.0
        e in
    let r : format_bytes (c ∷ xs) ≡ format_bytes (d ∷ ys) = cc in
    cc (format_bytes_injective (c ∷ xs) (d ∷ ys) h.1 k.1 r)

-- For digests that are bytes, the comparison of two fingerprints, which ignores ASCII case, passes
-- exactly if the digests are the same bytes.
pub eq_fingerprint_iff :
    (sha256 : Text → List ℕ) (x y : Text)
    → IsBytes (sha256 x)
    → IsBytes (sha256 y)
    → (eq_ignore_ascii_case (format_fingerprint sha256 x) (format_fingerprint sha256 y) ≡ true)
      ↔ (sha256 x ≡ sha256 y)
unfolding eq_ignore_ascii_case format_fingerprint
eq_fingerprint_iff sha256 x y h k =
    rw (format_bytes_lower (sha256 x) h, format_bytes_lower (sha256 y) k)
      (
        λ e. format_bytes_injective (sha256 x) (sha256 y) h k ((eq_text_iff _ _).0 e),
        λ e. (eq_text_iff _ _).1 (ap format_bytes e),
      )

-- Each byte takes two digits, and a colon stands between two bytes.
pub length-format_bytes :
    (b : ℕ) (bytes : List ℕ) → length (format_bytes (b ∷ bytes)) ≡ 3 * length bytes + 2
unfolding format_bytes join hex_byte lit
length-format_bytes b [] = refl
length-format_bytes b (c ∷ bytes) = omega (arith, length-format_bytes c bytes)
