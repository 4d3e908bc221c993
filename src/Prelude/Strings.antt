-- ===== src/Prelude/Strings.antt =====
-- Rust's `str` as the list of its code points, with the functions of the standard library that the
-- program calls on it.
pub mod Splitting
pub mod Lines
use Prim.Native.Nat.{ℕ, ◌+◌}
use Prim.Native.Char.{code}
use Prim.Native.String.{String}
use mathlib.Core.Path.{◌≡◌, refl}
use mathlib.Core.Logic.{◌↔◌}
use mathlib.Core.Bool.{Bool, true, false, not, ◌&&◌, ◌||◌}
use mathlib.Core.Option.{Option, none, some}
use mathlib.Core.List.{List, [], ◌∷◌, ◌++◌, map}
use native.Mathlib.Omega.{arith}
use brewmble.Prelude.Tests.{leb, ◌==◌, if◌then◌else◌}
use brewmble.Prelude.Lists.{is_empty, is_some, filter}

abbrev pub Text : Type 0
Text = List ℕ

-- The text of a literal.
unfoldable pub lit : String → Text
lit String.[] = []
lit (String.◌∷◌ c s) = code c ∷ lit s

unfoldable pub eq_text : Text → Text → Bool
eq_text [] [] = true
eq_text (a ∷ s) (b ∷ t) = (a == b) && eq_text s t
eq_text _ _ = false

eq_text_sound : (s t : Text) → eq_text s t ≡ true → s ≡ t
unfolding eq_text
eq_text_sound [] [] h = refl
eq_text_sound (a ∷ s) (b ∷ t) h = ground (arith, eq_text_sound s t)
eq_text_sound [] (b ∷ t) h = ground arith
eq_text_sound (a ∷ s) [] h = ground arith

pub eq_text_refl : (s : Text) → eq_text s s ≡ true
unfolding eq_text
eq_text_refl [] = refl
eq_text_refl (a ∷ s) = ground (arith, eq_text_refl s)

pub eq_text_iff : (s t : Text) → (eq_text s t ≡ true) ↔ (s ≡ t)
eq_text_iff s t = (eq_text_sound s t, λ e. rw (← e) (eq_text_refl s))

-- `Option<String>` compared by `==`.
unfoldable pub eq_name : Option Text → Option Text → Bool
eq_name none none = true
eq_name (some s) (some t) = eq_text s t
eq_name _ _ = false

pub eq_name_iff : (a b : Option Text) → (eq_name a b ≡ true) ↔ (a ≡ b)
unfolding eq_name
eq_name_iff none none = (λ h. refl, λ h. refl)
eq_name_iff (some s) (some t) = ground (arith, eq_text_iff s t)
eq_name_iff none (some t) = ground arith
eq_name_iff (some s) none = ground arith

unfoldable pub strip_prefix : Text → Text → Option Text
strip_prefix [] s = some s
strip_prefix (p ∷ ps) [] = none
strip_prefix (p ∷ ps) (c ∷ s) = let rest = strip_prefix ps s in if p == c then rest else none

abbrev pub starts_with : Text → Text → Bool
starts_with p s = is_some (strip_prefix p s)

abbrev pub cons_some : ℕ → Option Text → Option Text
cons_some c none = none
cons_some c (some t) = some (c ∷ t)

unfoldable pub strip_suffix : Text → Text → Option Text
unfolding eq_text
strip_suffix p [] = if eq_text p [] then some [] else none
strip_suffix p (c ∷ s) =
    let rest = cons_some c (strip_suffix p s) in if eq_text p (c ∷ s) then some [] else rest

abbrev pub cons_first : ℕ → Option (Text × Text) → Option (Text × Text)
cons_first c none = none
cons_first c (some (h, t)) = some (c ∷ h, t)

-- `split_once(pat)`: at the first occurrence.
unfoldable pub split_once : Text → Text → Option (Text × Text)
unfolding strip_prefix
split_once p [] = elim (strip_prefix p []) [ some t ↦ some ([], t) | none ↦ none ]
split_once p (c ∷ s) =
    let rest = cons_first c (split_once p s) in
    elim (strip_prefix p (c ∷ s)) [ some t ↦ some ([], t) | none ↦ rest ]

abbrev pub contains : Text → Text → Bool
contains p s = is_some (split_once p s)

abbrev pub cons_head : ℕ → List Text → List Text
cons_head c [] = (c ∷ []) ∷ []
cons_head c (p ∷ ps) = (c ∷ p) ∷ ps

-- `split(test)`: never empty.
unfoldable pub split_by : (ℕ → Bool) → Text → List Text
split_by test [] = [] ∷ []
split_by test (c ∷ s) = let rest = split_by test s in if test c then [] ∷ rest else cons_head c rest

abbrev pub split_on : ℕ → Text → List Text
split_on sep s = split_by (λ c. c == sep) s

-- `slice.join(sep)`.
unfoldable pub join : Text → List Text → Text
join sep [] = []
join sep (s ∷ []) = s
join sep (s ∷ t ∷ ts) = s ++ (sep ++ join sep (t ∷ ts))

unfoldable pub trim_start_by : (ℕ → Bool) → Text → Text
trim_start_by test [] = []
trim_start_by test (c ∷ s) = let rest = trim_start_by test s in if test c then rest else c ∷ s

unfoldable pub trim_end_by : (ℕ → Bool) → Text → Text
trim_end_by test [] = []
trim_end_by test (c ∷ s) =
    let rest = trim_end_by test s in if test c && is_empty rest then [] else c ∷ rest

-- `trim_start_matches(c)` and `trim_end_matches(c)`.
abbrev pub trim_start_matches : ℕ → Text → Text
trim_start_matches sep s = trim_start_by (λ c. c == sep) s

abbrev pub trim_end_matches : ℕ → Text → Text
trim_end_matches sep s = trim_end_by (λ c. c == sep) s

-- `char::is_whitespace`: the code points with the property White_Space.
unfoldable pub is_whitespace : ℕ → Bool
is_whitespace c =
    (leb 9 c && leb c 13)
    || (c == 32)
    || (c == 0x85)
    || (c == 0xa0)
    || (c == 0x1680)
    || (leb 0x2000 c && leb c 0x200a)
    || (c == 0x2028)
    || (c == 0x2029)
    || (c == 0x202f)
    || (c == 0x205f)
    || (c == 0x3000)

abbrev pub trim : Text → Text
trim s = trim_start_by is_whitespace (trim_end_by is_whitespace s)

abbrev pub split_whitespace : Text → List Text
split_whitespace s = filter (λ w. not (is_empty w)) (split_by is_whitespace s)

-- `lines()`: a line ends at a line feed, a carriage return before it is dropped, and what follows
-- the last line feed is a line if it is not empty.
strip_cr : Text → Text
unfolding strip_suffix
strip_cr s = elim (strip_suffix (13 ∷ []) s) [ some t ↦ t | none ↦ s ]

lines_of : List Text → List Text
lines_of [] = []
lines_of (p ∷ []) = if is_empty p then [] else p ∷ []
lines_of (p ∷ q ∷ ps) = strip_cr p ∷ lines_of (q ∷ ps)

unfoldable pub lines : Text → List Text
unfolding strip_cr lines_of split_by
lines s = lines_of (split_on 10 s)

-- `s.replace('\n', with)`.
unfoldable pub replace_newline : Text → Text → Text
replace_newline with [] = []
replace_newline with (c ∷ s) =
    let rest = replace_newline with s in if c == 10 then with ++ rest else c ∷ rest

unfoldable pub to_ascii_lower : ℕ → ℕ
to_ascii_lower c = if leb b'A' c && leb c b'Z' then c + 32 else c

unfoldable pub eq_ignore_ascii_case : Text → Text → Bool
unfolding eq_text to_ascii_lower
eq_ignore_ascii_case s t = eq_text (map to_ascii_lower s) (map to_ascii_lower t)
