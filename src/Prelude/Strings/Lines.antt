-- ===== src/Prelude/Strings/Lines.antt =====
-- The lines of a text that ends each line with a line feed.
use mathlib.Core.Path.{◌≡◌, refl}
use mathlib.Core.Option.{none}
use mathlib.Core.List.{List, [], ◌∷◌, ◌++◌}
use native.Mathlib.Omega.{arith}
use brewmble.Prelude.Tests.{◌==◌}
use brewmble.Prelude.Lists.{All}
use brewmble.Prelude.Strings.{Text, eq_text, strip_suffix, strip_cr, lines}
use brewmble.Prelude.Strings.Splitting.{NoneOf, split_by-append, split_by_cons}

-- A text with no line feed and no carriage return.
abbrev pub IsLine : Text → Type 0
IsLine s = NoneOf (λ c. c == 10) s × NoneOf (λ c. c == 13) s

strip_suffix_cr : (s : Text) → NoneOf (λ c. c == 13) s → strip_suffix (13 ∷ []) s ≡ none
unfolding strip_suffix eq_text
strip_suffix_cr [] h = refl
strip_suffix_cr (c ∷ s) h = ground (arith, strip_suffix_cr s h.1)

strip_cr_lem : (s : Text) → NoneOf (λ c. c == 13) s → strip_cr s ≡ s
unfolding strip_cr
strip_cr_lem s h = rw (strip_suffix_cr s h, strip_cr)

pub lines-cons : (s t : Text) → IsLine s → lines (s ++ (10 ∷ t)) ≡ s ∷ lines t
unfolding lines
lines-cons s t h =
    let (p, ps, e) = split_by_cons (λ c. c == 10) t in
    rw (split_by-append (λ c. c == 10) s 10 t h.0 refl, e, strip_cr_lem s h.1)

-- Each line followed by a line feed.
abbrev pub unlines : List Text → Text
unlines [] = []
unlines (s ∷ ss) = s ++ (10 ∷ unlines ss)

pub lines-unlines : (ss : List Text) → All IsLine ss → lines (unlines ss) ≡ ss
unfolding lines
lines-unlines [] h = refl
lines-unlines (s ∷ ss) h = rw (lines-cons s (unlines ss) h.0, lines-unlines ss h.1)
