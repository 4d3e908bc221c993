-- ===== src/Prelude/Strings/Splitting.antt =====
-- Splitting a text at a character, joining, and stripping affixes.
use Prim.Native.Nat.{ℕ}
use mathlib.Core.Path.{◌≡◌, refl}
use mathlib.Core.Logic.{inl, inr}
use mathlib.Core.Bool.{Bool, true, false}
use mathlib.Core.Option.{none, some}
use mathlib.Core.List.{List, [], ◌∷◌, ◌++◌}
use native.Mathlib.Omega.{arith}
use brewmble.Prelude.Tests.{Bool-cases, ◌==◌}
use brewmble.Prelude.Lists.{All}
use brewmble.Prelude.Strings.{Text, strip_prefix, split_by, split_once}

-- No character of the text passes the test.
abbrev pub NoneOf : (ℕ → Bool) → Text → Type 0
NoneOf test s = All (λ c. test c ≡ false) s

pub split_by-append :
    (test : ℕ → Bool) (s : Text) (c : ℕ) (t : Text)
    → NoneOf test s
    → test c ≡ true
    → split_by test (s ++ (c ∷ t)) ≡ s ∷ split_by test t
unfolding split_by
split_by-append test [] c t h k = rw k
split_by-append test (x ∷ s) c t h k = rw (h.0, split_by-append test s c t h.1 k)

pub split_by_whole : (test : ℕ → Bool) (s : Text) → NoneOf test s → split_by test s ≡ s ∷ []
unfolding split_by
split_by_whole test [] h = refl
split_by_whole test (x ∷ s) h = rw (h.0, split_by_whole test s h.1)

-- The result of a split is not empty.
pub split_by_cons :
    (test : ℕ → Bool) (s : Text) → (p : Text) × (ps : List Text) × (split_by test s ≡ p ∷ ps)
unfolding split_by
split_by_cons test [] = ([], [], refl)
split_by_cons test (c ∷ s) =
    let (p, ps, e) = split_by_cons test s in
    elim (Bool-cases (test c)) [ inl h ↦ ([], p ∷ ps, rw (h, e)) | inr h ↦ (c ∷ p, ps, rw (h, e)) ]

pub strip_prefix-append : (p s : Text) → strip_prefix p (p ++ s) ≡ some s
unfolding strip_prefix
strip_prefix-append [] s = refl
strip_prefix-append (c ∷ p) s = ground (arith, strip_prefix-append p s)

-- The first occurrence of a pattern is where the text has no character of its head before.
pub split_once-append :
    (p : ℕ) (ps h t : Text)
    → NoneOf (λ c. c == p) h
    → split_once (p ∷ ps) (h ++ (p ∷ (ps ++ t))) ≡ some (h, t)
unfolding split_once
split_once-append p ps [] t k = rw (strip_prefix-append (p ∷ ps) t, split_once)
split_once-append p ps (c ∷ h) t k = ground (arith, split_once-append p ps h t k.1)

pub split_once_absent :
    (p : ℕ) (ps s : Text) → NoneOf (λ c. c == p) s → split_once (p ∷ ps) s ≡ none
unfolding split_once
split_once_absent p ps [] h = refl
split_once_absent p ps (c ∷ s) h = ground (arith, split_once_absent p ps s h.1)
