-- ===== src/Prelude/Sets.antt =====
-- A `HashSet` of texts, as a list without duplicates, and how often a text occurs in a list. The
-- order in which a `HashSet` gives its items is not specified, and no statement depends on it.
use Prim.Native.Nat.{ℕ, suc, ◌+◌}
use mathlib.Core.Path.{◌≡◌, refl}
use mathlib.Core.Bool.{Bool, true, false, not, ◌||◌}
use mathlib.Core.List.{List, [], ◌∷◌, ◌++◌}
use native.Mathlib.Omega.{arith}
use brewmble.Prelude.Tests.{if◌then◌else◌}
use brewmble.Prelude.Strings.{Text, eq_text, eq_text_iff}

unfoldable pub member : Text → List Text → Bool
member t [] = false
member t (s ∷ ss) = eq_text s t || member t ss

-- `insert`: whether the text was not there, and the set with it.
unfoldable pub set_insert : Text → List Text → Bool × List Text
set_insert t s = if member t s then (false, s) else (true, t ∷ s)

-- How often a text occurs.
unfoldable pub occurrences : Text → List Text → ℕ
occurrences t [] = 0
occurrences t (s ∷ ss) = if eq_text s t then suc (occurrences t ss) else occurrences t ss

-- No text occurs twice.
abbrev pub Distinct : List Text → Type 0
Distinct [] = Unit
Distinct (s ∷ ss) = (member s ss ≡ false) × Distinct ss

abbrev pub to_count : Bool → ℕ
to_count true = 1
to_count false = 0

pub member-append :
    (t : Text) (ss us : List Text) → member t (ss ++ us) ≡ (member t ss || member t us)
unfolding member
member-append t [] us = refl
member-append t (s ∷ ss) us = ground (arith, member-append t ss us)

pub occurrences-append :
    (t : Text) (ss us : List Text) → occurrences t (ss ++ us) ≡ occurrences t ss + occurrences t us
unfolding occurrences
occurrences-append t [] us = omega arith
occurrences-append t (s ∷ ss) us = ground (arith, occurrences-append t ss us)

pub occurrences_absent : (t : Text) (ss : List Text) → member t ss ≡ false → occurrences t ss ≡ 0
unfolding member occurrences
occurrences_absent t [] h = refl
occurrences_absent t (s ∷ ss) h = ground (arith, occurrences_absent t ss)

-- In a list without duplicates a text occurs once if it is a member, else never.
pub occurrences-Distinct :
    (t : Text) (ss : List Text) → Distinct ss → occurrences t ss ≡ to_count (member t ss)
unfolding member occurrences
occurrences-Distinct t [] h = refl
occurrences-Distinct t (s ∷ ss) h =
    ground (arith, occurrences-Distinct t ss h.1, eq_text_iff s t, occurrences_absent t ss)

pub set_insert-Distinct : (t : Text) (ss : List Text) → Distinct ss → Distinct (set_insert t ss).1
unfolding set_insert
set_insert-Distinct t ss h = ground arith

pub member-set_insert :
    (t u : Text) (ss : List Text) → member u (set_insert t ss).1 ≡ (eq_text t u || member u ss)
unfolding set_insert member
member-set_insert t u ss = ground (arith, eq_text_iff t u)

-- Whether the text was new is whether it was no member.
pub set_insert_new : (t : Text) (ss : List Text) → (set_insert t ss).0 ≡ not (member t ss)
unfolding set_insert
set_insert_new t ss = ground arith
