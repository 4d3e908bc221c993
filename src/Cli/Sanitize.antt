-- ===== src/Cli/Sanitize.antt =====
-- cli/src/sanitize.rs: control characters are taken out of what is shown on a terminal.
use brewmble.Prelude.{
  ℕ, Bool, Bool-cases, NoneOf, Text, [], filter, inl, inr, leb, not, refl, ◌&&◌, ◌++◌, ◌==◌, ◌||◌,
  ◌∷◌, ◌≡◌,
}

abbrev pub is_control : ℕ → Bool
is_control n = (leb 0 n && leb n 0x1f) || (n == 0x7f) || (leb 0x80 n && leb n 0x9f)

unfoldable pub sanitize_display : Text → Text
sanitize_display s = filter (λ c. not (is_control c)) s

-- A text with no control character.
abbrev pub IsClean : Text → Type 0
IsClean s = NoneOf is_control s

-- The result has no control character.
pub sanitize_display-IsClean : (s : Text) → IsClean (sanitize_display s)
unfolding sanitize_display
sanitize_display-IsClean [] = tt
sanitize_display-IsClean (c ∷ s) = elim (Bool-cases (is_control c)) [
  | inl h ↦ rw h (sanitize_display-IsClean s)
  | inr h ↦ rw h (h, sanitize_display-IsClean s)
]

-- A clean text is not changed.
pub sanitize_display_of_IsClean : (s : Text) → IsClean s → sanitize_display s ≡ s
unfolding sanitize_display
sanitize_display_of_IsClean [] h = refl
sanitize_display_of_IsClean (c ∷ s) h = rw (h.0, sanitize_display_of_IsClean s h.1)

-- The change is made to each part of a text on its own, so that the order of what is kept stays.
pub sanitize_display-append :
    (s t : Text) → sanitize_display (s ++ t) ≡ sanitize_display s ++ sanitize_display t
unfolding sanitize_display
sanitize_display-append [] t = refl
sanitize_display-append (c ∷ s) t = elim (Bool-cases (is_control c)) [
  | inl h ↦ rw h (sanitize_display-append s t)
  | inr h ↦ rw h (rw (sanitize_display-append s t))
]
