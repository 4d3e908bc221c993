-- ===== src/Daemon/Brew/Parsing.antt =====
-- What brew.rs reads from the output of `brew outdated --quiet`.
use brewmble.Prelude.{
  All, List, Text, [], false, is_empty, not, refl, ◌∷◌, ◌≡◌, IsLine, filter, lines, lines-unlines,
  unlines,
}
use brewmble.Daemon.Brew.{parse_outdated}

kept_lines :
    (ls : List Text)
    → All (λ l. is_empty l ≡ false) ls
    → filter (λ line. not (is_empty line)) ls ≡ ls
kept_lines [] h = refl
kept_lines (l ∷ ls) h = rw (h.0, kept_lines ls h.1)

-- From lines that are not empty and end with line feeds, `get_updates` reads exactly those lines.
pub parse_outdated-unlines :
    (ls : List Text)
    → All (λ l. is_empty l ≡ false) ls
    → All IsLine ls
    → parse_outdated (unlines ls) ≡ ls
unfolding parse_outdated
parse_outdated-unlines ls h k = rw (lines-unlines ls k) (kept_lines ls h)

filter_nonempty :
    (ls : List Text) → All (λ l. is_empty l ≡ false) (filter (λ line. not (is_empty line)) ls)
filter_nonempty [] = tt
filter_nonempty ([] ∷ ls) = filter_nonempty ls
filter_nonempty ((c ∷ l) ∷ ls) = (refl, filter_nonempty ls)

-- No reported package has an empty name, whatever the output.
pub parse_outdated_nonempty : (s : Text) → All (λ l. is_empty l ≡ false) (parse_outdated s)
unfolding parse_outdated
parse_outdated_nonempty s = filter_nonempty (lines s)
