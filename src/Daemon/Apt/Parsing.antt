-- ===== src/Daemon/Apt/Parsing.antt =====
-- What apt.rs reads from the output of `apt-get -s dist-upgrade`.
use brewmble.Prelude.{
  All, List, Text, [], false, filter_map, is_empty, is_whitespace, lit, map, refl, some, split_by,
  split_whitespace, starts_with, true, ◌++◌, ◌∷◌, ◌≡◌, IsLine, NoneOf, filter, lines-unlines,
  split_by-append, split_by_whole, strip_prefix-append, unlines,
}
use brewmble.Daemon.Apt.{parse_updates, second_word}

-- A line of the output: a package that would be installed, with what follows its name and a space,
-- one with nothing after its name, or another line.
pub data Line : Type 0 where
  inst : Text → Text → Line
  alone : Text → Line
  other : Text → Line

abbrev pub render : Line → Text
render (inst name rest) = lit "Inst " ++ (name ++ (32 ∷ rest))
render (alone name) = lit "Inst " ++ name
render (other s) = s

abbrev pub IsRendered : Line → Type 0
IsRendered (inst name rest) =
    (is_empty name ≡ false) × NoneOf is_whitespace name × IsLine (render (inst name rest))
IsRendered (alone name) =
    (is_empty name ≡ false) × NoneOf is_whitespace name × IsLine (render (alone name))
IsRendered (other s) = (starts_with (lit "Inst ") s ≡ false) × IsLine s

abbrev pub names : List Line → List Text
names [] = []
names (inst name rest ∷ ls) = name ∷ names ls
names (alone name ∷ ls) = name ∷ names ls
names (other s ∷ ls) = names ls

starts_with_inst : (s : Text) → starts_with (lit "Inst ") (lit "Inst " ++ s) ≡ true
starts_with_inst s = rw (strip_prefix-append (lit "Inst ") s)

words_of_inst :
    (name rest : Text)
    → is_empty name ≡ false
    → NoneOf is_whitespace name
    → second_word (split_whitespace (render (inst name rest))) ≡ some name
unfolding lit split_by is_whitespace
words_of_inst name rest h k = rw (split_by-append is_whitespace name 32 rest k refl, h)

words_of_alone :
    (name : Text)
    → is_empty name ≡ false
    → NoneOf is_whitespace name
    → second_word (split_whitespace (render (alone name))) ≡ some name
unfolding lit split_by is_whitespace
words_of_alone name h k = rw (split_by_whole is_whitespace name k, h)

updates_of_lines :
    (ls : List Line)
    → All IsRendered ls
    → filter_map
        (λ line. second_word (split_whitespace line))
        (filter (λ line. starts_with (lit "Inst ") line) (map render ls))
      ≡ names ls
updates_of_lines [] h = refl
updates_of_lines (inst name rest ∷ ls) h =
    rw (starts_with_inst (name ++ (32 ∷ rest)))
      (rw (words_of_inst name rest h.0.0 h.0.1) (rw (updates_of_lines ls h.1)))
updates_of_lines (alone name ∷ ls) h =
    rw (starts_with_inst name) (rw (words_of_alone name h.0.0 h.0.1) (rw (updates_of_lines ls h.1)))
updates_of_lines (other s ∷ ls) h = rw (h.0.0) (updates_of_lines ls h.1)

IsLine-render : (ls : List Line) → All IsRendered ls → All IsLine (map render ls)
IsLine-render [] h = tt
IsLine-render (inst name rest ∷ ls) h = (h.0.2, IsLine-render ls h.1)
IsLine-render (alone name ∷ ls) h = (h.0.2, IsLine-render ls h.1)
IsLine-render (other s ∷ ls) h = (h.0.1, IsLine-render ls h.1)

-- From an output whose lines hold no carriage return and all end with a line feed, and in which each
-- line that begins with Inst and a space goes on at once with a name, which has no white space and
-- stands before a space or the end of the line, get_updates reads exactly these names, in their
-- order.
pub parse_updates-render :
    (ls : List Line) → All IsRendered ls → parse_updates (unlines (map render ls)) ≡ names ls
unfolding parse_updates
parse_updates-render ls h =
    rw (lines-unlines (map render ls) (IsLine-render ls h)) (updates_of_lines ls h)
