-- ===== src/Cli/Timeout.antt =====
-- `get_default_timeout` of cli/src/main.rs. The reader of durations of the crate `humantime` is a
-- parameter; a duration is given in nanoseconds.
use brewmble.Prelude.{Option, Text, none, parse_u64, some, ℕ, ◌*◌}

abbrev nanoseconds : ℕ
nanoseconds = 1_000_000_000

abbrev or_sixty : Option ℕ → ℕ
or_sixty none = 60 * nanoseconds
or_sixty (some duration) = duration

abbrev read_duration : (Text → Option ℕ) → Text → Option ℕ
read_duration humantime v = elim (parse_u64 v) [
  | some secs ↦ some (secs * nanoseconds)
  | none ↦ humantime v
]

abbrev of_variable : (Text → Option ℕ) → Option Text → Option ℕ
of_variable humantime none = none
of_variable humantime (some v) = read_duration humantime v

-- The variable `BREWMBLE_TIMEOUT`, if it is set to a text.
unfoldable pub get_default_timeout : (Text → Option ℕ) → Option Text → ℕ
get_default_timeout humantime variable = or_sixty (of_variable humantime variable)
