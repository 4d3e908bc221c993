-- ===== src/Prelude.antt =====
-- The names that the other modules share: the libraries', passed on, and those of the children:
-- tests on numbers, lists, texts, decimal numbers and results.
mod Tests
mod Lists
mod Strings
mod Decimal
mod Results
pub mod Exec
pub mod Dict
pub mod Positions
pub mod Sets
pub use Tests.*
pub use Lists.{
  length, length-append, length-map, is_empty, find, any, all, is_some, filter_map, kept, filter,
  All, All-append,
}
unfoldable pub use Strings.*
pub use Strings.Splitting.{
  NoneOf, split_by-append, split_by_whole, split_by_cons, strip_prefix-append, split_once-append,
  split_once_absent,
}
pub use Strings.Lines.{IsLine, lines-cons, unlines, lines-unlines}
unfoldable pub use Decimal.*
pub use Decimal.Laws.{decimal_digits, parse_u16-decimal, hex_byte_lower, hex_byte_injective}
pub use Results.*
pub use Prim.Native.Nat.{ℕ, zero, suc, ◌+◌, ◌-◌, ◌*◌, ◌/◌, ◌%◌, ◌^◌, ◌≤◌, ◌<◌}
pub use Prim.Native.String.{String}
pub use mathlib.Core.Path.{◌≡◌, refl, sym, ap, ◌∙◌, subst}
pub use mathlib.Core.Logic.{◌≢◌, ◌↔◌, ◌⊎◌, inl, inr}
pub use mathlib.Core.Bool.{Bool, true, false, not, ◌&&◌, ◌||◌}
pub use mathlib.Core.Option.{Option, none, some, some-injective}
pub use mathlib.Core.List.{List, [], ◌∷◌, ◌++◌, map, append_assoc, append-nil}
pub use native.Mathlib.Omega.{arith}
