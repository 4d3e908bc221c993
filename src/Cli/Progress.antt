-- ===== src/Cli/Progress.antt =====
-- The terminal's progress display of cli/src/progress.rs. The quotient of the floating-point
-- numbers, cut to a whole number of percents, is a parameter; `clamp` is written out.
pub mod Display
use brewmble.Prelude.{
  Bool, ℕ, List, Option, Text, [], decimal, eq_text, false, if◌then◌else◌, leb, lit, none, not,
  some, true, ◌&&◌, ◌++◌, ◌==◌, ◌∷◌,
}

-- What was written, the newest first, and whether the display shows something.
pub record NativeProgress : Type 0 where
  pub supported : Bool
  pub active : Bool
  pub written : List Text

abbrev pub with_writer : Bool → NativeProgress
with_writer supported = record { supported = supported; active = false; written = [] }

-- The escape sequence: `ESC ] 9 ; 4 ; state ; progress BEL`.
unfoldable pub sequence : ℕ → ℕ → Text
sequence state progress =
    27 ∷ (lit "]9;4;" ++ (decimal state ++ (lit ";" ++ (decimal progress ++ (7 ∷ [])))))

unfoldable pub emit : ℕ → ℕ → NativeProgress → NativeProgress
emit state progress p =
    if not p.supported
    then p
    else record p { written = sequence state progress ∷ p.written; active = not (state == 0) }

abbrev pub set_indeterminate : NativeProgress → NativeProgress
set_indeterminate = emit 3 0

abbrev pub finish_success : NativeProgress → NativeProgress
finish_success = emit 1 100

abbrev pub finish_error : NativeProgress → NativeProgress
finish_error = emit 2 100

abbrev pub clear : NativeProgress → NativeProgress
clear = emit 0 0

abbrev pub clamp : ℕ → ℕ
clamp percents = if leb 100 percents then 100 else percents

-- The calls of a run.
pub data Call : Type 0 where
  indeterminate : Call
  progress : ℕ → Option ℕ → Call
  success : Call
  error : Call
  cleared : Call

module _ (percents : ℕ → ℕ → ℕ) where
  unfoldable pub set_progress : ℕ → Option ℕ → NativeProgress → NativeProgress
  set_progress pos none p = set_indeterminate p
  set_progress pos (some len) p =
      if len == 0 then set_indeterminate p else emit 1 (clamp (percents pos len)) p

  abbrev pub call : Call → NativeProgress → NativeProgress
  call indeterminate p = set_indeterminate p
  call (progress pos len) p = set_progress pos len p
  call success p = finish_success p
  call error p = finish_error p
  call cleared p = clear p

  unfoldable pub calls : List Call → NativeProgress → NativeProgress
  calls [] p = p
  calls (c ∷ cs) p = calls cs (call c p)

unfoldable pub drop_progress : NativeProgress → NativeProgress
drop_progress p =
    if p.supported && p.active then record p { written = sequence 0 0 ∷ p.written } else p

-- The environment variable `BREWMBLE_NATIVE_PROGRESS`, if it is set to a text.
unfoldable pub detect_native_progress : Option Text → Bool
detect_native_progress none = true
detect_native_progress (some v) = not (eq_text v (lit "0"))
