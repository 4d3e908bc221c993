-- ===== src/Cli/Progress/Display.antt =====
-- What the display of cli/src/progress.rs leaves on the terminal.
use brewmble.Prelude.{
  All, Bool, List, Text, [], false, ℕ, ◌∷◌, ◌≡◌, ◌≤◌, arith, none, refl, some, true, ◌∙◌,
  if◌then◌else◌, ◌==◌, inr, ◌⊎◌, inl, sym,
}
use brewmble.Cli.Progress.{
  NativeProgress, with_writer, sequence, emit, set_progress, Call, indeterminate, progress, success,
  error, cleared, call, calls, drop_progress, clamp,
}

-- One of the sequences that the terminal knows.
pub record IsSequence (t : Text) : Type 0 where
  pub state : ℕ
  pub percent : ℕ
  pub bounds : (state ≤ 3) × (percent ≤ 100)
  pub shape : t ≡ sequence state percent

-- Nothing is shown unless the display is active: the newest sequence is then the clearing one.
abbrev pub NewestClears : List Text → Type 0
NewestClears [] = Unit
NewestClears (t ∷ _) = t ≡ sequence 0 0

pub record IsTidy (p : NativeProgress) : Type 0 where
  pub hidden : p.active ≡ false → NewestClears p.written
  pub sequences : All IsSequence p.written
  pub silent : p.supported ≡ false → (p.active ≡ false) × (p.written ≡ [])

emit-IsTidy :
    (state percent : ℕ) (supported active : Bool) (written : List Text)
    → state ≤ 3
    → percent ≤ 100
    → (state ≡ 0 → percent ≡ 0)
    → IsTidy (record { supported = supported; active = active; written = written })
    → IsTidy
        (emit state percent (record { supported = supported; active = active; written = written }))
unfolding emit
emit-IsTidy state percent false active written h k z t = t
emit-IsTidy state percent true active written h k z t = record {
  hidden = λ e. let z0 : state ≡ 0 = ground arith in rw (z0, z z0) refl;
  sequences =
      (record { state = state; percent = percent; bounds = (h, k); shape = refl }, t.sequences);
  silent = λ e. ground arith;
}

with_writer-IsTidy : (supported : Bool) → IsTidy (with_writer supported)
with_writer-IsTidy supported = record {
  hidden = λ e. tt;
  sequences = tt;
  silent = λ e. (refl, refl);
}

if-IsTidy : (b : Bool) {p q : NativeProgress} → IsTidy p → IsTidy q → IsTidy (if b then p else q)
if-IsTidy true t u = t
if-IsTidy false t u = u

drop-tidy :
    (supported active : Bool) (written : List Text)
    → IsTidy (record { supported = supported; active = active; written = written })
    → let p =
        drop_progress (record { supported = supported; active = active; written = written }) in
      NewestClears p.written × All IsSequence p.written × ((supported ≡ true) ⊎ (p.written ≡ []))
unfolding drop_progress
drop-tidy false active written t = (t.hidden (t.silent refl).0, t.sequences, inr (t.silent refl).1)
drop-tidy true true written t = (
  refl,
  (
    record { state = 0; percent = 0; bounds = (omega arith, omega arith); shape = refl },
    t.sequences,
  ),
  inl refl,
)
drop-tidy true false written t = (t.hidden refl, t.sequences, inl refl)

emit-supported :
    (state percent : ℕ) (p : NativeProgress) → (emit state percent p).supported ≡ p.supported
unfolding emit
emit-supported state percent p = ground arith

module _ (percents : ℕ → ℕ → ℕ) where
  call-IsTidy : (c : Call) (p : NativeProgress) → IsTidy p → IsTidy (call percents c p)
  unfolding set_progress
  call-IsTidy indeterminate p t = emit-IsTidy 3 0 _ _ _ (omega arith) (omega arith) (λ e. refl) t
  call-IsTidy success p t = emit-IsTidy 1 100 _ _ _ (omega arith) (omega arith) (λ e. omega arith) t
  call-IsTidy error p t = emit-IsTidy 2 100 _ _ _ (omega arith) (omega arith) (λ e. omega arith) t
  call-IsTidy cleared p t = emit-IsTidy 0 0 _ _ _ (omega arith) (omega arith) (λ e. refl) t
  call-IsTidy (progress pos none) p t =
      emit-IsTidy 3 0 _ _ _ (omega arith) (omega arith) (λ e. refl) t
  call-IsTidy (progress pos (some len)) p t =
      if-IsTidy (len == 0) (emit-IsTidy 3 0 _ _ _ (omega arith) (omega arith) (λ e. refl) t) (
        emit-IsTidy 1 (clamp (percents pos len)) _ _ _ (omega arith) (ground arith)
          (λ e. omega arith) t)

  call-supported : (c : Call) (p : NativeProgress) → (call percents c p).supported ≡ p.supported
  unfolding set_progress
  call-supported indeterminate p = emit-supported 3 0 p
  call-supported success p = emit-supported 1 100 p
  call-supported error p = emit-supported 2 100 p
  call-supported cleared p = emit-supported 0 0 p
  call-supported (progress pos none) p = emit-supported 3 0 p
  call-supported (progress pos (some len)) p =
      ground (arith, emit-supported 3 0 p, emit-supported 1 (clamp (percents pos len)) p)

  calls-supported :
      (cs : List Call) (p : NativeProgress) → (calls percents cs p).supported ≡ p.supported
  unfolding calls
  calls-supported [] p = refl
  calls-supported (c ∷ cs) p = calls-supported cs (call percents c p) ∙ call-supported c p

  calls-IsTidy : (cs : List Call) (p : NativeProgress) → IsTidy p → IsTidy (calls percents cs p)
  unfolding calls
  calls-IsTidy [] p t = t
  calls-IsTidy (c ∷ cs) p t = calls-IsTidy cs (call percents c p) (call-IsTidy c p t)

  -- After any calls and the drop, the newest sequence clears the display, if anything was written;
  -- each sequence has a state up to 3 and a percentage up to 100, and nothing is written if the
  -- display is not supported.
  pub drop_progress-tidy :
      (supported : Bool) (cs : List Call)
      → let p = drop_progress (calls percents cs (with_writer supported)) in
        NewestClears p.written × All IsSequence p.written × ((supported ≡ true) ⊎ (p.written ≡ []))
  unfolding drop_progress
  drop_progress-tidy supported cs =
      let p : NativeProgress = calls percents cs (with_writer supported) in
      let t : IsTidy p = calls-IsTidy cs (with_writer supported) (with_writer-IsTidy supported) in
      let (a, b, c) = drop-tidy p.supported p.active p.written t in (a, b, supported_before c)
    where
      supported_before :
          {X : Type 0}
          → ((calls percents cs (with_writer supported)).supported ≡ true) ⊎ X
          → (supported ≡ true) ⊎ X
      supported_before (inl e) = inl (sym (calls-supported cs (with_writer supported)) ∙ e)
      supported_before (inr x) = inr x
