-- ===== src/Prelude/Exec.antt =====
-- Methods that change a state and may fail: what was written before an error stays written.
use brewmble.Prelude.Strings.{Text}
use brewmble.Prelude.Results.{Result, ok, err}
use brewmble.Prelude.Tests.{if◌then◌else◌}
use mathlib.Core.Bool.{Bool, true, false}

-- The error is its `Display` text, which is what `Box<dyn Error>` keeps of it here.
abbrev pub Exec {ℓ κ} : Type ℓ → Type κ → Type (ℓ ⊔ κ)
Exec S A = S → Result Text A × S

module _ {ℓ κ μ} {S : Type ℓ} {A : Type κ} {B : Type μ} where
  abbrev pub and_then : Result Text A → (A → Exec S B) → Exec S B
  and_then (ok a) f s = f a s
  and_then (err e) f s = (err e, s)

  infixl 5 ◌>>=◌ ◌>>◌
  abbrev pub ◌>>=◌ : Exec S A → (A → Exec S B) → Exec S B
  ◌>>=◌ m f s = let (r, s') = m s in and_then r f s'

  abbrev pub ◌>>◌ : Exec S A → Exec S B → Exec S B
  m >> k = m >>= λ _. k

module _ {ℓ κ} {S : Type ℓ} {A : Type κ} where
  abbrev pub pure : A → Exec S A
  pure a s = (ok a, s)

  abbrev pub fail : Text → Exec S A
  fail e s = (err e, s)

  abbrev pub gets : (S → A) → Exec S A
  gets f s = (ok (f s), s)

abbrev pub modify {ℓ} : {S : Type ℓ} → (S → S) → Exec S (Unit {0})
modify f s = (ok tt, f s)

-- What holds of the state before holds after, however the method ends.
abbrev pub Keeps {ℓ κ μ} : {S : Type ℓ} {A : Type κ} → (S → Type μ) → Exec S A → Type (ℓ ⊔ μ)
Keeps {S} P m = (s : S) → P s → P (m s).1

module _ {ℓ κ μ ν} {S : Type ℓ} {A : Type κ} {B : Type μ} (P : S → Type ν) where
  and_then-Keeps :
      (r : Result Text A) (f : A → Exec S B) → ((a : A) → Keeps P (f a)) → Keeps P (and_then r f)
  and_then-Keeps (ok a) f h s p = h a s p
  and_then-Keeps (err e) f h s p = p

  pub >>=-Keeps :
      (m : Exec S A) (f : A → Exec S B) → Keeps P m → ((a : A) → Keeps P (f a)) → Keeps P (m >>= f)
  >>=-Keeps m f h k s p = and_then-Keeps (m s).0 f k (m s).1 (h s p)

module _ {ℓ κ ν} {S : Type ℓ} {A : Type κ} (P : S → Type ν) where
  -- Either way a state is left that is as wanted.
  pub if_keeps : (b : Bool) (x y : Result Text A × S) → P x.1 → P y.1 → P (if b then x else y).1
  if_keeps true x y p q = p
  if_keeps false x y p q = q
