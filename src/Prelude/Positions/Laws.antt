-- ===== src/Prelude/Positions/Laws.antt =====
-- Laws of positions, reads and writes in lists.
use Prim.Native.Nat.{ℕ, zero, suc}
use mathlib.Core.Path.{◌≡◌, refl, ap, sym, subst}
use mathlib.Core.Logic.{◌⊎◌, inl, inr}
use mathlib.Core.Bool.{Bool, true}
use mathlib.Core.Option.{none, some, some-injective}
use mathlib.Core.List.{List, [], ◌∷◌, ◌++◌}
use native.Mathlib.Omega.{arith}
use brewmble.Prelude.Lists.{length}
use brewmble.Prelude.Positions.{position, get_elem?, set, Any}

module _ {ℓ} {A : Type ℓ} where
  -- A position that was found is in bounds, and its item passes the test.
  pub position_found :
      (test : A → Bool) (xs : List A) (i : ℕ)
      → position test xs ≡ some i
      → (x : A) × (get_elem? xs i ≡ some x) × (test x ≡ true)
  unfolding position
  position_found test [] i h = cc
  position_found test (x ∷ xs) zero h = (x, refl, ground arith)
  position_found test (x ∷ xs) (suc i) h = position_found test xs i (ground arith)

  pub set_same : (xs : List A) (i : ℕ) (x : A) → get_elem? xs i ≡ some x → set xs i x ≡ xs
  set_same [] i x h = refl
  set_same (y ∷ xs) zero x h = ap (λ z. z ∷ xs) (sym (some-injective _ _ h))
  set_same (y ∷ xs) (suc i) x h = ap (λ zs. y ∷ zs) (set_same xs i x h)

  pub get_elem?-set_self :
      (xs : List A) (i : ℕ) (x y : A) → get_elem? xs i ≡ some x → get_elem? (set xs i y) i ≡ some y
  get_elem?-set_self [] i x y h = cc
  get_elem?-set_self (z ∷ xs) zero x y h = refl
  get_elem?-set_self (z ∷ xs) (suc i) x y h = get_elem?-set_self xs i x y h

  -- A write of an item that passes the test leaves the first position where it is.
  pub position-set :
      (test : A → Bool) (xs : List A) (i : ℕ) (x y : A)
      → get_elem? xs i ≡ some x
      → (position test xs ≡ some i) ⊎ (position test xs ≡ none)
      → test y ≡ true
      → position test (set xs i y) ≡ some i
  unfolding position
  position-set test [] i x y h k t = cc
  position-set test (z ∷ xs) zero x y h k t = rw t
  position-set test (z ∷ xs) (suc i) x y h k t =
      ground (arith, position-set test xs i x y h (ground arith) t)

  pub position-append_new :
      (test : A → Bool) (xs : List A) (y : A)
      → position test xs ≡ none
      → test y ≡ true
      → position test (xs ++ (y ∷ [])) ≡ some (length xs)
  unfolding position
  position-append_new test [] y h t = rw t
  position-append_new test (x ∷ xs) y h t = ground (arith, position-append_new test xs y)

  pub get_elem?-append_new : (xs : List A) (y : A) → get_elem? (xs ++ (y ∷ [])) (length xs) ≡ some y
  get_elem?-append_new [] y = refl
  get_elem?-append_new (x ∷ xs) y = get_elem?-append_new xs y

  module _ (P : A → Type 0) where
    pub Any-get_elem? : (xs : List A) (i : ℕ) (x : A) → get_elem? xs i ≡ some x → P x → Any P xs
    Any-get_elem? [] i x h p = cc
    Any-get_elem? (y ∷ xs) zero x h p = inl (subst P (sym (some-injective _ _ h)) p)
    Any-get_elem? (y ∷ xs) (suc i) x h p = inr (Any-get_elem? xs i x h p)

    pub Any-set : (xs : List A) (i : ℕ) (x : A) → Any P (set xs i x) → P x ⊎ Any P xs
    Any-set [] i x h = absurd h
    Any-set (y ∷ xs) zero x (inl p) = inl p
    Any-set (y ∷ xs) zero x (inr h) = inr (inr h)
    Any-set (y ∷ xs) (suc i) x (inl p) = inr (inl p)
    Any-set (y ∷ xs) (suc i) x (inr h) = elim (Any-set xs i x h) [
      | inl p ↦ inl p
      | inr k ↦ inr (inr k)
    ]

    pub Any-append : (xs ys : List A) → Any P (xs ++ ys) → Any P xs ⊎ Any P ys
    Any-append [] ys h = inr h
    Any-append (x ∷ xs) ys (inl p) = inl (inl p)
    Any-append (x ∷ xs) ys (inr h) = elim (Any-append xs ys h) [
      | inl p ↦ inl (inr p)
      | inr k ↦ inr k
    ]

    pub Any-append_new : (xs : List A) (y : A) → P y → Any P (xs ++ (y ∷ []))
    Any-append_new [] y p = inl p
    Any-append_new (x ∷ xs) y p = inr (Any-append_new xs y p)
