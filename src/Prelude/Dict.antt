-- ===== src/Prelude/Dict.antt =====
-- A `HashMap` with text keys, as an association list. The order of its entries is not specified,
-- and no statement depends on it.
use brewmble.Prelude.Tests.{if◌then◌else◌}
use brewmble.Prelude.Lists.{is_some}
use brewmble.Prelude.Strings.{Text, eq_text, eq_text_iff}
use mathlib.Core.Path.{◌≡◌, refl, subst}
use mathlib.Core.Bool.{Bool}
use mathlib.Core.Option.{Option, none, some, some-injective}
use mathlib.Core.List.{List, [], ◌∷◌}
use native.Mathlib.Omega.{arith}
use brewmble.Prelude.Tests.{Bool-cases}
use mathlib.Core.Logic.{inl, inr}

abbrev pub Dict {ℓ} : Type ℓ → Type ℓ
Dict V = List (Text × V)

module _ {ℓ} {V : Type ℓ} where
  unfoldable pub get : Text → Dict V → Option V
  get k [] = none
  get k ((j, v) ∷ d) = if eq_text j k then some v else get k d

  unfoldable pub insert : Text → V → Dict V → Dict V
  insert k v [] = (k, v) ∷ []
  insert k v ((j, w) ∷ d) = if eq_text j k then (k, v) ∷ d else (j, w) ∷ insert k v d

  unfoldable pub remove : Text → Dict V → Dict V
  remove k [] = []
  remove k ((j, v) ∷ d) = let rest = remove k d in if eq_text j k then rest else (j, v) ∷ rest

  -- `values_mut`: every value changed.
  unfoldable pub map_values : (V → V) → Dict V → Dict V
  map_values f [] = []
  map_values f ((j, v) ∷ d) = (j, f v) ∷ map_values f d

  abbrev pub contains_key : Text → Dict V → Bool
  contains_key k d = is_some (get k d)

  pub get-insert :
      (k j : Text) (v : V) (d : Dict V)
      → get j (insert k v d) ≡ (if eq_text k j then some v else get j d)
  unfolding get insert
  get-insert k j v [] = refl
  get-insert k j v ((i, w) ∷ d) =
      ground (arith, eq_text_iff k j, eq_text_iff i k, eq_text_iff i j, get-insert k j v d)

  pub get-remove :
      (k j : Text) (d : Dict V) → get j (remove k d) ≡ (if eq_text k j then none else get j d)
  unfolding get remove
  get-remove k j [] = ground arith
  get-remove k j ((i, w) ∷ d) =
      ground (arith, eq_text_iff k j, eq_text_iff i k, eq_text_iff i j, get-remove k j d)

  abbrev pub mapped : (V → V) → Option V → Option V
  mapped f none = none
  mapped f (some v) = some (f v)

  pub get-map_values :
      (f : V → V) (k : Text) (d : Dict V) → get k (map_values f d) ≡ mapped f (get k d)
  unfolding get map_values
  get-map_values f k [] = refl
  get-map_values f k ((j, v) ∷ d) = ground (arith, get-map_values f k d)

-- A predicate on every value of a dictionary, also on those that `get` does not reach.
module _ {ℓ} {V : Type ℓ} (P : V → Type 0) where
  abbrev pub Values : Dict V → Type 0
  Values [] = Unit
  Values ((k, v) ∷ d) = P v × Values d

  pub Values-insert : (k : Text) (v : V) (d : Dict V) → P v → Values d → Values (insert k v d)
  unfolding insert
  Values-insert k v [] p h = (p, tt)
  Values-insert k v ((j, w) ∷ d) p h = elim (Bool-cases (eq_text j k)) [
    | inl e ↦ rw e (p, h.1)
    | inr e ↦ rw e (h.0, Values-insert k v d p h.1)
  ]

  pub Values-remove : (k : Text) (d : Dict V) → Values d → Values (remove k d)
  unfolding remove
  Values-remove k [] h = h
  Values-remove k ((j, w) ∷ d) h = elim (Bool-cases (eq_text j k)) [
    | inl e ↦ rw e (Values-remove k d h.1)
    | inr e ↦ rw e (h.0, Values-remove k d h.1)
  ]

  pub Values-get : (k : Text) (v : V) (d : Dict V) → Values d → get k d ≡ some v → P v
  unfolding get
  Values-get k v [] h e = cc
  Values-get k v ((j, w) ∷ d) h e = elim (Bool-cases (eq_text j k)) [
    | inl same ↦ subst P (some-injective w v (rw same at e)) h.0
    | inr later ↦ Values-get k v d h.1 (rw later at e)
  ]
