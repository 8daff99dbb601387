-- ===== src/Base/Maps.antt =====
-- A map from texts as an association list that holds each key once.
use mathlib.Core.Path.{◌≡◌, refl}
use mathlib.Core.Logic.{inl, inr}
use mathlib.Core.Bool.{true, false}
use mathlib.Core.Option.{Option, none, some}
use mathlib.Core.List.{List, [], ◌∷◌}
use native.Mathlib.Omega.{arith}
use tikti.Base.Tests.{if◌then◌else◌, Bool-cases}
use tikti.Base.Texts.{Text, teq, teq_refl, teq_sound}

-- Two keys that are not one.
apart : (k key other : Text) → teq key other ≡ false → teq k key ≡ true → teq k other ≡ false
apart k key other h e = rw (teq_sound k key e) h

module _ {ℓ} {V : Type ℓ} where
  unfoldable pub lookup : Text → List (Text × V) → Option V
  lookup key [] = none
  lookup key ((k, v) ∷ rest) = if teq k key then some v else lookup key rest

  unfoldable pub store_at : Text → V → List (Text × V) → List (Text × V)
  store_at key value [] = (key, value) ∷ []
  store_at key value ((k, v) ∷ rest) =
      let later = store_at key value rest in if teq k key then (k, value) ∷ rest else (k, v) ∷ later

  unfoldable pub drop_key : Text → List (Text × V) → List (Text × V)
  drop_key key [] = []
  drop_key key ((k, v) ∷ rest) =
      let later = drop_key key rest in if teq k key then later else (k, v) ∷ later

  pub lookup-store_at :
      (key : Text) (value : V) (m : List (Text × V))
      → lookup key (store_at key value m) ≡ some value
  unfolding lookup store_at
  lookup-store_at key value [] = ground (arith, teq_refl key)
  lookup-store_at key value ((k, v) ∷ rest) = ground (arith, lookup-store_at key value rest)

  pub lookup-store_at_other :
      (key other : Text) (value : V) (m : List (Text × V))
      → teq key other ≡ false
      → lookup other (store_at key value m) ≡ lookup other m
  unfolding lookup store_at
  lookup-store_at_other key other value [] h = ground (arith, h)
  lookup-store_at_other key other value ((k, v) ∷ rest) h = elim (Bool-cases (teq k key)) [
    | inl e ↦ ground (arith, e, apart k key other h e)
    | inr e ↦ ground (arith, e, lookup-store_at_other key other value rest h)
  ]

  pub lookup-drop_key : (key : Text) (m : List (Text × V)) → lookup key (drop_key key m) ≡ none
  unfolding lookup drop_key
  lookup-drop_key key [] = refl
  lookup-drop_key key ((k, v) ∷ rest) = ground (arith, lookup-drop_key key rest)

  pub lookup-drop_key_other :
      (key other : Text) (m : List (Text × V))
      → teq key other ≡ false
      → lookup other (drop_key key m) ≡ lookup other m
  unfolding lookup drop_key
  lookup-drop_key_other key other [] h = refl
  lookup-drop_key_other key other ((k, v) ∷ rest) h = elim (Bool-cases (teq k key)) [
    | inl e ↦ ground (arith, e, apart k key other h e, lookup-drop_key_other key other rest h)
    | inr e ↦ ground (arith, e, lookup-drop_key_other key other rest h)
  ]
