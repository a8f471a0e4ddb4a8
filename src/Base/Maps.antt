-- ===== src/Base/Maps.antt =====
-- Go maps with text keys, as association lists: one binding for each key that was written.
use mathlib.Core.Path.{◌≡◌, refl}
use mathlib.Core.List.{List, [], ◌∷◌}
use mathlib.Core.Option.{Option, none, some}
use native.Mathlib.Omega.{arith}
use nockguard.Base.Tests.{if◌then◌else◌}
use nockguard.Base.Strings.{Text, text_eq, text_eq_refl, eq_of_text_eq}

abbrev pub Map {ℓ} : Type ℓ → Type ℓ
Map V = List (Text × V)

module _ {ℓ} {V : Type ℓ} where
  unfoldable pub lookup : Text → Map V → Option V
  lookup key [] = none
  lookup key ((other, v) ∷ rest) = if text_eq other key then some v else lookup key rest

  unfoldable pub insert : Text → V → Map V → Map V
  insert key new [] = (key, new) ∷ []
  insert key new ((other, old) ∷ rest) =
      if text_eq other key then (key, new) ∷ rest else (other, old) ∷ insert key new rest

  unfoldable pub delete : Text → Map V → Map V
  delete k [] = []
  delete k ((j, w) ∷ m) = if text_eq j k then delete k m else (j, w) ∷ delete k m

  pub lookup-insert :
      (k j : Text) (new : V) (m : Map V)
      → lookup j (insert k new m) ≡ (if text_eq k j then some new else lookup j m)
  unfolding lookup insert
  lookup-insert k j new [] = refl
  lookup-insert k j new ((other, old) ∷ rest) = ground (
    arith,
    lookup-insert k j new rest,
    eq_of_text_eq other j,
    eq_of_text_eq other k,
    eq_of_text_eq k j,
    text_eq_refl k,
    text_eq_refl other,
  )

  pub lookup-delete :
      (k j : Text) (m : Map V) → lookup j (delete k m) ≡ (if text_eq k j then none else lookup j m)
  unfolding lookup delete
  lookup-delete k j [] = ground arith
  lookup-delete k j ((i, w) ∷ m) = ground (
    arith,
    eq_of_text_eq i k,
    text_eq_refl i,
    eq_of_text_eq i j,
    eq_of_text_eq k j,
    lookup-delete k j m,
  )
