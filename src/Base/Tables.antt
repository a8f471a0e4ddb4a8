-- ===== src/Base/Tables.antt =====
-- Go maps with uint64 keys, as association lists.
use Prim.Native.Nat.{ℕ}
use mathlib.Core.Path.{◌≡◌, refl}
use mathlib.Core.Option.{Option, none, some}
use mathlib.Core.List.{List, [], ◌∷◌}
use native.Mathlib.Omega.{arith}
use nockguard.Base.Tests.{◌==◌, if◌then◌else◌}

abbrev pub Table {ℓ} : Type ℓ → Type ℓ
Table V = List (ℕ × V)

module _ {ℓ} {V : Type ℓ} where
  unfoldable pub at : ℕ → Table V → Option V
  at seq [] = none
  at seq ((other, v) ∷ rest) = if seq == other then some v else at seq rest

  unfoldable pub put : ℕ → V → Table V → Table V
  put seq new [] = (seq, new) ∷ []
  put seq new ((other, old) ∷ rest) =
      let tail = put seq new rest in if seq == other then (seq, new) ∷ rest else (other, old) ∷ tail

  unfoldable pub drop_key : ℕ → Table V → Table V
  drop_key seq [] = []
  drop_key seq ((other, old) ∷ rest) =
      let tail = drop_key seq rest in if seq == other then tail else (other, old) ∷ tail

  pub at-put :
      (x seq : ℕ) (new : V) (t : Table V)
      → at x (put seq new t) ≡ (if x == seq then some new else at x t)
  unfolding at put
  at-put x seq new [] = refl
  at-put x seq new ((other, old) ∷ rest) = ground (arith, at-put x seq new rest)

  pub at-drop_key :
      (x seq : ℕ) (t : Table V) → at x (drop_key seq t) ≡ (if x == seq then none else at x t)
  unfolding at drop_key
  at-drop_key x seq [] = ground arith
  at-drop_key x seq ((other, old) ∷ rest) = ground (arith, at-drop_key x seq rest)
