-- ===== src/Prelude/Maps.antt =====
-- `HashMap` as an association list: the newest binding of a key counts.
use mathlib.Core.Path.{◌≡◌}
use mathlib.Core.Logic.{ite}
use mathlib.Core.Option.{Option, none, some}
use mathlib.Core.List.{List, [], ◌∷◌}
use native.Mathlib.Omega.{arith}

module _ {K V : Type 0} (eq : Discrete K) where
  unfoldable pub lookup : K → List (K × V) → Option V
  lookup k [] = none
  lookup k ((j, v) ∷ m) = ite (eq j k) (some v) (lookup k m)

  unfoldable pub remove : K → List (K × V) → List (K × V)
  remove k [] = []
  remove k ((j, v) ∷ m) = ite (eq j k) (remove k m) ((j, v) ∷ remove k m)

  unfoldable pub insert : K → V → List (K × V) → List (K × V)
  unfolding remove
  insert k v m = (k, v) ∷ remove k m

  pub lookup-remove :
      (k j : K) (m : List (K × V)) → lookup k (remove j m) ≡ ite (eq j k) none (lookup k m)
  unfolding lookup remove
  lookup-remove k j [] = ground arith
  lookup-remove k j ((i, v) ∷ m) = ground (arith, lookup-remove k j m)

  pub lookup-insert :
      (k j : K) (v : V) (m : List (K × V))
      → lookup k (insert j v m) ≡ ite (eq j k) (some v) (lookup k m)
  unfolding lookup insert
  lookup-insert k j v m = ground (arith, lookup-remove k j m)
