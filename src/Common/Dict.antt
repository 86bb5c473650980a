-- ===== src/Common/Dict.antt =====
-- Go's `map[string]V` as an association list with string keys. Go leaves the order in which a map
-- is ranged over open; the functions that range take the entries in the list's order, and what is
-- proved of them holds for every list.
use Prim.Native.Nat.{◌≤◌, suc}
use Prim.Native.String.{String}
use mathlib.Core.Path.{◌≡◌}
use mathlib.Core.Option.{Option, none, some}
use mathlib.Core.List.{List, [], ◌∷◌}
use native.Mathlib.Omega.{arith}
use text.Mathlib.Text.{◌==◌}
use text.Mathlib.TextEquality.{eq_iff}
use shared_compute.Common.Tests.{if◌then◌else◌}
use shared_compute.Common.Lists.{length}

abbrev pub Dict {ℓ} : Type ℓ → Type ℓ
Dict V = List (String × V)

module _ {ℓ} {V : Type ℓ} where
  -- v, ok := m[k]
  unfoldable pub get : Dict V → String → Option V
  get [] k = none
  get ((j, v) ∷ m) k = if j == k then some v else get m k

  -- delete(m, k)
  unfoldable pub delete : Dict V → String → Dict V
  delete [] k = []
  delete ((j, v) ∷ m) k = let rest = delete m k in if j == k then rest else (j, v) ∷ rest

  -- m[k] = v
  unfoldable pub put : Dict V → String → V → Dict V
  put m k v = (k, v) ∷ delete m k

  pub get-delete :
      (m : Dict V) (k j : String) → get (delete m k) j ≡ (if k == j then none else get m j)
  unfolding get delete
  get-delete [] k j = ground arith
  get-delete ((i, v) ∷ m) k j = ground (arith, get-delete m k j, eq_iff i k, eq_iff i j, eq_iff k j)

  pub get-put :
      (m : Dict V) (k j : String) (v : V) → get (put m k v) j ≡ (if k == j then some v else get m j)
  unfolding get put
  get-put m k j v = ground (arith, get-delete m k j)

  pub length-delete-le : (m : Dict V) (k : String) → length (delete m k) ≤ length m
  unfolding delete
  length-delete-le [] k = omega arith
  length-delete-le ((i, v) ∷ m) k = ground (arith, length-delete-le m k)

  -- Removing a key that is there makes the map smaller.
  pub length-delete-lt :
      (m : Dict V) (k : String) (v : V) → get m k ≡ some v → suc (length (delete m k)) ≤ length m
  unfolding get delete
  length-delete-lt [] k v h = ground arith
  length-delete-lt ((i, w) ∷ m) k v h = ground (arith, length-delete-le m k, length-delete-lt m k v)

-- A set of strings, `map[string]struct{}`.
abbrev pub StringSet : Type 0
StringSet = Dict (Unit {0})

pub ruleset dict_laws = (get-delete, get-put)
