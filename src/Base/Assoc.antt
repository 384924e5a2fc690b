-- ===== src/Base/Assoc.antt =====
-- `std::unordered_map` as an association list with one entry for each key.
use mathlib.Core.Path.{◌≡◌, refl}
use mathlib.Core.List.{List, [], ◌∷◌}
use mathlib.Core.Option.{Option, none, some}
use native.Mathlib.Omega.{arith}
use fileagent_server.Base.Tests.{Key, same, if◌then◌else◌}

module _ {ℓ κ} {K : Type ℓ} {V : Type κ} ⦃k : Key K⦄ where
  -- `find`
  unfoldable pub lookup : K → List (K × V) → Option V
  lookup key [] = none
  lookup key ((j, v) ∷ m) = if same j key then some v else lookup key m

  -- `m[key] = v`
  unfoldable pub insert : K → V → List (K × V) → List (K × V)
  insert key v [] = (key, v) ∷ []
  insert key v ((j, w) ∷ m) = if same j key then (key, v) ∷ m else (j, w) ∷ insert key v m

  -- `m.erase(key)`
  unfoldable pub erase : K → List (K × V) → List (K × V)
  erase key [] = []
  erase key ((j, w) ∷ m) = if same j key then erase key m else (j, w) ∷ erase key m

  pub lookup-insert :
      (key j : K) (v : V) (m : List (K × V))
      → lookup j (insert key v m) ≡ (if same key j then some v else lookup j m)
  unfolding lookup insert
  lookup-insert key j v [] = refl
  lookup-insert key j v ((i, w) ∷ m) =
      ground (arith, lookup-insert key j v m, k.same_iff i key, k.same_iff i j, k.same_iff key j)

  pub lookup-erase :
      (key j : K) (m : List (K × V))
      → lookup j (erase key m) ≡ (if same key j then none else lookup j m)
  unfolding lookup erase
  lookup-erase key j [] = ground arith
  lookup-erase key j ((i, w) ∷ m) =
      ground (arith, lookup-erase key j m, k.same_iff i key, k.same_iff i j, k.same_iff key j)
