-- ===== src/Prelude/Map.antt =====
-- A map with number keys as an association list: std::map, absl::flat_hash_map and
-- std::unordered_map where the order of the entries is not observed.
use Prim.Native.Nat.{ℕ}
use mathlib.Core.Path.{◌≡◌}
use mathlib.Core.Bool.{true, false}
use mathlib.Core.Option.{Option, none, some}
use mathlib.Core.List.{List, [], ◌∷◌}
use native.Mathlib.Omega.{arith}
use hyperbot.Prelude.Tests.{◌==◌, if◌then◌else◌}

module _ {ℓ} {V : Type ℓ} where
  -- `m.find(k)`
  unfoldable pub lookup : ℕ → List (ℕ × V) → Option V
  lookup k [] = none
  lookup k (entry ∷ rest) = elim (entry.0 == k) [ true ↦ some entry.1 | false ↦ lookup k rest ]

  -- `m[k] = v`
  unfoldable pub insert : List (ℕ × V) → ℕ → V → List (ℕ × V)
  insert [] k v = (k, v) ∷ []
  insert (entry ∷ rest) k v = elim (entry.0 == k) [
    | true ↦ (k, v) ∷ rest
    | false ↦ entry ∷ insert rest k v
  ]

  -- `m.erase(k)`
  unfoldable pub erase : ℕ → List (ℕ × V) → List (ℕ × V)
  erase k [] = []
  erase k (entry ∷ rest) = elim (entry.0 == k) [
    | true ↦ erase k rest
    | false ↦ entry ∷ erase k rest
  ]

  pub lookup-insert :
      (m : List (ℕ × V)) (k : ℕ) (v : V) (other : ℕ)
      → lookup other (insert m k v) ≡ (if k == other then some v else lookup other m)
  unfolding lookup insert
  lookup-insert [] k v other = ground arith
  lookup-insert (entry ∷ rest) k v other = ground (arith, lookup-insert rest k v other)

  pub lookup-erase :
      (m : List (ℕ × V)) (k other : ℕ)
      → lookup other (erase k m) ≡ (if k == other then none else lookup other m)
  unfolding lookup erase
  lookup-erase [] k other = ground arith
  lookup-erase (entry ∷ rest) k other = ground (arith, lookup-erase rest k other)
