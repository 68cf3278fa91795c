-- ===== src/Prelude/KeyMap.antt =====
-- A map with keys of any type whose equality is decided by a Boolean test, as an association list:
-- std::map and absl::flat_hash_map with composite keys, where the order of the entries is not
-- observed.
use Prim.Native.Nat.{ℕ}
use mathlib.Core.Path.{◌≡◌}
use mathlib.Core.Logic.{◌↔◌}
use mathlib.Core.Bool.{Bool, true, false}
use mathlib.Core.Option.{Option, none, some}
use mathlib.Core.List.{List, [], ◌∷◌}
use native.Mathlib.Omega.{arith}
use hyperbot.Prelude.Tests.{◌==◌, ==_iff, if◌then◌else◌}

-- `operator==`
pub record Eq (K : Type 0) : Type 0 where
  pub beq : K → K → Bool
  pub beq_iff : (a b : K) → (beq a b ≡ true) ↔ (a ≡ b)

module _ {K V : Type 0} (e : Eq K) where
  -- `m.find(k)`
  unfoldable pub lookup : K → List (K × V) → Option V
  lookup k [] = none
  lookup k (entry ∷ rest) = elim (e.beq entry.0 k) [ true ↦ some entry.1 | false ↦ lookup k rest ]

  -- `m[k] = v`
  unfoldable pub insert : List (K × V) → K → V → List (K × V)
  insert [] k v = (k, v) ∷ []
  insert (entry ∷ rest) k v = elim (e.beq entry.0 k) [
    | true ↦ (k, v) ∷ rest
    | false ↦ entry ∷ insert rest k v
  ]

  -- `m.erase(k)`
  unfoldable pub erase : K → List (K × V) → List (K × V)
  erase k [] = []
  erase k (entry ∷ rest) = elim (e.beq entry.0 k) [
    | true ↦ erase k rest
    | false ↦ entry ∷ erase k rest
  ]

  pub lookup-insert :
      (m : List (K × V)) (k : K) (v : V) (other : K)
      → lookup other (insert m k v) ≡ (if e.beq k other then some v else lookup other m)
  unfolding lookup insert
  lookup-insert [] k v other = ground arith
  lookup-insert (entry ∷ rest) k v other = ground (
    arith,
    e.beq_iff k other,
    e.beq_iff entry.0 k,
    e.beq_iff entry.0 other,
    lookup-insert rest k v other,
  )

  pub lookup-erase :
      (m : List (K × V)) (k other : K)
      → lookup other (erase k m) ≡ (if e.beq k other then none else lookup other m)
  unfolding lookup erase
  lookup-erase [] k other = ground arith
  lookup-erase (entry ∷ rest) k other = ground (
    arith,
    e.beq_iff k other,
    e.beq_iff entry.0 k,
    e.beq_iff entry.0 other,
    lookup-erase rest k other,
  )

abbrev pub nat_eq : Eq ℕ
nat_eq = record { beq = ◌==◌; beq_iff = ==_iff }
