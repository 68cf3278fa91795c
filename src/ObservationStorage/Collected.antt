-- ===== src/ObservationStorage/Collected.antt =====
-- The loops of an eviction: what they collect, and what they take out of the maps.
use Prim.Native.String.{String}
use text.Mathlib.TextEquality.{eq_iff}
use hyperbot.Prelude.{
  ℕ, zero, suc, ◌+◌, ◌<◌, ◌≤◌, ◌≡◌, refl, ap, ◌∙◌, inl, inr, Bool, true, false, ◌&&◌, ◌||◌, none,
  some, List, [], ◌∷◌, ◌==◌, leb, ltb, if◌then◌else◌, Bool-cases, ok, ==_iff, arith,
}
use hyperbot.Prelude.KeyMap.{nat_eq, lookup, erase, lookup-erase}
use hyperbot.ObservationStorage.{BufferIndices, indices_eq, same_indices, collect_ids, erase_ids}
use hyperbot.ObservationStorage.Valid.{place, same_fight}

abbrev pub contains : List ℕ → ℕ → Bool
contains [] id = false
contains (x ∷ xs) id = x == id || contains xs id

pub lookup-erase_ids :
    (ids : List ℕ) (m : List (ℕ × BufferIndices)) (id : ℕ)
    → lookup nat_eq id (erase_ids ids m) ≡ (if contains ids id then none else lookup nat_eq id m)
unfolding erase_ids
lookup-erase_ids [] m id = refl
lookup-erase_ids (x ∷ xs) m id =
    ground (arith, lookup-erase_ids xs (erase nat_eq x m) id, lookup-erase nat_eq m x id)

-- What a collection of ids does: the ids are those of the places, which are gone from the map.
pub record Collects (p : ℕ) (name : String) (i n : ℕ) (m : List (BufferIndices × ℕ)) (ids : List ℕ)
    (rest : List (BufferIndices × ℕ)) : Type 0 where
  pub held :
      (j id : ℕ)
      → i ≤ j
      → j < i + n
      → lookup indices_eq (place p name j) m ≡ some id
      → contains ids id ≡ true
  pub only :
      (id : ℕ)
      → contains ids id ≡ true
      → (j : ℕ) × (i ≤ j) × (j < i + n) × (lookup indices_eq (place p name j) m ≡ some id)
  pub left :
      (q : ℕ) (k : String) (j : ℕ)
      → lookup indices_eq (place q k j) rest ≡ (
          if same_fight p name (q, k) && (leb i j && ltb j (i + n))
          then none
          else lookup indices_eq (place q k j) m)

lookup-erase-place :
    (m : List (BufferIndices × ℕ)) (p : ℕ) (name : String) (i q : ℕ) (k : String) (j : ℕ)
    → lookup indices_eq (place q k j) (erase indices_eq (place p name i) m)
      ≡ (if same_fight p name (q, k) && i == j then none else lookup indices_eq (place q k j) m)
unfolding same_indices
lookup-erase-place m p name i q k j =
    ground (arith, lookup-erase indices_eq m (place p name i) (place q k j), eq_iff name k)

Collects-none :
    (p : ℕ) (name : String) (i : ℕ) (m : List (BufferIndices × ℕ)) → Collects p name i 0 m [] m
Collects-none p name i m = record {
  held = λ j id le lt found. absurd (omega arith);
  only = λ id no. absurd (cc);
  left = λ q k j. ground arith;
}

Collects-more :
    (p : ℕ) (name : String) (i n id : ℕ) (m : List (BufferIndices × ℕ)) (ids : List ℕ)
    (rest : List (BufferIndices × ℕ))
    → lookup indices_eq (place p name i) m ≡ some id
    → Collects p name (i + 1) n (erase indices_eq (place p name i) m) ids rest
    → Collects p name i (suc n) m (id ∷ ids) rest
Collects-more p name i n id m ids rest here c = record {
  held = λ j id' le lt found. elim (Bool-cases (i == j)) [
    | inl now ↦
        ground (arith, ap (λ (x : ℕ). lookup indices_eq (place p name x) m) ((==_iff i j).0 now))
    | inr later ↦ ground (
      arith,
      c.held j id' (ground arith) (omega arith)
          (lookup-erase-place m p name i p name j ∙ rw (later) (ground (arith, found))),
    )
  ];
  only = λ id' has. elim (Bool-cases (id == id')) [
    | inl now ↦ (i, omega arith, omega arith, ground arith)
    | inr later ↦
        let (j, le, lt, found) = c.only id' (ground arith) in
        (
          j,
          omega arith,
          omega arith,
          ground (arith, lookup-erase-place m p name i p name j, eq_iff name name),
        )
  ];
  left = λ q k j. ground (arith, c.left q k j, lookup-erase-place m p name i q k j);
}

-- The ids of the places of a fight are all found.
pub collect_ids-Collects :
    (p : ℕ) (name : String) (i n : ℕ) (m : List (BufferIndices × ℕ))
    → ((j : ℕ) → i ≤ j → j < i + n → (id : ℕ) × (lookup indices_eq (place p name j) m ≡ some id))
    → (ids : List ℕ) × (rest : List (BufferIndices × ℕ)) × (collect_ids p name i n m
        ≡ ok (ids, rest))
      × Collects p name i n m ids rest
unfolding collect_ids
collect_ids-Collects p name i zero m there = ([], m, refl, Collects-none p name i m)
collect_ids-Collects p name i (suc n) m there =
    let (id, here) = there i (omega arith) (omega arith) in
    let (ids, rest, runs, c) =
      collect_ids-Collects p name (i + 1) n (erase indices_eq (place p name i) m) (λ j le lt.
        let (x, found) = there j (omega arith) (omega arith) in
        (x, ground (arith, found, lookup-erase-place m p name i p name j))) in
    (
      id ∷ ids,
      rest,
      rw (here, collect_ids, runs) refl,
      Collects-more p name i n id m ids rest here c,
    )
