-- ===== src/ObservationStorage/Valid.antt =====
-- What holds of the storage between two calls, and how its maps change.
use Prim.Native.String.{String}
use text.Mathlib.TextEquality.{eq_iff}
use text.Mathlib.Text.{◌==◌ as str_eq}
use hyperbot.Prelude.{
  ℕ, ◌+◌, ◌<◌, ◌≤◌, ◌≡◌, refl, Bool, ◌&&◌, some, List, [], ◌∷◌, ◌++◌, ◌==◌, ltb, if◌then◌else◌,
  length, arith,
}
use hyperbot.Prelude.Counts.{count}
use hyperbot.Prelude.KeyMap.{nat_eq, lookup, insert, erase, lookup-insert, lookup-erase}
use hyperbot.ObservationStorage.{
  ObservationAndActionStorage, ObservationAndAction, BufferIndices, name_eq, indices_eq, or_empty,
  observations_of, with_observations, size,
}

abbrev pub place : ℕ → String → ℕ → BufferIndices
place p name i = record { pvp_id = p; intelligence_name = name; action_index = i }

abbrev pub same_fight : ℕ → String → ℕ × String → Bool
same_fight p name key = p == key.0 && str_eq name key.1

module _ {O : Type 0} where
  -- The observations of the fights of a deque.
  abbrev pub total :
      List (ℕ × List (String × List (ObservationAndAction O))) → List (ℕ × String) → ℕ
  total buffer [] = 0
  total buffer ((p, name) ∷ rest) = length (observations_of buffer p name) + total buffer rest

  -- The maps from ids to places and from places to ids are inverse to each other; an id is given out
  -- once; the places of a fight that have an id are those of its observations; and the deque holds
  -- each fight that has an observation once, and no other, so that no other is counted.
  pub record IsConsistent (s : ObservationAndActionStorage O) : Type 0 where
    pub forward :
        (id : ℕ) (at : BufferIndices)
        → lookup nat_eq id s.id_to_index_map ≡ some at
        → lookup indices_eq at s.index_to_id_map ≡ some id
    pub backward :
        (id : ℕ) (at : BufferIndices)
        → lookup indices_eq at s.index_to_id_map ≡ some id
        → lookup nat_eq id s.id_to_index_map ≡ some at
    pub given :
        (id : ℕ) (at : BufferIndices)
        → lookup nat_eq id s.id_to_index_map ≡ some at
        → id < s.next_id
    pub filled :
        (p : ℕ) (name : String) (i : ℕ)
        → i < length (observations_of s.buffer p name)
        → (id : ℕ) × (lookup indices_eq (place p name i) s.index_to_id_map ≡ some id)
    pub bounded :
        (p : ℕ) (name : String) (i id : ℕ)
        → lookup indices_eq (place p name i) s.index_to_id_map ≡ some id
        → i < length (observations_of s.buffer p name)
    pub queued :
        (p : ℕ) (name : String)
        → count (same_fight p name) s.pvp_id_and_intelligence_name_deque
          ≡ (if ltb 0 (length (observations_of s.buffer p name)) then 1 else 0)
    pub sized : size s ≤ total s.buffer s.pvp_id_and_intelligence_name_deque

  pub total-append :
      (buffer : List (ℕ × List (String × List (ObservationAndAction O)))) (p : ℕ) (name : String)
      (deque : List (ℕ × String))
      → total buffer (deque ++ (p, name) ∷ [])
        ≡ total buffer deque + length (observations_of buffer p name)
  total-append buffer p name [] = omega arith
  total-append buffer p name ((q, k) ∷ rest) = omega (arith, total-append buffer p name rest)

  -- One observation more of a fight is one more of each time that the deque holds it.
  pub total_grown :
      (old new : List (ℕ × List (String × List (ObservationAndAction O)))) (p : ℕ) (name : String)
      → ((q : ℕ) (k : String)
          → length (observations_of new q k)
            ≡ length (observations_of old q k) + (if same_fight p name (q, k) then 1 else 0))
      → (deque : List (ℕ × String))
      → total new deque ≡ total old deque + count (same_fight p name) deque
  total_grown old new p name grown [] = omega arith
  total_grown old new p name grown ((q, k) ∷ rest) =
      ground (arith, grown q k, total_grown old new p name grown rest)

  -- A fight that the deque does not hold does not count.
  pub total_gone :
      (old new : List (ℕ × List (String × List (ObservationAndAction O)))) (p : ℕ) (name : String)
      → ((q : ℕ) (k : String)
          → observations_of new q k
            ≡ (if same_fight p name (q, k) then [] else observations_of old q k))
      → (deque : List (ℕ × String)) → count (same_fight p name) deque ≡ 0
      → total new deque ≡ total old deque
  total_gone old new p name gone [] e = refl
  total_gone old new p name gone ((q, k) ∷ rest) e =
      ground (arith, gone q k, total_gone old new p name gone rest)

  pub observations_of-with_observations :
      (buffer : List (ℕ × List (String × List (ObservationAndAction O)))) (p : ℕ) (name : String)
      (observations : List (ObservationAndAction O)) (other : ℕ) (other_name : String)
      → observations_of (with_observations buffer p name observations) other other_name ≡ (
          if same_fight p name (other, other_name)
          then observations
          else observations_of buffer other other_name)
  unfolding observations_of with_observations
  observations_of-with_observations buffer p name observations other other_name = ground (
    arith,
    lookup-insert nat_eq buffer p
        (insert name_eq (or_empty (lookup nat_eq p buffer)) name observations) other,
    lookup-insert name_eq (or_empty (lookup nat_eq p buffer)) name observations other_name,
    eq_iff name other_name,
  )

  pub observations_of-erase :
      (buffer : List (ℕ × List (String × List (ObservationAndAction O)))) (p : ℕ) (name : String)
      (fights : List (String × List (ObservationAndAction O))) (other : ℕ) (other_name : String)
      → lookup nat_eq p buffer ≡ some fights
      → observations_of (insert nat_eq buffer p (erase name_eq name fights)) other other_name ≡ (
          if same_fight p name (other, other_name)
          then []
          else observations_of buffer other other_name)
  unfolding observations_of
  observations_of-erase buffer p name fights other other_name found = ground (
    arith,
    lookup-insert nat_eq buffer p (erase name_eq name fights) other,
    lookup-erase name_eq fights name other_name,
    eq_iff name other_name,
  )
