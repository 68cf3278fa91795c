-- ===== src/ObservationStorage/Sizes.antt =====
-- How the number of stored observations changes with the buffer.
use Prim.Native.String.{String}
use hyperbot.Prelude.{
  ℕ, ◌+◌, ◌<◌, ◌≤◌, ◌≡◌, inl, inr, some, List, [], ◌∷◌, length, Option-cases, arith,
}
use hyperbot.Prelude.KeyMap.{nat_eq, lookup, insert, erase}
use hyperbot.ObservationStorage.{
  ObservationAndAction, name_eq, or_empty, observations_of, with_observations, size_of_fight,
  size_of_buffer,
}

module _ {O : Type 0} where
  size_of_fight-insert :
      (fights : List (String × List (ObservationAndAction O))) (name : String)
      (observations : List (ObservationAndAction O))
      → size_of_fight (insert name_eq fights name observations)
          + length (or_empty (lookup name_eq name fights))
        ≡ size_of_fight fights + length observations
  unfolding size_of_fight lookup insert
  size_of_fight-insert [] name observations = omega arith
  size_of_fight-insert (entry ∷ rest) name observations =
      ground (arith, size_of_fight-insert rest name observations)

  size_of_fight-erase :
      (fights : List (String × List (ObservationAndAction O))) (name : String)
      → size_of_fight (erase name_eq name fights) + length (or_empty (lookup name_eq name fights))
        ≤ size_of_fight fights
  unfolding size_of_fight lookup erase
  size_of_fight-erase [] name = omega arith
  size_of_fight-erase (entry ∷ rest) name = ground (arith, size_of_fight-erase rest name)

  size_of_buffer-insert :
      (buffer : List (ℕ × List (String × List (ObservationAndAction O)))) (p : ℕ)
      (fights : List (String × List (ObservationAndAction O)))
      → size_of_buffer (insert nat_eq buffer p fights)
          + size_of_fight (or_empty (lookup nat_eq p buffer))
        ≡ size_of_buffer buffer + size_of_fight fights
  unfolding size_of_buffer lookup insert
  size_of_buffer-insert [] p fights = omega arith
  size_of_buffer-insert (entry ∷ rest) p fights =
      ground (arith, size_of_buffer-insert rest p fights)

  pub size-with_observations :
      (buffer : List (ℕ × List (String × List (ObservationAndAction O)))) (p : ℕ) (name : String)
      (observations : List (ObservationAndAction O))
      → size_of_buffer (with_observations buffer p name observations)
          + length (observations_of buffer p name)
        ≡ size_of_buffer buffer + length observations
  unfolding with_observations observations_of
  size-with_observations buffer p name observations =
      let fights = or_empty (lookup nat_eq p buffer) in
      omega (
        arith,
        size_of_buffer-insert buffer p (insert name_eq fights name observations),
        size_of_fight-insert fights name observations,
      )

  pub size-erase :
      (buffer : List (ℕ × List (String × List (ObservationAndAction O)))) (p : ℕ) (name : String)
      (fights : List (String × List (ObservationAndAction O)))
      → lookup nat_eq p buffer ≡ some fights
      → size_of_buffer (insert nat_eq buffer p (erase name_eq name fights))
          + length (observations_of buffer p name)
        ≤ size_of_buffer buffer
  unfolding observations_of
  size-erase buffer p name fights found = ground (
    arith,
    size_of_buffer-insert buffer p (erase name_eq name fights),
    size_of_fight-erase fights name,
  )

  -- A fight that has an observation is found in the buffer.
  pub lookup_of_nonempty :
      (buffer : List (ℕ × List (String × List (ObservationAndAction O)))) (p : ℕ) (name : String)
      → 0 < length (observations_of buffer p name)
      → (fights : List (String × List (ObservationAndAction O))) × (lookup nat_eq p buffer
          ≡ some fights)
        × (lookup name_eq name fights ≡ some (observations_of buffer p name))
  unfolding observations_of lookup
  lookup_of_nonempty buffer p name nonempty = elim (Option-cases (lookup nat_eq p buffer)) [
    | inl no_pvp ↦ absurd (ground arith)
    | inr (fights, found) ↦ elim (Option-cases (lookup name_eq name fights)) [
      | inl no_name ↦ absurd (ground arith)
      | inr (observations, held) ↦ (fights, found, ground arith)
    ]
  ]
