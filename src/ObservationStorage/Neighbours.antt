-- ===== src/ObservationStorage/Neighbours.antt =====
-- Previous and next: the ids of a fight are a chain.
use hyperbot.Prelude.{
  ℕ, ◌+◌, ◌-◌, ◌<◌, ◌≡◌, ◌↔◌, refl, ap, inl, inr, true, false, some, ◌==◌, Option-cases, ok, arith,
}
use hyperbot.Prelude.KeyMap.{nat_eq, lookup}
use hyperbot.ObservationStorage.{
  ObservationAndActionStorage, BufferIndices, indices_eq, has_previous, get_previous_id,
  get_next_id,
}
use hyperbot.ObservationStorage.Valid.{place, IsConsistent}

module _ {O : Type 0} where
  -- The place before, and the id there.
  at_previous :
      (s : ObservationAndActionStorage O) (id j : ℕ)
      → get_previous_id s id ≡ ok j
      → (at : BufferIndices) × (lookup nat_eq id s.id_to_index_map ≡ some at)
        × (0 < at.action_index)
        × (lookup indices_eq
              (place at.pvp_id at.intelligence_name (at.action_index - 1))
              s.index_to_id_map
            ≡ some j)
  unfolding get_previous_id
  at_previous s id j runs = elim (Option-cases (lookup nat_eq id s.id_to_index_map)) [
    | inl missing ↦ absurd (ground arith)
    | inr (at, found) ↦ (at, found, ground arith, ground arith)
  ]

  at_next :
      (s : ObservationAndActionStorage O) (id j : ℕ)
      → get_next_id s id ≡ ok j
      → (at : BufferIndices) × (lookup nat_eq id s.id_to_index_map ≡ some at)
        × (lookup indices_eq
              (place at.pvp_id at.intelligence_name (at.action_index + 1))
              s.index_to_id_map
            ≡ some j)
  unfolding get_next_id
  at_next s id j runs = elim (Option-cases (lookup nat_eq id s.id_to_index_map)) [
    | inl missing ↦ absurd (ground arith)
    | inr (at, found) ↦ (at, found, ground arith)
  ]

  next_of_previous :
      (s : ObservationAndActionStorage O) (id j : ℕ)
      → IsConsistent s
      → get_previous_id s id ≡ ok j
      → get_next_id s j ≡ ok id
  unfolding get_next_id
  next_of_previous s id j v runs =
      let (at, found, later, before) = at_previous s id j runs in
      let back = v.backward j (place at.pvp_id at.intelligence_name (at.action_index - 1)) before in
      let again : place at.pvp_id at.intelligence_name (at.action_index - 1 + 1) ≡ at =
        ap (place at.pvp_id at.intelligence_name) (omega arith) in
      rw (back) (rw (again) (rw (v.forward id at found) refl))

  previous_of_next :
      (s : ObservationAndActionStorage O) (id j : ℕ)
      → IsConsistent s
      → get_next_id s id ≡ ok j
      → get_previous_id s j ≡ ok id
  unfolding get_previous_id
  previous_of_next s id j v runs =
      let (at, found, after) = at_next s id j runs in
      let back = v.backward j (place at.pvp_id at.intelligence_name (at.action_index + 1)) after in
      let again : place at.pvp_id at.intelligence_name (at.action_index + 1 - 1) ≡ at =
        ap (place at.pvp_id at.intelligence_name) (omega arith) in
      let positive : (at.action_index + 1 == 0) ≡ false = ground arith in
      rw (back, positive) (rw (again) (rw (v.forward id at found) refl))

  -- In a consistent storage, one id is the previous of another exactly when the other is its next.
  pub get_previous_id-get_next_id :
      (s : ObservationAndActionStorage O) (id j : ℕ)
      → IsConsistent s
      → (get_previous_id s id ≡ ok j) ↔ (get_next_id s j ≡ ok id)
  get_previous_id-get_next_id s id j v = (next_of_previous s id j v, previous_of_next s j id v)

  earlier_held :
      (s : ObservationAndActionStorage O) (id : ℕ) (at : BufferIndices)
      → IsConsistent s
      → lookup nat_eq id s.id_to_index_map ≡ some at
      → (j : ℕ) × (lookup indices_eq
            (place at.pvp_id at.intelligence_name (at.action_index - 1))
            s.index_to_id_map
          ≡ some j)
  earlier_held s id at v found = v.filled at.pvp_id at.intelligence_name (at.action_index - 1) (
      omega (
        arith,
        v.bounded at.pvp_id at.intelligence_name at.action_index id (v.forward id at found),
      ))

  previous_found :
      (s : ObservationAndActionStorage O) (id : ℕ)
      → IsConsistent s
      → has_previous s id ≡ ok true
      → (j : ℕ) × (get_previous_id s id ≡ ok j)
  unfolding has_previous get_previous_id
  previous_found s id v has = elim (Option-cases (lookup nat_eq id s.id_to_index_map)) [
    | inl missing ↦ absurd (ground arith)
    | inr (at, found) ↦
        let (j, there) = earlier_held s id at v found in
        let later : (at.action_index == 0) ≡ false = ground arith in
        (j, rw (found, later) (rw (there) refl))
  ]

  found_previous :
      (s : ObservationAndActionStorage O) (id j : ℕ)
      → get_previous_id s id ≡ ok j
      → has_previous s id ≡ ok true
  unfolding has_previous
  found_previous s id j runs =
      let (at, found, later, before) = at_previous s id j runs in rw (found) (ground arith)

  -- In a consistent storage, an id has a previous one exactly when one is answered for it.
  pub has_previous-get_previous_id :
      (s : ObservationAndActionStorage O) (id : ℕ)
      → IsConsistent s
      → (has_previous s id ≡ ok true) ↔ ((j : ℕ) × (get_previous_id s id ≡ ok j))
  has_previous-get_previous_id s id v =
      (previous_found s id v, λ (j, runs). found_previous s id j runs)
