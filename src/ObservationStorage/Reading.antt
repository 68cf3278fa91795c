-- ===== src/ObservationStorage/Reading.antt =====
-- What the storage answers for an id after an addition.
use Prim.Native.String.{String}
use text.Mathlib.TextEquality.{eq_iff}
use hyperbot.Prelude.{
  ℕ, zero, suc, ◌<◌, ◌≡◌, ◌↔◌, refl, sym, ap, ◌∙◌, inl, inr, true, false, Option, none, some, List,
  [], ◌∷◌, ◌++◌, ◌==◌, if◌then◌else◌, length, get_elem?, Bool-cases, Option-cases, ok, err,
  or_throw, arith,
}
use hyperbot.Prelude.KeyMap.{nat_eq, lookup}
use hyperbot.World.{ℤ}
use hyperbot.ObservationStorage.{
  ObservationAndActionStorage, ObservationAndAction, BufferIndices, observations_of, size,
  add_observation_and_action, get_observation_and_action, id_not_found, index_out_of_range,
}
use hyperbot.ObservationStorage.Valid.{place, same_fight, IsConsistent}
use hyperbot.ObservationStorage.Collected.{contains}
use hyperbot.ObservationStorage.Sizes.{lookup_of_nonempty}
use hyperbot.ObservationStorage.Evicting.{
  Evicts, Makes, Makes-IsConsistent, Makes-size, Evicts-IsConsistent,
}
use hyperbot.ObservationStorage.Storing.{IsValid, succeeds-Adds}
use hyperbot.ObservationStorage.Appending.{Appends, Appends-IsConsistent}

get_elem?-append_left {ℓ} :
    {A : Type ℓ} (xs : List A) (y : A) (i : ℕ)
    → i < length xs
    → get_elem? (xs ++ y ∷ []) i ≡ get_elem? xs i
get_elem?-append_left [] y i lt = absurd (omega arith)
get_elem?-append_left (x ∷ xs) y zero lt = refl
get_elem?-append_left (x ∷ xs) y (suc i) lt = get_elem?-append_left xs y i (omega arith)

get_elem?-append_last {ℓ} :
    {A : Type ℓ} (xs : List A) (y : A) → get_elem? (xs ++ y ∷ []) (length xs) ≡ some y
get_elem?-append_last [] y = refl
get_elem?-append_last (x ∷ xs) y = get_elem?-append_last xs y

same_fight_self : (p : ℕ) (name : String) → same_fight p name (p, name) ≡ true
same_fight_self p name = ground (arith, eq_iff name name)

module _ {O : Type 0} where
  get_lem :
      (s : ObservationAndActionStorage O) (id : ℕ) (at : BufferIndices)
      → IsConsistent s
      → lookup nat_eq id s.id_to_index_map ≡ some at
      → get_observation_and_action s id
        ≡ or_throw
            (get_elem? (observations_of s.buffer at.pvp_id at.intelligence_name) at.action_index)
            index_out_of_range
  unfolding get_observation_and_action
  get_lem s id at v found =
      let lt =
        v.bounded at.pvp_id at.intelligence_name at.action_index id (v.forward id at found) in
      let (fights, there, named) =
        lookup_of_nonempty s.buffer at.pvp_id at.intelligence_name (omega arith) in
      rw (found) (rw (there) (rw (named) refl))

  get_missing :
      (s : ObservationAndActionStorage O) (id : ℕ)
      → lookup nat_eq id s.id_to_index_map ≡ none
      → get_observation_and_action s id ≡ err id_not_found
  unfolding get_observation_and_action
  get_missing s id missing = rw (missing) refl

  -- The fight of an id that stays is not the one that goes.
  kept_fight :
      (p : ℕ) (name : String) (s s' : ObservationAndActionStorage O) (deleted : List ℕ) (id : ℕ)
      (at : BufferIndices)
      → IsConsistent s
      → Evicts p name s s' deleted
      → lookup nat_eq id s.id_to_index_map ≡ some at
      → contains deleted id ≡ false
      → observations_of s'.buffer at.pvp_id at.intelligence_name
        ≡ observations_of s.buffer at.pvp_id at.intelligence_name
  kept_fight p name s s' deleted id at v e found here = ground (
    arith,
    e.observations at.pvp_id at.intelligence_name,
    e.held at.action_index id,
    v.forward id at found,
    eq_iff name at.intelligence_name,
  )

  Makes-get :
      (s s' : ObservationAndActionStorage O) (deleted : List ℕ) (id : ℕ)
      → IsConsistent s
      → Makes s s' deleted
      → get_observation_and_action s' id
        ≡ (if contains deleted id then err id_not_found else get_observation_and_action s id)
  Makes-get s s' deleted id v (inl (same, none_deleted, free)) =
      ground (arith, ap (λ x. get_observation_and_action x id) same)
  Makes-get s s' deleted id v (inr (p, name, full, nonempty, e)) =
      elim (Bool-cases (contains deleted id)) [
        | inl gone ↦ rw (gone) (get_missing s' id (ground (arith, e.ids id)))
        | inr here ↦ elim (Option-cases (lookup nat_eq id s.id_to_index_map)) [
          | inl missing ↦
              rw (here)
                (get_missing s' id (ground (arith, e.ids id)) ∙ sym (get_missing s id missing))
          | inr (at, found) ↦ rw (here) (
              get_lem s' id at (Evicts-IsConsistent p name s s' deleted v e)
                (ground (arith, e.ids id))
              ∙ ap (λ o. or_throw (get_elem? o at.action_index) index_out_of_range)
                  (kept_fight p name s s' deleted id at v e found here)
              ∙ sym (get_lem s id at v found))
        ]
      ]

  same_entry :
      (p : ℕ) (name : String) (entry : ObservationAndAction O)
      (s s' : ObservationAndActionStorage O) (id : ℕ) (at : BufferIndices)
      → IsConsistent s
      → Appends p name entry s s'
      → lookup nat_eq id s.id_to_index_map ≡ some at
      → get_elem? (observations_of s'.buffer at.pvp_id at.intelligence_name) at.action_index
        ≡ get_elem? (observations_of s.buffer at.pvp_id at.intelligence_name) at.action_index
  same_entry p name entry s s' id at v a found = ground (
    arith,
    a.observations at.pvp_id at.intelligence_name,
    eq_iff name at.intelligence_name,
    v.bounded at.pvp_id at.intelligence_name at.action_index id (v.forward id at found),
    get_elem?-append_left (observations_of s.buffer p name) entry at.action_index,
  )

  Appends-get :
      (p : ℕ) (name : String) (entry : ObservationAndAction O)
      (s s' : ObservationAndActionStorage O) (id : ℕ)
      → IsConsistent s
      → Appends p name entry s s'
      → get_observation_and_action s' id
        ≡ (if id == s.next_id then ok entry else get_observation_and_action s id)
  Appends-get p name entry s s' id v a =
      let v' = Appends-IsConsistent p name entry s s' v a in
      let old = observations_of s.buffer p name in
      elim (Bool-cases (id == s.next_id)) [
        | inl new ↦ rw (new) (
            get_lem s' id (place p name (length old)) v' (ground (arith, a.ids id))
            ∙ rw (a.observations p name)
                (rw (same_fight_self p name) (rw (get_elem?-append_last old entry) refl)))
        | inr before ↦ elim (Option-cases (lookup nat_eq id s.id_to_index_map)) [
          | inl missing ↦
              rw (before)
                (get_missing s' id (ground (arith, a.ids id)) ∙ sym (get_missing s id missing))
          | inr (at, found) ↦ rw (before) (
              get_lem s' id at v' (ground (arith, a.ids id))
              ∙ ap (λ o. or_throw o index_out_of_range)
                  (same_entry p name entry s s' id at v a found)
              ∙ sym (get_lem s id at v found))
        ]
      ]

  Makes-deleted :
      (s s' : ObservationAndActionStorage O) (deleted : List ℕ) (oldest : ℕ) (oldest_name : String)
      (others : List (ℕ × String)) (id : ℕ)
      → IsConsistent s
      → s.pvp_id_and_intelligence_name_deque ≡ (oldest, oldest_name) ∷ others
      → Makes s s' deleted
      → (contains deleted id ≡ true) ↔ (
          (size s ≡ s.capacity)
          × (i : ℕ) × (lookup nat_eq id s.id_to_index_map ≡ some (place oldest oldest_name i)))
  Makes-deleted s s' deleted oldest oldest_name others id v front (inl (same, none_deleted, free)) =
      (λ gone. absurd (ground (arith, none_deleted)), λ (full, i, there). absurd (free full))
  Makes-deleted s s' deleted oldest oldest_name others id v front
        (inr (p, name, full, nonempty, e)) =
      let first : ◌≡◌ {A = ℕ × String} (p, name) (oldest, oldest_name) =
        ground (arith, e.deque, front) in
      (
        λ gone.
            let (j, there) = e.only id gone in
            (
              full,
              j,
              v.backward id (place p name j) there
                  ∙ ap (λ (k : ℕ × String). some (place k.0 k.1 j)) first,
            ),
        λ (is_full, i, there). e.held i id (
            v.forward id (place p name i)
              (there ∙ ap (λ (k : ℕ × String). some (place k.0 k.1 i)) (sym first))),
      )

  -- After an addition that succeeds, a valid storage of a positive capacity answers the entry for the
  -- new id, nothing for the ids that were deleted, and for every other id what it answered before.
  pub add_observation_and_action-get :
      (s s' : ObservationAndActionStorage O) (p : ℕ) (name : String) (o : O) (action : Option ℤ)
      (new : ℕ) (deleted : List ℕ) (id : ℕ)
      → IsValid s
      → 0 < s.capacity
      → add_observation_and_action s p name o action ≡ ok (s', new, deleted)
      → get_observation_and_action s' id ≡ (
          if id == new
          then ok (record { observation = o; action_index = action })
          else if contains deleted id
          then err id_not_found
          else get_observation_and_action s id)
  add_observation_and_action-get s s' p name o action new deleted id v room runs =
      let (adds, next) = succeeds-Adds s s' p name o action new deleted v room runs in
      let (less, capacity_kept, next_kept) = Makes-size s adds.roomy deleted v.within adds.makes in
      let consistent = Makes-IsConsistent s adds.roomy deleted v.consistent adds.makes in
      Appends-get p name (record { observation = o; action_index = action }) adds.roomy s' id
        consistent adds.appends
      ∙ rw (next_kept, next, Makes-get s adds.roomy deleted id v.consistent adds.makes) refl

  -- The ids that an addition to a valid storage of a positive capacity deletes are none when the
  -- storage is not full, and otherwise the ids of the observations of the fight at the front of the
  -- deque, a fight being a pair of a PVP id and an intelligence's name.
  pub add_observation_and_action-deleted :
      (s s' : ObservationAndActionStorage O) (p : ℕ) (name : String) (o : O) (action : Option ℤ)
      (new : ℕ) (deleted : List ℕ) (oldest : ℕ) (oldest_name : String) (others : List (ℕ × String))
      (id : ℕ)
      → IsValid s
      → 0 < s.capacity
      → add_observation_and_action s p name o action ≡ ok (s', new, deleted)
      → s.pvp_id_and_intelligence_name_deque ≡ (oldest, oldest_name) ∷ others
      → (contains deleted id ≡ true) ↔ (
          (size s ≡ s.capacity)
          × (i : ℕ) × (lookup nat_eq id s.id_to_index_map ≡ some (place oldest oldest_name i)))
  add_observation_and_action-deleted s s' p name o action new deleted oldest oldest_name others id v
        room runs front =
      let (adds, next) = succeeds-Adds s s' p name o action new deleted v room runs in
      Makes-deleted s adds.roomy deleted oldest oldest_name others id v.consistent front adds.makes
