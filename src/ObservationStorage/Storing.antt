-- ===== src/ObservationStorage/Storing.antt =====
-- A whole addition: when it succeeds, and what the storage then answers.
use Prim.Native.String.{String}
use hyperbot.Prelude.{
  ℕ, ◌<◌, ◌≤◌, ◌≡◌, ◌≢◌, ◌↔◌, refl, sym, ap, ◌∙◌, Option, List, ==_iff, ok, err, ok-injective,
  ok-ne-err, subst, arith,
}
use hyperbot.Prelude.KeyMap.{lookup}
use hyperbot.World.{ℤ}
use hyperbot.ObservationStorage.{
  ObservationAndActionStorage, ObservationAndAction, observations_of, empty_storage, append, size,
  size_of_buffer, max_id, add_observation_and_action, id_overflow,
}
use hyperbot.ObservationStorage.Valid.{IsConsistent}
use hyperbot.ObservationStorage.Evicting.{Makes, make_room-Makes, Makes-IsConsistent, Makes-size}
use hyperbot.ObservationStorage.Appending.{Appends, append-Appends, Appends-IsConsistent}

module _ {O : Type 0} where
  pub record IsValid (s : ObservationAndActionStorage O) : Type 0 where
    pub consistent : IsConsistent s
    pub within : size s ≤ s.capacity

  -- A new storage is valid.
  pub empty_storage-IsValid : (capacity : ℕ) → IsValid (empty_storage capacity)
  unfolding empty_storage size size_of_buffer observations_of lookup
  empty_storage-IsValid capacity = record {
    consistent = record {
      forward = λ id at found. cc;
      backward = λ id at found. cc;
      given = λ id at found. absurd (cc);
      filled = λ p name i lt. absurd (omega arith);
      bounded = λ p name i id found. absurd (cc);
      queued = λ p name. refl;
      sized = omega arith;
    };
    within = omega arith;
  }

  -- What an addition does: it makes room and appends.
  pub record Adds (p : ℕ) (name : String) (entry : ObservationAndAction O)
      (s s' : ObservationAndActionStorage O) (deleted : List ℕ) : Type 0 where
    pub roomy : ObservationAndActionStorage O
    pub makes : Makes s roomy deleted
    pub appends : Appends p name entry roomy s'

  pub add-Adds :
      (s : ObservationAndActionStorage O) (p : ℕ) (name : String) (o : O) (action : Option ℤ)
      → IsValid s
      → 0 < s.capacity
      → s.next_id ≢ max_id
      → (s' : ObservationAndActionStorage O) × (deleted : List ℕ) × (add_observation_and_action s p
            name o action
          ≡ ok (s', s.next_id, deleted))
        × Adds p name (record { observation = o; action_index = action }) s s' deleted
        × IsValid s'
  unfolding add_observation_and_action
  add-Adds s p name o action v room lt =
      let entry : ObservationAndAction O = record { observation = o; action_index = action } in
      let (roomy, deleted, made, makes) = make_room-Makes s v.consistent room in
      let (less, capacity_kept, next_kept) = Makes-size s roomy deleted v.within makes in
      let (s', appended, appends) =
        append-Appends roomy p name entry (λ e. lt (sym next_kept ∙ e)) in
      (
        s',
        deleted,
        rw (made, appended) (ap (λ n. ok (s', n, deleted)) next_kept),
        record { roomy = roomy; makes = makes; appends = appends },
        record {
          consistent =
              Appends-IsConsistent p name entry roomy s'
                (Makes-IsConsistent s roomy deleted v.consistent makes) appends;
          within = omega (arith, appends.larger, appends.capacity_kept);
        },
      )

  append_full :
      (s : ObservationAndActionStorage O) (p : ℕ) (name : String) (entry : ObservationAndAction O)
      → s.next_id ≡ max_id
      → append s p name entry ≡ err id_overflow
  unfolding append
  append_full s p name entry last = rw ((==_iff s.next_id max_id).1 last) refl

  succeeds-next :
      (s s' : ObservationAndActionStorage O) (p : ℕ) (name : String) (o : O) (action : Option ℤ)
      (id : ℕ) (deleted : List ℕ)
      → IsValid s
      → 0 < s.capacity
      → add_observation_and_action s p name o action ≡ ok (s', id, deleted)
      → s.next_id ≢ max_id
  unfolding add_observation_and_action
  succeeds-next s s' p name o action id deleted v room runs last =
      let (roomy, gone, made, makes) = make_room-Makes s v.consistent room in
      let (less, capacity_kept, next_kept) = Makes-size s roomy gone v.within makes in
      let entry : ObservationAndAction O = record { observation = o; action_index = action } in
      let full = append_full roomy p name entry (next_kept ∙ last) in
      ok-ne-err (s', id, deleted) id_overflow (sym runs ∙ rw (made, full) refl)

  pub succeeds-Adds :
      (s s' : ObservationAndActionStorage O) (p : ℕ) (name : String) (o : O) (action : Option ℤ)
      (id : ℕ) (deleted : List ℕ)
      → IsValid s
      → 0 < s.capacity
      → add_observation_and_action s p name o action ≡ ok (s', id, deleted)
      → Adds p name (record { observation = o; action_index = action }) s s' deleted
        × (id ≡ s.next_id)
  succeeds-Adds s s' p name o action id deleted v room runs =
      let (t, gone, answers, adds, valid) =
        add-Adds s p name o action v room
          (succeeds-next s s' p name o action id deleted v room runs) in
      let same = ok-injective (t, s.next_id, gone) (s', id, deleted) (sym answers ∙ runs) in
      (
        subst (λ r. Adds p name (record { observation = o; action_index = action }) s (r.0) (r.2))
            same adds,
        ap (λ r. r.1) (sym same),
      )

  -- In a storage that is valid and has a positive capacity, an addition that succeeds answers the next
  -- id and leaves a valid storage: its maps are inverse to each other, its deque holds the fights
  -- that have observations once each, and it holds no more observations than its capacity.
  pub add_observation_and_action-IsValid :
      (s s' : ObservationAndActionStorage O) (p : ℕ) (name : String) (o : O) (action : Option ℤ)
      (id : ℕ) (deleted : List ℕ)
      → IsValid s
      → 0 < s.capacity
      → add_observation_and_action s p name o action ≡ ok (s', id, deleted)
      → IsValid s' × (id ≡ s.next_id)
  add_observation_and_action-IsValid s s' p name o action id deleted v room runs =
      let (t, gone, answers, adds, valid) =
        add-Adds s p name o action v room
          (succeeds-next s s' p name o action id deleted v room runs) in
      let same = ok-injective (t, s.next_id, gone) (s', id, deleted) (sym answers ∙ runs) in
      (subst (λ r. IsValid (r.0)) same valid, ap (λ r. r.1) (sym same))

  -- An addition to a valid storage of a positive capacity succeeds exactly when the ids have not run out.
  pub add_observation_and_action-ok :
      (s : ObservationAndActionStorage O) (p : ℕ) (name : String) (o : O) (action : Option ℤ)
      → IsValid s
      → 0 < s.capacity
      → ((r : ObservationAndActionStorage O × ℕ × List ℕ) × (add_observation_and_action s p name o
              action
            ≡ ok r))
        ↔ (s.next_id ≢ max_id)
  add_observation_and_action-ok s p name o action v room = (
    λ ((s', id, deleted), runs). succeeds-next s s' p name o action id deleted v room runs,
    λ left.
        let (t, gone, answers, adds, valid) = add-Adds s p name o action v room left in
        ((t, s.next_id, gone), answers),
  )
