-- ===== src/ObservationStorage/Evicting.antt =====
-- Making room: the oldest fight goes, with all its ids, and nothing else does.
use Prim.Native.String.{String}
use text.Mathlib.TextEquality.{eq_iff}
use hyperbot.Prelude.{
  ℕ, ◌+◌, ◌<◌, ◌≤◌, ◌≡◌, refl, sym, subst, ap, ◌∙◌, ◌≢◌, ◌⊎◌, inl, inr, ==_iff, true, ◌&&◌, none,
  some, List, [], ◌∷◌, ◌==◌, ltb, if◌then◌else◌, length, Bool-cases, ok, arith,
}
use hyperbot.Prelude.Counts.{count}
use hyperbot.Prelude.KeyMap.{nat_eq, lookup, insert, erase}
use hyperbot.ObservationStorage.{
  ObservationAndActionStorage, name_eq, indices_eq, observations_of, erase_ids, evict, size,
  make_room,
}
use hyperbot.ObservationStorage.Valid.{
  place, same_fight, IsConsistent, total, total_gone, observations_of-erase,
}
use hyperbot.ObservationStorage.Collected.{contains, lookup-erase_ids, collect_ids-Collects}
use hyperbot.ObservationStorage.Sizes.{size-erase, lookup_of_nonempty}

module _ {O : Type 0} where
  -- What an eviction of a fight does to the storage.
  pub record Evicts (p : ℕ) (name : String) (s s' : ObservationAndActionStorage O)
      (deleted : List ℕ) : Type 0 where
    pub next_kept : s'.next_id ≡ s.next_id
    pub capacity_kept : s'.capacity ≡ s.capacity
    pub observations :
        (q : ℕ) (k : String)
        → observations_of s'.buffer q k
          ≡ (if same_fight p name (q, k) then [] else observations_of s.buffer q k)
    pub ids :
        (id : ℕ)
        → lookup nat_eq id s'.id_to_index_map
          ≡ (if contains deleted id then none else lookup nat_eq id s.id_to_index_map)
    pub places :
        (q : ℕ) (k : String) (j : ℕ)
        → lookup indices_eq (place q k j) s'.index_to_id_map ≡ (
            if same_fight p name (q, k) && ltb j (length (observations_of s.buffer p name))
            then none
            else lookup indices_eq (place q k j) s.index_to_id_map)
    pub held :
        (j id : ℕ)
        → lookup indices_eq (place p name j) s.index_to_id_map ≡ some id
        → contains deleted id ≡ true
    pub only :
        (id : ℕ)
        → contains deleted id ≡ true
        → (j : ℕ) × (lookup indices_eq (place p name j) s.index_to_id_map ≡ some id)
    pub smaller : size s' + length (observations_of s.buffer p name) ≤ size s
    pub deque :
        s.pvp_id_and_intelligence_name_deque ≡ (p, name) ∷ s'.pvp_id_and_intelligence_name_deque

  evict-Evicts :
      (s : ObservationAndActionStorage O) (p : ℕ) (name : String) (others : List (ℕ × String))
      → IsConsistent s
      → s.pvp_id_and_intelligence_name_deque ≡ (p, name) ∷ others
      → 0 < length (observations_of s.buffer p name)
      → (s' : ObservationAndActionStorage O) × (deleted : List ℕ) × (evict s ((p, name) ∷ others)
          ≡ ok (s', deleted))
        × Evicts p name s s' deleted
  unfolding evict size
  evict-Evicts s p name others v front nonempty =
      let (fights, found, named) = lookup_of_nonempty s.buffer p name nonempty in
      let (deleted, places, collected, c) =
        collect_ids-Collects p name 0 (length (observations_of s.buffer p name)) s.index_to_id_map
          (λ j _ lt. v.filled p name j (omega arith)) in
      (
        record s {
          buffer = insert nat_eq s.buffer p (erase name_eq name fights);
          id_to_index_map = erase_ids deleted s.id_to_index_map;
          index_to_id_map = places;
          pvp_id_and_intelligence_name_deque = others;
        },
        deleted,
        rw (found, named, evict, collected) refl,
        record {
          next_kept = refl;
          capacity_kept = refl;
          observations = λ q k. observations_of-erase s.buffer p name fights q k found;
          ids = λ id. lookup-erase_ids deleted s.id_to_index_map id;
          places = λ q k j. ground (arith, c.left q k j);
          held = λ j id there.
              c.held j id (omega arith) (omega (arith, v.bounded p name j id there)) there;
          only = λ id has. let (j, le, lt, there) = c.only id has in (j, there);
          smaller = size-erase s.buffer p name fights found;
          deque = front;
        },
      )

  -- A storage stays consistent when its oldest fight goes.
  pub Evicts-IsConsistent :
      (p : ℕ) (name : String) (s s' : ObservationAndActionStorage O) (deleted : List ℕ)
      → IsConsistent s
      → Evicts p name s s' deleted
      → IsConsistent s'
  Evicts-IsConsistent p name s s' deleted v e = record {
    forward = λ id at found.
        let old : lookup nat_eq id s.id_to_index_map ≡ some at = ground (arith, e.ids id, found) in
        let back = v.forward id at old in
        ground (
          arith,
          e.places at.pvp_id at.intelligence_name at.action_index,
          e.ids id,
          eq_iff name at.intelligence_name,
          e.held at.action_index id,
          back,
        );
    backward = λ id at found.
        let old : lookup indices_eq at s.index_to_id_map ≡ some id =
          ground (arith, e.places at.pvp_id at.intelligence_name at.action_index, found) in
        elim (Bool-cases (contains deleted id)) [
          | inl gone ↦
              let (j, there) = e.only id gone in
              let lt = v.bounded p name j id there in
              let same : place p name j ≡ at =
                ground (arith, v.backward id (place p name j) there, v.backward id at old) in
              absurd (
                ground (
                  arith,
                  e.places p name j,
                  eq_iff name name,
                  subst (λ a. lookup indices_eq a s'.index_to_id_map ≡ some id) (sym same) found,
                ))
          | inr here ↦ ground (arith, e.ids id, v.backward id at old)
        ];
    given = λ id at found. ground (arith, e.ids id, e.next_kept, v.given id at);
    filled = λ q k i lt.
        let (id, found) = v.filled q k i (ground (arith, e.observations q k)) in
        (id, ground (arith, found, e.observations q k, e.places q k i));
    bounded = λ q k i id found.
        ground (arith, e.observations q k, e.places q k i, v.bounded q k i id, eq_iff name k);
    sized = omega (
      arith,
      v.sized,
      e.smaller,
      ap (total s.buffer) e.deque,
      total_gone s.buffer s'.buffer p name e.observations s'.pvp_id_and_intelligence_name_deque (
          ground
            (arith, v.queued p name, ap (count (same_fight p name)) e.deque, eq_iff name name)),
    );
    queued = λ q k. ground (
      arith,
      v.queued q k,
      e.observations q k,
      e.deque,
      ap (count (same_fight q k)) e.deque,
      eq_iff k name,
      eq_iff name k,
    );
  }

  -- Room is made when it is needed: there is then a fight to delete.
  abbrev pub Makes : ObservationAndActionStorage O → ObservationAndActionStorage O → List ℕ → Type 0
  Makes s s' deleted =
      ((s' ≡ s) × (deleted ≡ []) × (size s ≢ s.capacity))
      ⊎ ((p : ℕ) × (name : String) × (size s ≡ s.capacity)
          × (0 < length (observations_of s.buffer p name))
          × Evicts p name s s' deleted)

  oldest_fight :
      (s : ObservationAndActionStorage O) (deque : List (ℕ × String))
      → IsConsistent s
      → s.pvp_id_and_intelligence_name_deque ≡ deque
      → 0 < size s
      → (p : ℕ) × (name : String) × (others : List (ℕ × String)) × (deque ≡ (p, name) ∷ others)
        × (0 < length (observations_of s.buffer p name))
  oldest_fight s [] v e more = absurd (omega (arith, v.sized, ap (total s.buffer) e))
  oldest_fight s ((p, name) ∷ others) v e more = (
    p,
    name,
    others,
    refl,
    ground (arith, v.queued p name, ap (count (same_fight p name)) e, eq_iff name name),
  )

  make_room_full :
      (s : ObservationAndActionStorage O) (deque : List (ℕ × String))
      → (size s == s.capacity) ≡ true
      → s.pvp_id_and_intelligence_name_deque ≡ deque
      → make_room s ≡ evict s deque
  unfolding make_room
  make_room_full s deque full front = rw (full) (ap (evict s) front)

  pub make_room-Makes :
      (s : ObservationAndActionStorage O)
      → IsConsistent s
      → 0 < s.capacity
      → (s' : ObservationAndActionStorage O) × (deleted : List ℕ) × (make_room s ≡ ok (s', deleted))
        × Makes s s' deleted
  unfolding make_room
  make_room-Makes s v room = elim (Bool-cases (size s == s.capacity)) [
    | inl full ↦
        let e = (==_iff (size s) s.capacity).0 full in
        let (p, name, others, front, nonempty) =
          oldest_fight s s.pvp_id_and_intelligence_name_deque v refl (omega arith) in
        let (s', deleted, runs, evicts) = evict-Evicts s p name others v front nonempty in
        (
          s',
          deleted,
          make_room_full s ((p, name) ∷ others) full front ∙ runs,
          inr (p, name, e, nonempty, evicts),
        )
    | inr free ↦ (s, [], rw (free) refl, inl (refl, refl, ground arith))
  ]

  pub Makes-IsConsistent :
      (s s' : ObservationAndActionStorage O) (deleted : List ℕ)
      → IsConsistent s
      → Makes s s' deleted
      → IsConsistent s'
  Makes-IsConsistent s s' deleted v (inl (same, none_deleted, free)) =
      subst IsConsistent (sym same) v
  Makes-IsConsistent s s' deleted v (inr (p, name, full, nonempty, evicts)) =
      Evicts-IsConsistent p name s s' deleted v evicts

  pub Makes-size :
      (s s' : ObservationAndActionStorage O) (deleted : List ℕ)
      → size s ≤ s.capacity
      → Makes s s' deleted
      → (size s' < s.capacity) × (s'.capacity ≡ s.capacity) × (s'.next_id ≡ s.next_id)
  Makes-size s s' deleted le (inl (same, none_deleted, free)) =
      (ground (arith, ap size same), ground arith, ground arith)
  Makes-size s s' deleted le (inr (p, name, full, nonempty, evicts)) =
      (omega (arith, evicts.smaller), evicts.capacity_kept, evicts.next_kept)
