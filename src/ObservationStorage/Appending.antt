-- ===== src/ObservationStorage/Appending.antt =====
-- Adding an observation at the end of its fight.
use Prim.Native.String.{String}
use text.Mathlib.TextEquality.{eq_iff}
use hyperbot.Prelude.{
  ℕ, ◌+◌, ◌≡◌, ◌≢◌, refl, ap, inl, inr, false, ◌&&◌, some, [], ◌∷◌, ◌++◌, ◌==◌, if◌then◌else◌,
  length, length-append, Bool-cases, ok, arith,
}
use hyperbot.Prelude.Counts.{count, count-append}
use hyperbot.Prelude.KeyMap.{nat_eq, lookup, insert, lookup-insert}
use hyperbot.ObservationStorage.{
  ObservationAndActionStorage, ObservationAndAction, indices_eq, same_indices, observations_of,
  with_observations, append, size, max_id,
}
use hyperbot.ObservationStorage.Valid.{
  place, same_fight, IsConsistent, total, total_grown, total-append,
  observations_of-with_observations,
}
use hyperbot.ObservationStorage.Sizes.{size-with_observations}

module _ {O : Type 0} where
  -- What the addition of an entry does to the storage.
  pub record Appends (p : ℕ) (name : String) (entry : ObservationAndAction O)
      (s s' : ObservationAndActionStorage O) : Type 0 where
    pub next : s'.next_id ≡ s.next_id + 1
    pub capacity_kept : s'.capacity ≡ s.capacity
    pub observations :
        (q : ℕ) (k : String)
        → observations_of s'.buffer q k ≡ (
            if same_fight p name (q, k)
            then observations_of s.buffer p name ++ entry ∷ []
            else observations_of s.buffer q k)
    pub ids :
        (id : ℕ)
        → lookup nat_eq id s'.id_to_index_map ≡ (
            if s.next_id == id
            then some (place p name (length (observations_of s.buffer p name)))
            else lookup nat_eq id s.id_to_index_map)
    pub places :
        (q : ℕ) (k : String) (j : ℕ)
        → lookup indices_eq (place q k j) s'.index_to_id_map ≡ (
            if same_fight p name (q, k) && length (observations_of s.buffer p name) == j
            then some s.next_id
            else lookup indices_eq (place q k j) s.index_to_id_map)
    pub deque : s'.pvp_id_and_intelligence_name_deque ≡ (
        if length (observations_of s.buffer p name) == 0
        then s.pvp_id_and_intelligence_name_deque ++ (p, name) ∷ []
        else s.pvp_id_and_intelligence_name_deque)
    pub larger : size s' ≡ size s + 1

  pub append-Appends :
      (s : ObservationAndActionStorage O) (p : ℕ) (name : String) (entry : ObservationAndAction O)
      → s.next_id ≢ max_id
      → (s' : ObservationAndActionStorage O) × (append s p name entry ≡ ok (s', s.next_id))
        × Appends p name entry s s'
  unfolding append size same_indices
  append-Appends s p name entry lt =
      let old = observations_of s.buffer p name in
      let here = place p name (length old) in
      let not_last : (s.next_id == max_id) ≡ false = ground arith in
      (
        record s {
          next_id = s.next_id + 1;
          buffer = with_observations s.buffer p name (old ++ entry ∷ []);
          id_to_index_map = insert nat_eq s.id_to_index_map s.next_id here;
          index_to_id_map = insert indices_eq s.index_to_id_map here s.next_id;
          pvp_id_and_intelligence_name_deque =
              if length old == 0
              then s.pvp_id_and_intelligence_name_deque ++ (p, name) ∷ []
              else s.pvp_id_and_intelligence_name_deque;
        },
        rw (not_last) refl,
        record {
          next = refl;
          capacity_kept = refl;
          observations =
              λ q k. observations_of-with_observations s.buffer p name (old ++ entry ∷ []) q k;
          ids = λ id. lookup-insert nat_eq s.id_to_index_map s.next_id here id;
          places = λ q k j. ground (
            arith,
            lookup-insert indices_eq s.index_to_id_map here s.next_id (place q k j),
            eq_iff name k,
          );
          deque = refl;
          larger = omega (
            arith,
            size-with_observations s.buffer p name (old ++ entry ∷ []),
            length-append old (entry ∷ []),
          );
        },
      )

  -- A storage stays consistent when an observation is added.
  pub Appends-IsConsistent :
      (p : ℕ) (name : String) (entry : ObservationAndAction O)
      (s s' : ObservationAndActionStorage O)
      → IsConsistent s
      → Appends p name entry s s'
      → IsConsistent s'
  Appends-IsConsistent p name entry s s' v a = record {
    forward = λ id at found. ground (
      arith,
      a.ids id,
      found,
      v.forward id at,
      v.bounded p name (length (observations_of s.buffer p name)) id,
      a.places at.pvp_id at.intelligence_name at.action_index,
      a.places p name (length (observations_of s.buffer p name)),
      eq_iff name at.intelligence_name,
      eq_iff name name,
    );
    backward = λ id at found. ground (
      arith,
      a.places at.pvp_id at.intelligence_name at.action_index,
      found,
      a.ids id,
      v.backward id at,
      v.given id at,
      eq_iff name at.intelligence_name,
    );
    given = λ id at found. ground (arith, a.ids id, a.next, v.given id at);
    filled = λ q k i lt.
        elim (Bool-cases
          (same_fight p name (q, k) && length (observations_of s.buffer p name) == i)) [
            | inl new ↦ (s.next_id, ground (arith, new, a.places q k i))
            | inr old ↦
                let (id, found) = v.filled q k i (
                  ground (
                    arith,
                    lt,
                    old,
                    a.observations q k,
                    eq_iff name k,
                    length-append (observations_of s.buffer p name) (entry ∷ []),
                  )) in
                (id, ground (arith, old, found, a.places q k i))
          ];
    bounded = λ q k i id found. ground (
      arith,
      a.observations q k,
      a.places q k i,
      v.bounded q k i id,
      eq_iff name k,
      length-append (observations_of s.buffer p name) (entry ∷ []),
    );
    queued = λ q k. ground (
      arith,
      v.queued q k,
      a.observations q k,
      length-append (observations_of s.buffer p name) (entry ∷ []),
      ap (count (same_fight q k)) a.deque,
      count-append (same_fight q k) s.pvp_id_and_intelligence_name_deque ((p, name) ∷ []),
      eq_iff k name,
      eq_iff name k,
    );
    sized =
        let grown =
          total_grown s.buffer s'.buffer p name
            (λ q k. ground (
              arith,
              a.observations q k,
              eq_iff name k,
              length-append (observations_of s.buffer p name) (entry ∷ []),
            ))
            s'.pvp_id_and_intelligence_name_deque in
        ground (
          arith,
          v.sized,
          a.larger,
          grown,
          v.queued p name,
          eq_iff name name,
          ap (total s.buffer) a.deque,
          ap (count (same_fight p name)) a.deque,
          total-append s.buffer p name s.pvp_id_and_intelligence_name_deque,
          count-append (same_fight p name) s.pvp_id_and_intelligence_name_deque ((p, name) ∷ []),
        );
  }
