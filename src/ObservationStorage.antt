-- ===== src/ObservationStorage.antt =====
-- bot/src/rl/observationAndActionStorage.cpp: the observations and actions of each character in each
-- fight, by an id that the storage hands out. An observation is a parameter `O`. Of a call that
-- throws, the exception is modelled; the storage that it leaves behind is not.
pub mod Valid
pub mod Collected
pub mod Sizes
pub mod Evicting
pub mod Appending
pub mod Storing
pub mod Reading
pub mod Neighbours
mod Tests
use Prim.Native.String.{String}
use text.Mathlib.Text.{◌==◌ as str_eq}
use text.Mathlib.TextEquality.{eq_iff}
use hyperbot.Prelude.{
  ℕ, zero, suc, ◌+◌, ◌-◌, ◌^◌, ◌≡◌, refl, ap, ◌↔◌, Bool, true, false, ◌&&◌, Option, none, some,
  List, [], ◌∷◌, ◌++◌, ◌==◌, ==_iff, ltb, leb, if◌then◌else◌, length, get_elem?, Result, ok, err,
  ◌>>=◌, ◌>>◌, throw_if, or_throw, arith,
}
use hyperbot.Prelude.KeyMap.{Eq, nat_eq, lookup, insert, erase}
use hyperbot.World.{ℤ}

pub data StorageError : Type 0 where
  no_pvps_to_delete oldest_pvp_not_found oldest_intelligence_name_not_found : StorageError
  id_not_in_buffer id_overflow id_not_found pvp_not_found intelligence_name_not_found : StorageError
  index_out_of_range no_previous previous_not_found next_not_found : StorageError

-- The place of an observation: the fight, the character's intelligence, and the position there.
pub record BufferIndices : Type 0 where
  pub pvp_id : ℕ
  pub intelligence_name : String
  pub action_index : ℕ

-- `BufferIndices::operator==`
unfoldable pub same_indices : BufferIndices → BufferIndices → Bool
same_indices a b =
    a.pvp_id == b.pvp_id
    && (str_eq a.intelligence_name b.intelligence_name && a.action_index == b.action_index)

pub same_indices_iff : (a b : BufferIndices) → (same_indices a b ≡ true) ↔ (a ≡ b)
unfolding same_indices
same_indices_iff a b = ground (arith, eq_iff (a.intelligence_name) (b.intelligence_name))

abbrev pub name_eq : Eq String
name_eq = record { beq = str_eq; beq_iff = eq_iff }

abbrev pub indices_eq : Eq BufferIndices
indices_eq = record { beq = same_indices; beq_iff = same_indices_iff }

-- ObservationAndActionType
pub record ObservationAndAction (O : Type 0) : Type 0 where
  pub observation : O
  pub action_index : Option ℤ

pub record ObservationAndActionStorage (O : Type 0) : Type 0 where
  pub capacity : ℕ
  pub next_id : ℕ
  pub buffer : List (ℕ × List (String × List (ObservationAndAction O)))
  pub id_to_index_map : List (ℕ × BufferIndices)
  pub index_to_id_map : List (BufferIndices × ℕ)
  pub pvp_id_and_intelligence_name_deque : List (ℕ × String)

-- `std::numeric_limits<Id>::max()`, of a `size_t` of 64 bits
abbrev pub max_id : ℕ
max_id = 2 ^ 64 - 1

-- The loop that looks up the ids of the observations of the oldest fight, from the position `i`
-- on, and takes them out of the map from places to ids.
unfoldable pub collect_ids :
    ℕ
    → String
    → ℕ
    → ℕ
    → List (BufferIndices × ℕ)
    → Result StorageError (List ℕ × List (BufferIndices × ℕ))
collect_ids p name i zero m = ok ([], m)
collect_ids p name i (suc left) m =
    let place : BufferIndices = record { pvp_id = p; intelligence_name = name; action_index = i } in
    do
      id ← or_throw (lookup indices_eq place m) id_not_in_buffer
      (ids, rest) ← collect_ids p name (i + 1) left (erase indices_eq place m)
      ok (id ∷ ids, rest)

abbrev pub or_empty {ℓ} : {A : Type ℓ} → Option (List A) → List A
or_empty none = []
or_empty (some xs) = xs

-- The loop that takes the deleted ids out of the map from ids to places.
unfoldable pub erase_ids : List ℕ → List (ℕ × BufferIndices) → List (ℕ × BufferIndices)
erase_ids [] m = m
erase_ids (id ∷ ids) m = erase_ids ids (erase nat_eq id m)

module _ {O : Type 0} where
  -- The constructor.
  unfoldable pub empty_storage : ℕ → ObservationAndActionStorage O
  empty_storage capacity = record {
    capacity = capacity;
    next_id = 0;
    buffer = [];
    id_to_index_map = [];
    index_to_id_map = [];
    pvp_id_and_intelligence_name_deque = [];
  }

  unfoldable pub size_of_fight : List (String × List (ObservationAndAction O)) → ℕ
  size_of_fight [] = 0
  size_of_fight (entry ∷ rest) = length entry.1 + size_of_fight rest

  unfoldable pub size_of_buffer : List (ℕ × List (String × List (ObservationAndAction O))) → ℕ
  unfolding size_of_fight
  size_of_buffer [] = 0
  size_of_buffer (entry ∷ rest) = size_of_fight entry.1 + size_of_buffer rest

  -- size
  unfoldable pub size : ObservationAndActionStorage O → ℕ
  unfolding size_of_buffer
  size s = size_of_buffer s.buffer

  -- The observations of a fight, as `buffer_[pvpId][intelligenceName]` finds or makes them.
  unfoldable pub observations_of :
      List (ℕ × List (String × List (ObservationAndAction O)))
      → ℕ
      → String
      → List (ObservationAndAction O)
  observations_of buffer p name = or_empty (lookup name_eq name (or_empty (lookup nat_eq p buffer)))

  -- Writes the observations of a fight.
  unfoldable pub with_observations :
      List (ℕ × List (String × List (ObservationAndAction O)))
      → ℕ
      → String
      → List (ObservationAndAction O)
      → List (ℕ × List (String × List (ObservationAndAction O)))
  with_observations buffer p name observations =
      insert nat_eq buffer p (insert name_eq (or_empty (lookup nat_eq p buffer)) name observations)

  -- Deletes the fight at the front of the deque, and answers the ids that it had.
  evict :
      ObservationAndActionStorage O
      → List (ℕ × String)
      → Result StorageError (ObservationAndActionStorage O × List ℕ)
  unfolding collect_ids erase_ids
  evict s [] = err no_pvps_to_delete
  evict s ((oldest_pvp, oldest_name) ∷ others) = do
    fights ← or_throw (lookup nat_eq oldest_pvp s.buffer) oldest_pvp_not_found
    observations ← or_throw (lookup name_eq oldest_name fights) oldest_intelligence_name_not_found
    (deleted, places) ← collect_ids oldest_pvp oldest_name 0 (length observations) s.index_to_id_map
    ok (
      record s {
        buffer = insert nat_eq s.buffer oldest_pvp (erase name_eq oldest_name fights);
        id_to_index_map = erase_ids deleted s.id_to_index_map;
        index_to_id_map = places;
        pvp_id_and_intelligence_name_deque = others;
      },
      deleted,
    )

  unfoldable pub make_room :
      ObservationAndActionStorage O → Result StorageError (ObservationAndActionStorage O × List ℕ)
  unfolding size evict
  make_room s =
      if size s == s.capacity then evict s s.pvp_id_and_intelligence_name_deque else ok (s, [])

  -- Adds an observation at the end of its fight, and answers its id.
  unfoldable pub append :
      ObservationAndActionStorage O
      → ℕ
      → String
      → ObservationAndAction O
      → Result StorageError (ObservationAndActionStorage O × ℕ)
  unfolding observations_of with_observations
  append s pvp_id name entry =
      let old = observations_of s.buffer pvp_id name in
      let index = length old in
      let place : BufferIndices = record {
        pvp_id = pvp_id;
        intelligence_name = name;
        action_index = index;
      } in
      if s.next_id == max_id
      then err id_overflow
      else ok (
        record s {
          next_id = s.next_id + 1;
          buffer = with_observations s.buffer pvp_id name (old ++ entry ∷ []);
          id_to_index_map = insert nat_eq s.id_to_index_map s.next_id place;
          index_to_id_map = insert indices_eq s.index_to_id_map place s.next_id;
          pvp_id_and_intelligence_name_deque =
              if index == 0
              then s.pvp_id_and_intelligence_name_deque ++ (pvp_id, name) ∷ []
              else s.pvp_id_and_intelligence_name_deque;
        },
        s.next_id,
      )

  -- addObservationAndAction
  unfoldable pub add_observation_and_action :
      ObservationAndActionStorage O
      → ℕ
      → String
      → O
      → Option ℤ
      → Result StorageError (ObservationAndActionStorage O × ℕ × List ℕ)
  unfolding make_room append
  add_observation_and_action s pvp_id name observation action_index = do
    (roomy, deleted_ids) ← make_room s
    (s', id) ←
        append roomy pvp_id name (record { observation = observation; action_index = action_index })
    ok (s', id, deleted_ids)

  -- getObservationAndAction
  unfoldable pub get_observation_and_action :
      ObservationAndActionStorage O → ℕ → Result StorageError (ObservationAndAction O)
  get_observation_and_action s id = do
    index ← or_throw (lookup nat_eq id s.id_to_index_map) id_not_found
    fights ← or_throw (lookup nat_eq index.pvp_id s.buffer) pvp_not_found
    observations ←
        or_throw (lookup name_eq index.intelligence_name fights) intelligence_name_not_found
    or_throw (get_elem? observations index.action_index) index_out_of_range

  -- hasPrevious
  unfoldable pub has_previous : ObservationAndActionStorage O → ℕ → Result StorageError Bool
  has_previous s id = do
    index ← or_throw (lookup nat_eq id s.id_to_index_map) id_not_found
    ok (ltb 0 index.action_index)

  -- getPreviousId
  unfoldable pub get_previous_id : ObservationAndActionStorage O → ℕ → Result StorageError ℕ
  get_previous_id s id = do
    index ← or_throw (lookup nat_eq id s.id_to_index_map) id_not_found
    throw_if (index.action_index == 0) no_previous
    or_throw
        (lookup indices_eq (record index { action_index = index.action_index - 1 })
          s.index_to_id_map)
        previous_not_found

  -- getNextId
  unfoldable pub get_next_id : ObservationAndActionStorage O → ℕ → Result StorageError ℕ
  get_next_id s id = do
    index ← or_throw (lookup nat_eq id s.id_to_index_map) id_not_found
    or_throw
        (lookup indices_eq (record index { action_index = index.action_index + 1 })
          s.index_to_id_map)
        next_not_found
