-- ===== src/ObservationStorage/Tests.antt =====
-- Runs of the observation storage, and its theorems at concrete storages.
use hyperbot.Prelude.{
  ℕ, ◌≡◌, ◌≢◌, ◌↔◌, refl, true, some, List, [], ◌∷◌, ok, err, if◌then◌else◌, ◌==◌, arith,
}
use hyperbot.Prelude.KeyMap.{nat_eq, lookup, insert, erase}
use hyperbot.World.{pos}
use hyperbot.ObservationStorage.{
  ObservationAndActionStorage, ObservationAndAction, same_indices, empty_storage, size, max_id,
  add_observation_and_action, get_observation_and_action, get_previous_id, get_next_id,
  id_not_found,
}
use hyperbot.ObservationStorage.Valid.{place}
use hyperbot.ObservationStorage.Collected.{contains}
use hyperbot.ObservationStorage.Storing.{
  IsValid, empty_storage-IsValid, add_observation_and_action-IsValid, add_observation_and_action-ok,
}
use hyperbot.ObservationStorage.Reading.{
  add_observation_and_action-get, add_observation_and_action-deleted,
}
use hyperbot.ObservationStorage.Neighbours.{get_previous_id-get_next_id}

abbrev entry : ℕ → ObservationAndAction ℕ
entry o = record { observation = o; action_index = some (pos 3) }

-- One observation of a fight, in a storage for two.
abbrev one : ObservationAndActionStorage ℕ
one = record {
  capacity = 2;
  next_id = 1;
  buffer = (7, ("Alice", entry 10 ∷ []) ∷ []) ∷ [];
  id_to_index_map = (0, place 7 "Alice" 0) ∷ [];
  index_to_id_map = (place 7 "Alice" 0, 0) ∷ [];
  pvp_id_and_intelligence_name_deque = (7, "Alice") ∷ [];
}

-- Two of them.
abbrev two : ObservationAndActionStorage ℕ
two = record {
  capacity = 2;
  next_id = 2;
  buffer = (7, ("Alice", entry 10 ∷ entry 11 ∷ []) ∷ []) ∷ [];
  id_to_index_map = (0, place 7 "Alice" 0) ∷ (1, place 7 "Alice" 1) ∷ [];
  index_to_id_map = (place 7 "Alice" 0, 0) ∷ (place 7 "Alice" 1, 1) ∷ [];
  pvp_id_and_intelligence_name_deque = (7, "Alice") ∷ [];
}

-- Another character's observation takes the place of both.
abbrev next_fight : ObservationAndActionStorage ℕ
next_fight = record {
  capacity = 2;
  next_id = 3;
  buffer = (7, ("Bob", entry 20 ∷ []) ∷ []) ∷ [];
  id_to_index_map = (2, place 7 "Bob" 0) ∷ [];
  index_to_id_map = (place 7 "Bob" 0, 2) ∷ [];
  pvp_id_and_intelligence_name_deque = (7, "Bob") ∷ [];
}

first_added :
    add_observation_and_action (empty_storage 2) 7 "Alice" 10 (some (pos 3)) ≡ ok (one, 0, [])
unfolding add_observation_and_action empty_storage lookup insert same_indices
first_added = refl

second_added : add_observation_and_action one 7 "Alice" 11 (some (pos 3)) ≡ ok (two, 1, [])
unfolding add_observation_and_action lookup insert same_indices
second_added = refl

third_added :
    add_observation_and_action two 7 "Bob" 20 (some (pos 3)) ≡ ok (next_fight, 2, 0 ∷ 1 ∷ [])
unfolding add_observation_and_action lookup insert erase same_indices
third_added = refl

one-IsValid : IsValid one
one-IsValid =
    (add_observation_and_action-IsValid (empty_storage 2) one 7 "Alice" 10 (some (pos 3)) 0 []
      (empty_storage-IsValid 2) (unfold empty_storage in omega arith) first_added).0

two-IsValid : IsValid two
two-IsValid =
    (add_observation_and_action-IsValid one two 7 "Alice" 11 (some (pos 3)) 1 [] one-IsValid
      (omega arith) second_added).0

add_observation_and_action-IsValid_example : IsValid next_fight × ◌≡◌ {A = ℕ} 2 2
add_observation_and_action-IsValid_example =
    add_observation_and_action-IsValid two next_fight 7 "Bob" 20 (some (pos 3)) 2 (0 ∷ 1 ∷ [])
      two-IsValid (omega arith) third_added

add_observation_and_action-ok_example :
    ((r : ObservationAndActionStorage ℕ × ℕ × List ℕ) × (add_observation_and_action two 7 "Bob" 20
          (some (pos 3))
        ≡ ok r))
    ↔ (◌≢◌ {A = ℕ} 2 max_id)
add_observation_and_action-ok_example =
    add_observation_and_action-ok two 7 "Bob" 20 (some (pos 3)) two-IsValid (omega arith)

add_observation_and_action-get_example : get_observation_and_action next_fight 1 ≡ (
    if 1 == 2
    then ok (entry 20)
    else if contains (0 ∷ 1 ∷ []) 1
    then err id_not_found
    else get_observation_and_action two 1)
add_observation_and_action-get_example =
    add_observation_and_action-get two next_fight 7 "Bob" 20 (some (pos 3)) 2 (0 ∷ 1 ∷ []) 1
      two-IsValid (omega arith) third_added

add_observation_and_action-deleted_example :
    (contains (0 ∷ 1 ∷ []) 1 ≡ true)
    ↔ ((size two ≡ 2) × (i : ℕ) × (lookup nat_eq 1 two.id_to_index_map ≡ some (place 7 "Alice" i)))
add_observation_and_action-deleted_example =
    add_observation_and_action-deleted two next_fight 7 "Bob" 20 (some (pos 3)) 2 (0 ∷ 1 ∷ []) 7
      "Alice" [] 1 two-IsValid (omega arith) third_added refl

get_previous_id-get_next_id_example : (get_previous_id two 1 ≡ ok 0) ↔ (get_next_id two 0 ≡ ok 1)
get_previous_id-get_next_id_example = get_previous_id-get_next_id two 1 0 (two-IsValid.consistent)

previous_run : get_previous_id two 1 ≡ ok 0
unfolding get_previous_id lookup same_indices
previous_run = refl

own_fight_run : get_observation_and_action two 1 ≡ ok (entry 11)
unfolding get_observation_and_action lookup
own_fight_run = refl
