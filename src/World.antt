-- ===== src/World.antt =====
-- bot/src/state/entityTracker.cpp, bot/src/state/worldState.cpp and the buffs of
-- bot/src/entity/character.cpp: the entities that some character sees, how many see each, and the
-- buffs that they have. An entity is shared by pointer; here it stands in the tracker's map, and a
-- change to it is a change there.
pub mod Seen
pub mod Buffs
pub mod Adding
pub mod Active
mod Tests
use hyperbot.Prelude.{
  ℕ, zero, suc, Bool, true, false, Option, none, some, List, [], ◌∷◌, ◌==◌, if◌then◌else◌, Result,
  ok, err,
}
use hyperbot.Prelude.Map.{lookup, insert, erase}

-- The `int` of a reference count.
pub data ℤ : Type 0 where
  pos : ℕ → ℤ
  negsuc : ℕ → ℤ

abbrev pub increment : ℤ → ℤ
increment (pos n) = pos (suc n)
increment (negsuc zero) = pos zero
increment (negsuc (suc n)) = negsuc n

abbrev pub decrement : ℤ → ℤ
decrement (pos zero) = negsuc zero
decrement (pos (suc n)) = pos n
decrement (negsuc n) = negsuc (suc n)

abbrev pub more_than_one : ℤ → Bool
more_than_one (pos (suc (suc n))) = true
more_than_one _ = false

abbrev pub is_zero : ℤ → Bool
is_zero (pos zero) = true
is_zero _ = false

-- Character::BuffData
pub record BuffData : Type 0 where
  pub skill_ref_id : ℕ
  pub cast_time : Option ℕ

-- A character has buffs by token; the other entities are not characters.
pub data EntityKind : Type 0 where
  character : List (ℕ × BuffData) → EntityKind
  no_character : EntityKind

pub record Entity : Type 0 where
  pub global_id : ℕ
  pub kind : EntityKind

-- The buff map of a character (a dynamic_cast to Character).
abbrev pub as_character : Entity → Option (List (ℕ × BuffData))
as_character e = elim (e.kind) [ character buffs ↦ some buffs | no_character ↦ none ]

-- EntityTracker's two maps, and buffTokenToEntityAndSkillIdMap_: the owner and the skill of a token.
pub record WorldState : Type 0 where
  pub entity_map : List (ℕ × Entity)
  pub entity_reference_count_map : List (ℕ × ℤ)
  pub buff_token_map : List (ℕ × (ℕ × ℕ))

abbrev pub new_world : WorldState
new_world = record { entity_map = []; entity_reference_count_map = []; buff_token_map = [] }

pub data WorldError : Type 0 where
  no_entity no_character_to_buff no_buff : WorldError

-- std::map::emplace: an entry that is there stays.
unfoldable pub emplace : {V : Type 0} → List (ℕ × V) → ℕ → V → List (ℕ × V)
emplace m k v = elim (lookup k m) [ some old ↦ m | none ↦ insert m k v ]

-- `map[id]`, which makes a zero of a missing entry.
abbrev pub count_of : WorldState → ℕ → ℤ
count_of w id = elim (lookup id (w.entity_reference_count_map)) [ none ↦ pos 0 | some n ↦ n ]

abbrev pub with_count : WorldState → ℕ → ℤ → List (ℕ × Entity) → WorldState
with_count w id n entities = record {
  entity_map = entities;
  entity_reference_count_map = insert (w.entity_reference_count_map) id n;
  buff_token_map = w.buff_token_map;
}

-- EntityTracker::entitySpawned
unfoldable pub track : WorldState → Entity → WorldState × Bool
unfolding emplace
track w e =
    let n = increment (count_of w (e.global_id)) in
    if more_than_one n
    then (with_count w (e.global_id) n (w.entity_map), false)
    else (with_count w (e.global_id) n (emplace (w.entity_map) (e.global_id) e), true)

-- EntityTracker::entityDespawned: the state as the code leaves it, and what it answers.
unfoldable pub untrack : WorldState → ℕ → WorldState × Result WorldError Bool
untrack w id =
    let n = decrement (count_of w id) in
    if is_zero n
    then elim (lookup id (w.entity_map)) [
      | some e ↦ (with_count w id n (erase id (w.entity_map)), ok true)
      | none ↦ (with_count w id n (w.entity_map), err no_entity)
    ]
    else (with_count w id n (w.entity_map), ok false)

abbrev pub with_tokens : WorldState → List (ℕ × (ℕ × ℕ)) → WorldState
with_tokens w tokens = record {
  entity_map = w.entity_map;
  entity_reference_count_map = w.entity_reference_count_map;
  buff_token_map = tokens;
}

-- The loop of WorldState::entitySpawned.
unfoldable pub add_tokens : ℕ → List (ℕ × BuffData) → List (ℕ × (ℕ × ℕ)) → List (ℕ × (ℕ × ℕ))
unfolding emplace
add_tokens id [] tokens = tokens
add_tokens id (buff ∷ buffs) tokens =
    add_tokens id buffs (emplace tokens (buff.0) (id, buff.1.skill_ref_id))

-- WorldState::entitySpawned
unfoldable pub entity_spawned : WorldState → Entity → WorldState × Bool
unfolding track add_tokens
entity_spawned w e =
    let r = track w e in
    if r.1
    then elim (as_character e) [
      | none ↦ r
      | some buffs ↦
          (with_tokens (r.0) (add_tokens (e.global_id) buffs ((r.0).buff_token_map)), true)
    ]
    else r

-- The loop of WorldState::entityDespawned.
unfoldable pub drop_tokens : ℕ → List (ℕ × (ℕ × ℕ)) → List (ℕ × (ℕ × ℕ))
drop_tokens id [] = []
drop_tokens id (entry ∷ tokens) =
    let rest = drop_tokens id tokens in if entry.1.0 == id then rest else entry ∷ rest

-- WorldState::entityDespawned, from what the tracker answers.
unfoldable pub despawned_by :
    ℕ → WorldState × Result WorldError Bool → WorldState × Result WorldError Bool
unfolding drop_tokens
despawned_by id (w, err e) = (w, err e)
despawned_by id (w, ok false) = (w, ok false)
despawned_by id (w, ok true) = (with_tokens w (drop_tokens id (w.buff_token_map)), ok true)

unfoldable pub entity_despawned : WorldState → ℕ → WorldState × Result WorldError Bool
unfolding despawned_by untrack
entity_despawned w id = despawned_by id (untrack w id)

abbrev pub with_buffs : WorldState → ℕ → Entity → List (ℕ × BuffData) → WorldState
with_buffs w id e buffs = record {
  entity_map =
      insert (w.entity_map) id (record { global_id = e.global_id; kind = character buffs });
  entity_reference_count_map = w.entity_reference_count_map;
  buff_token_map = w.buff_token_map;
}

-- Character::addBuff: a buff that is there keeps its data.
unfoldable pub add_buff_to : List (ℕ × BuffData) → ℕ → ℕ → Option ℕ → List (ℕ × BuffData)
unfolding emplace
add_buff_to buffs skill token cast_time =
    emplace buffs token (record { skill_ref_id = skill; cast_time = cast_time })

-- Character::removeBuff
unfoldable pub remove_buff_from : List (ℕ × BuffData) → ℕ → Result WorldError (List (ℕ × BuffData))
remove_buff_from buffs token = elim (lookup token buffs) [
  | none ↦ err no_buff
  | some data_of ↦ ok (erase token buffs)
]

-- Character::buffIsActive
unfoldable pub buff_is_active : List (ℕ × BuffData) → ℕ → Bool
buff_is_active [] skill = false
buff_is_active (buff ∷ buffs) skill =
    let rest = buff_is_active buffs skill in if buff.1.skill_ref_id == skill then true else rest

-- WorldState::addBuff
unfoldable pub add_buff : WorldState → ℕ → ℕ → ℕ → ℕ → Result WorldError WorldState
unfolding emplace add_buff_to
add_buff w id skill token cast_time = elim (lookup id (w.entity_map)) [
  | none ↦ err no_entity
  | some e ↦ elim (as_character e) [
    | none ↦ err no_character_to_buff
    | some buffs ↦ ok (
        with_tokens (with_buffs w id e (add_buff_to buffs skill token (some cast_time)))
          (emplace (w.buff_token_map) token (id, skill)))
  ]
]

-- One turn of the loop of WorldState::removeBuffs.
unfoldable pub remove_buff : WorldState → ℕ → Result WorldError WorldState
unfolding remove_buff_from
remove_buff w token = elim (lookup token (w.buff_token_map)) [
  | none ↦ ok w
  | some owner ↦ elim (lookup (owner.0) (w.entity_map)) [
    | none ↦ err no_entity
    | some e ↦ elim (as_character e) [
      | none ↦ err no_character_to_buff
      | some buffs ↦ elim (remove_buff_from buffs token) [
        | err e ↦ err e
        | ok left ↦
            ok (with_tokens (with_buffs w (owner.0) e left) (erase token (w.buff_token_map)))
      ]
    ]
  ]
]

-- WorldState::removeBuffs
unfoldable pub remove_buffs : WorldState → List ℕ → Result WorldError WorldState
remove_buffs w [] = ok w
remove_buffs w (token ∷ tokens) = elim (remove_buff w token) [
  | err e ↦ err e
  | ok after ↦ remove_buffs after tokens
]

-- EntityTracker::trackingEntity
unfoldable pub tracking_entity : WorldState → ℕ → Bool
tracking_entity w id = elim (lookup id (w.entity_map)) [ none ↦ false | some e ↦ true ]

-- Character::buffCastTime
unfoldable pub buff_cast_time : List (ℕ × BuffData) → ℕ → Result WorldError (Option ℕ)
buff_cast_time [] skill = err no_buff
buff_cast_time (buff ∷ buffs) skill =
    let rest = buff_cast_time buffs skill in
    if buff.1.skill_ref_id == skill then ok (buff.1.cast_time) else rest

-- Character::activeBuffs: the skills without repetition, as a std::set holds them.
unfoldable pub active_buffs : List (ℕ × BuffData) → List ℕ
unfolding buff_is_active
active_buffs [] = []
active_buffs (buff ∷ buffs) =
    if buff_is_active buffs (buff.1.skill_ref_id)
    then active_buffs buffs
    else buff.1.skill_ref_id ∷ active_buffs buffs
