-- ===== src/World/Tests.antt =====
-- Witnesses and tests of the world's theorems, at one monster and one player.
use hyperbot.Prelude.{
  ℕ, ◌≡◌, refl, Bool, true, false, ◌==◌, arith, none, some, [], ◌∷◌, if◌then◌else◌, ok,
}
use hyperbot.Prelude.Map.{lookup, insert}
use hyperbot.World.{
  WorldState, Entity, character, new_world, pos, track, untrack, entity_spawned, entity_despawned,
  remove_buffs,
}
use hyperbot.Prelude.{List}
use hyperbot.World.{BuffData}
use hyperbot.World.Seen.{Sees, one_more, track-Sees}
use hyperbot.World.Buffs.{Has, Owned, AllOwned, remove_buffs_succeeds, any_is}

abbrev player : Entity
player = record { global_id = 7; kind = character [] }

new_world-Sees : Sees new_world (λ id. 0)
unfolding lookup
new_world-Sees id = (refl, refl)

abbrev seen_player : WorldState
seen_player = (track new_world player).0

abbrev one_viewer : ℕ → ℕ
one_viewer = one_more (λ id. 0) 7

seen_player-Sees : Sees seen_player one_viewer
seen_player-Sees = (track-Sees new_world (λ id. 0) player new_world-Sees).0

-- An entity that was despawned before it spawned is never removed again.
never_removed : (entity_despawned (entity_spawned (untrack new_world 7).0 player).0 7).1 ≡ ok false
unfolding entity_despawned entity_spawned untrack lookup insert
never_removed = refl

abbrev two_casts : List (ℕ × BuffData)
two_casts =
    (1, record { skill_ref_id = 30; cast_time = none })
    ∷ (2, record { skill_ref_id = 30; cast_time = some 5 })
    ∷ []

abbrev caster : Entity
caster = record { global_id = 7; kind = character two_casts }

abbrev with_caster : WorldState
with_caster = record {
  entity_map = (7, caster) ∷ [];
  entity_reference_count_map = (7, pos 1) ∷ [];
  buff_token_map = (1, (7, 30)) ∷ (2, (7, 30)) ∷ [];
}

caster-Has :
    (token : ℕ) (buff : BuffData)
    → lookup token two_casts ≡ some buff
    → Has with_caster.entity_map 7 token
unfolding lookup
caster-Has token buff h = record {
  entity = caster;
  buffs = two_casts;
  buff = buff;
  found = refl;
  a_character = refl;
  has_it = h;
}

Owned-if :
    (first second : Bool) (token : ℕ)
    → (first ≡ true → Has with_caster.entity_map 7 token)
    → (second ≡ true → Has with_caster.entity_map 7 token)
    → Owned with_caster.entity_map token (elim first [
      | true ↦ some (7, 30)
      | false ↦ elim second [ true ↦ some (7, 30) | false ↦ none ]
    ])
Owned-if true second token f g = f refl
Owned-if false true token f g = g refl
Owned-if false false token f g = tt

caster-AllOwned : AllOwned with_caster
unfolding lookup
caster-AllOwned token =
    Owned-if (1 == token) (2 == token) token
      (λ e. caster-Has token (record { skill_ref_id = 30; cast_time = none }) (ground (arith, e)))
      (λ e. caster-Has token (record { skill_ref_id = 30; cast_time = some 5 }) (ground (arith, e)))

-- A token of the caster and one that is not known.
remove_buffs_succeeds_example :
    (after : WorldState) × (remove_buffs with_caster (1000 ∷ 2 ∷ []) ≡ ok after)
    × ((other : ℕ)
        → lookup other (after.buff_token_map) ≡ (
            if any_is other (1000 ∷ 2 ∷ [])
            then none
            else lookup other (with_caster.buff_token_map)))
    × AllOwned after
remove_buffs_succeeds_example = remove_buffs_succeeds (1000 ∷ 2 ∷ []) with_caster caster-AllOwned
