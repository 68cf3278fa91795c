-- ===== src/World/Adding.antt =====
-- What adding a buff keeps.
use hyperbot.Prelude.{
  List, ℕ, ◌≡◌, refl, sym, ap, subst, ◌∙◌, inl, inr, Option, some, ◌==◌, Bool-cases, Option-cases,
  ==_iff, ok, arith,
}
use hyperbot.Prelude.Map.{lookup, lookup-insert}
use hyperbot.World.{
  WorldState, Entity, BuffData, character, as_character, emplace, add_buff, add_buff_to, with_buffs,
  with_tokens,
}
use hyperbot.World.Buffs.{lookup-emplace, Has, Owned, AllOwned, Owned-insert, same_buffs}

adds :
    (w : WorldState) (id skill token cast_time : ℕ) (e : Entity) (buffs : List (ℕ × BuffData))
    → lookup id (w.entity_map) ≡ some e
    → as_character e ≡ some buffs
    → add_buff w id skill token cast_time
      ≡ ok (
          with_tokens
            (with_buffs w id e (add_buff_to buffs skill token (some cast_time)))
            (emplace (w.buff_token_map) token (id, skill)))
unfolding add_buff
adds w id skill token cast_time e buffs found a_character = ground arith

-- A buff that was there stays when another is added.
stays :
    (buffs : List (ℕ × BuffData)) (skill token other : ℕ) (cast_time : Option ℕ) (b : BuffData)
    → lookup other buffs ≡ some b
    → lookup other (add_buff_to buffs skill token cast_time) ≡ some b
unfolding add_buff_to
stays buffs skill token other cast_time b there = ground (
  arith,
  there,
  lookup-emplace buffs token (record { skill_ref_id = skill; cast_time = cast_time }) other,
)

is_there :
    (buffs : List (ℕ × BuffData)) (skill token : ℕ) (cast_time : Option ℕ)
    → (b : BuffData) × (lookup token (add_buff_to buffs skill token cast_time) ≡ some b)
unfolding add_buff_to
is_there buffs skill token cast_time = elim (Option-cases (lookup token buffs)) [
  | inl new ↦ (
    record { skill_ref_id = skill; cast_time = cast_time },
    ground (
      arith,
      new,
      lookup-emplace buffs token (record { skill_ref_id = skill; cast_time = cast_time }) token,
    ),
  )
  | inr (b, there) ↦ (b, stays buffs skill token token cast_time b there)
]

module _ (w : WorldState) (id skill token cast_time : ℕ) (e : Entity)
    (buffs : List (ℕ × BuffData)) where
  abbrev buffed : WorldState
  buffed =
      with_tokens (with_buffs w id e (add_buff_to buffs skill token (some cast_time)))
        (emplace (w.buff_token_map) token (id, skill))

  new_one : (other : ℕ) → token ≡ other → Has (buffed.entity_map) id other
  new_one other same =
      let (b, there) = is_there buffs skill token (some cast_time) in
      record {
        entity = record {
          global_id = e.global_id;
          kind = character (add_buff_to buffs skill token (some cast_time));
        };
        buffs = add_buff_to buffs skill token (some cast_time);
        buff = b;
        found = ground (
          arith,
          lookup-insert (w.entity_map) id
              (record {
                global_id = e.global_id;
                kind = character (add_buff_to buffs skill token (some cast_time));
              })
              id,
        );
        a_character = refl;
        has_it =
            ap (λ k. lookup k (add_buff_to buffs skill token (some cast_time))) (sym same) ∙ there;
      }

  old_one :
      (other : ℕ) (o : Option (ℕ × ℕ))
      → lookup id (w.entity_map) ≡ some e
      → as_character e ≡ some buffs
      → Owned (w.entity_map) other o
      → Owned (buffed.entity_map) other o
  old_one other o found a_character h =
      Owned-insert (w.entity_map) id other e (add_buff_to buffs skill token (some cast_time)) o h
        (λ holder there same. (
          there.buff,
          stays buffs skill token other (some cast_time) (there.buff)
              (same_buffs (w.entity_map) id holder other e buffs found a_character same there),
        ))

  owner_of :
      (other : ℕ)
      → lookup id (w.entity_map) ≡ some e
      → as_character e ≡ some buffs
      → AllOwned w
      → Owned (buffed.entity_map) other (lookup other (buffed.buff_token_map))
  owner_of other found a_character owned =
      rw (lookup-emplace (w.buff_token_map) token (id, skill) other)
        (elim (Option-cases (lookup other (w.buff_token_map))) [
          | inl unknown ↦ elim (Bool-cases (token == other)) [
            | inl same ↦ rw (unknown, same) (new_one other ((==_iff token other).0 same))
            | inr different ↦ rw (unknown, different) tt
          ]
          | inr (owner, known) ↦ rw (known) (
              old_one other (some owner) found a_character
                (subst (Owned (w.entity_map) other) known (owned other)))
        ])

  -- Where every tracked token belongs to a tracked character that has the buff, adding a buff to a
  -- tracked character succeeds and keeps that so; the token is then tracked.
  pub add_buff-AllOwned :
      AllOwned w
      → lookup id (w.entity_map) ≡ some e
      → as_character e ≡ some buffs
      → (after : WorldState) × (owner : ℕ × ℕ) × (add_buff w id skill token cast_time ≡ ok after)
        × (lookup token (after.buff_token_map) ≡ some owner)
        × AllOwned after
  add_buff-AllOwned owned found a_character =
      let (owner, known) =
        elim (Option-cases (lookup token (w.buff_token_map)))
          as (λ x. (owner : ℕ × ℕ) × (lookup token (buffed.buff_token_map) ≡ some owner)) [
            | inl new ↦ (
              (id, skill),
              ground (arith, new, lookup-emplace (w.buff_token_map) token (id, skill) token),
            )
            | inr (old, there) ↦ (
              old,
              ground (arith, there, lookup-emplace (w.buff_token_map) token (id, skill) token),
            )
          ] in
      (
        buffed,
        owner,
        adds w id skill token cast_time e buffs found a_character,
        known,
        λ other. owner_of other found a_character owned,
      )
