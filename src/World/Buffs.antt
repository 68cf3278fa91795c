-- ===== src/World/Buffs.antt =====
-- Every tracked token belongs to a tracked character that has the buff.
use hyperbot.Prelude.{
  ◌∷◌, [], List, Bool, true, false, ℕ, ◌≡◌, refl, sym, ap, subst, ◌∙◌, inl, inr, Option, none, some,
  ◌==◌, if◌then◌else◌, Bool-cases, Option-cases, ==_iff, ok, arith,
}
use hyperbot.Prelude.Map.{lookup, insert, erase, lookup-insert, lookup-erase}
use hyperbot.World.{
  WorldState, Entity, BuffData, character, as_character, emplace, remove_buffs, remove_buff,
  remove_buff_from, with_buffs, with_tokens,
}

module _ {V : Type 0} where
  pub lookup-emplace :
      (m : List (ℕ × V)) (k : ℕ) (v : V) (other : ℕ)
      → lookup other (emplace m k v)
        ≡ elim (lookup other m) [ some old ↦ some old | none ↦ if k == other then some v else none ]
  unfolding emplace
  lookup-emplace m k v other = ground (arith, lookup-insert m k v other)

-- The entity of that id is a character that has the buff of the token.
pub record Has (entities : List (ℕ × Entity)) (id token : ℕ) : Type 0 where
  pub entity : Entity
  pub buffs : List (ℕ × BuffData)
  pub buff : BuffData
  pub found : lookup id entities ≡ some entity
  pub a_character : as_character entity ≡ some buffs
  pub has_it : lookup token buffs ≡ some buff

abbrev pub Owned : List (ℕ × Entity) → ℕ → Option (ℕ × ℕ) → Type 0
Owned entities token none = Unit {0}
Owned entities token (some owner) = Has entities (owner.0) token

abbrev pub AllOwned : WorldState → Type 0
AllOwned w = (token : ℕ) → Owned (w.entity_map) token (lookup token (w.buff_token_map))

-- Another set of buffs at one character: what is had of the others stays.
Has-insert :
    (entities : List (ℕ × Entity)) (id token : ℕ) (e : Entity) (buffs : List (ℕ × BuffData))
    (other : ℕ)
    → Has entities other token
    → (id ≡ other → (buff : BuffData) × (lookup token buffs ≡ some buff))
    → Has
        (insert entities id (record { global_id = e.global_id; kind = character buffs }))
        other
        token
Has-insert entities id token e buffs other h still = elim (Bool-cases (id == other)) [
  | inl same ↦
      let (b, there) = still ((==_iff id other).0 same) in
      record {
        entity = record { global_id = e.global_id; kind = character buffs };
        buffs = buffs;
        buff = b;
        found = ground (
          arith,
          lookup-insert entities id (record { global_id = e.global_id; kind = character buffs })
              other,
        );
        a_character = refl;
        has_it = there;
      }
  | inr different ↦ record {
    entity = h.entity;
    buffs = h.buffs;
    buff = h.buff;
    found = ground (
      arith,
      h.found,
      lookup-insert entities id (record { global_id = e.global_id; kind = character buffs }) other,
    );
    a_character = h.a_character;
    has_it = h.has_it;
  }
]

pub Owned-insert :
    (entities : List (ℕ × Entity)) (id token : ℕ) (e : Entity) (buffs : List (ℕ × BuffData))
    (o : Option (ℕ × ℕ))
    → Owned entities token o
    → ((other : ℕ)
        → Has entities other token
        → id ≡ other
        → (buff : BuffData) × (lookup token buffs ≡ some buff))
    → Owned
        (insert entities id (record { global_id = e.global_id; kind = character buffs }))
        token
        o
Owned-insert entities id token e buffs none h still = tt
Owned-insert entities id token e buffs (some owner) h still =
    Has-insert entities id token e buffs (owner.0) h (still (owner.0) h)

buffs_of : Option Entity → Option (List (ℕ × BuffData))
buffs_of none = none
buffs_of (some e) = as_character e

buff_in : ℕ → Option (List (ℕ × BuffData)) → Option BuffData
buff_in token none = none
buff_in token (some buffs) = lookup token buffs

-- Two buffs of one character are in the same map.
pub same_buffs :
    (entities : List (ℕ × Entity)) (id other token : ℕ) (e : Entity) (buffs : List (ℕ × BuffData))
    → lookup id entities ≡ some e
    → as_character e ≡ some buffs
    → id ≡ other
    → (h : Has entities other token) → lookup token buffs ≡ some (h.buff)
unfolding buffs_of buff_in
same_buffs entities id other token e buffs found a_character same h =
    sym (
      ap (buff_in token)
        (ap buffs_of (ap (λ k. lookup k entities) (sym same) ∙ found) ∙ a_character))
    ∙ ap (buff_in token) (ap buffs_of (h.found) ∙ h.a_character)
    ∙ h.has_it

removes :
    (w : WorldState) (token : ℕ) (owner : ℕ × ℕ) (e : Entity) (buffs : List (ℕ × BuffData))
    (b : BuffData)
    → lookup token (w.buff_token_map) ≡ some owner
    → lookup (owner.0) (w.entity_map) ≡ some e
    → as_character e ≡ some buffs
    → lookup token buffs ≡ some b
    → remove_buff w token
      ≡ ok (
          with_tokens
            (with_buffs w (owner.0) e (erase token buffs))
            (erase token (w.buff_token_map)))
unfolding remove_buff remove_buff_from
removes w token owner e buffs b known found a_character has_it = ground arith

removes_nothing :
    (w : WorldState) (token : ℕ)
    → lookup token (w.buff_token_map) ≡ none
    → remove_buff w token ≡ ok w
unfolding remove_buff
removes_nothing w token unknown = ground arith

-- Where every tracked token belongs to a tracked character that has the buff, removing a token does
-- not throw: an unknown one changes nothing; a known one is then unknown, no other token changes, and
-- the tokens are owned as before.
remove_buff_succeeds :
    (w : WorldState) (token : ℕ)
    → AllOwned w
    → (after : WorldState) × (remove_buff w token ≡ ok after)
      × ((other : ℕ)
          → lookup other (after.buff_token_map)
            ≡ (if token == other then none else lookup other (w.buff_token_map)))
      × AllOwned after
remove_buff_succeeds w token owned = elim (Option-cases (lookup token (w.buff_token_map))) [
  | inl unknown ↦ (
    w,
    removes_nothing w token unknown,
    λ other. elim (Bool-cases (token == other)) [
      | inl same ↦
          rw (same)
            (subst (λ k. lookup k (w.buff_token_map) ≡ none) ((==_iff token other).0 same) unknown)
      | inr different ↦ rw (different) refl
    ],
    owned,
  )
  | inr (owner, known) ↦
      let h : Has (w.entity_map) (owner.0) token =
        subst (Owned (w.entity_map) token) known (owned token) in
      let after =
        with_tokens (with_buffs w (owner.0) (h.entity) (erase token (h.buffs)))
          (erase token (w.buff_token_map)) in
      (
        after,
        removes w token owner (h.entity) (h.buffs) (h.buff) known (h.found) (h.a_character)
            (h.has_it),
        lookup-erase (w.buff_token_map) token,
        λ other.
            subst (Owned (after.entity_map) other)
              (sym (lookup-erase (w.buff_token_map) token other))
              (kept owner (h.entity) (h.buffs) (h.found) (h.a_character) other),
      )
]
  where
    kept :
        (owner : ℕ × ℕ) (e : Entity) (buffs : List (ℕ × BuffData))
        → lookup (owner.0) (w.entity_map) ≡ some e
        → as_character e ≡ some buffs
        → (other : ℕ)
        → Owned
            (insert
              (w.entity_map)
              (owner.0)
              (record { global_id = e.global_id; kind = character (erase token buffs) }))
            other
            (if token == other then none else lookup other (w.buff_token_map))
    kept owner e buffs found a_character other = elim (Bool-cases (token == other)) [
      | inl same ↦ rw (same) tt
      | inr different ↦ rw (different) (
          Owned-insert (w.entity_map) (owner.0) other e (erase token buffs)
            (lookup other (w.buff_token_map)) (owned other)
            (λ id h same_id. (
              h.buff,
              lookup-erase buffs token other
                  ∙ rw (different) (
                      same_buffs (w.entity_map) (owner.0) id other e buffs found a_character same_id
                        h),
            )))
    ]

abbrev pub any_is : ℕ → List ℕ → Bool
any_is other [] = false
any_is other (token ∷ tokens) =
    let rest = any_is other tokens in if token == other then true else rest

next_removed :
    (w after last : WorldState) (token : ℕ) (tokens : List ℕ)
    → remove_buff w token ≡ ok after
    → remove_buffs after tokens ≡ ok last
    → remove_buffs w (token ∷ tokens) ≡ ok last
unfolding remove_buffs
next_removed w after last token tokens runs rest = rw (remove_buffs, runs) rest

-- Where every tracked token belongs to a tracked character that has the buff, removing any list of
-- tokens does not throw, keeps that so, and forgets exactly the tokens of the list.
pub remove_buffs_succeeds :
    (tokens : List ℕ) (w : WorldState)
    → AllOwned w
    → (after : WorldState) × (remove_buffs w tokens ≡ ok after)
      × ((other : ℕ)
          → lookup other (after.buff_token_map)
            ≡ (if any_is other tokens then none else lookup other (w.buff_token_map)))
      × AllOwned after
unfolding remove_buffs
remove_buffs_succeeds [] w owned = (w, refl, λ other. refl, owned)
remove_buffs_succeeds (token ∷ tokens) w owned =
    let (after, runs, forgets, still) = remove_buff_succeeds w token owned in
    let (last, rest, all_gone, kept) = remove_buffs_succeeds tokens after still in
    (
      last,
      next_removed w after last token tokens runs rest,
      λ other. ground (arith, all_gone other, forgets other),
      kept,
    )
