-- ===== src/World/Seen.antt =====
-- The tracker against the number of characters that see each entity.
use hyperbot.Prelude.{
  ℕ, zero, suc, ◌-◌, ◌<◌, ◌≡◌, refl, sym, ap, subst, ◌∙◌, inl, inr, true, false, Option, none, some,
  List, ◌==◌, if◌then◌else◌, Bool-cases, Option-cases, ==_iff, ok, arith,
}
use hyperbot.Prelude.Map.{lookup, erase, lookup-insert, lookup-erase}
use hyperbot.World.{
  WorldState, Entity, ℤ, pos, negsuc, count_of, with_count, emplace, track, untrack,
}
use hyperbot.World.Buffs.{lookup-emplace}

abbrev pub Tracked : Option Entity → ℕ → Type 0
Tracked none n = n ≡ 0
Tracked (some e) n = 0 < n

-- The counts are the numbers of viewers, and exactly the entities with a viewer are tracked.
abbrev pub Sees : WorldState → (ℕ → ℕ) → Type 0
Sees w viewers =
    (id : ℕ) → (count_of w id ≡ pos (viewers id)) × Tracked (lookup id (w.entity_map)) (viewers id)

abbrev pub one_more : (ℕ → ℕ) → ℕ → ℕ → ℕ
one_more viewers id other = if id == other then suc (viewers other) else viewers other

abbrev pub one_less : (ℕ → ℕ) → ℕ → ℕ → ℕ
one_less viewers id other = if id == other then viewers other - 1 else viewers other

count_of-with_count :
    (w : WorldState) (id other : ℕ) (n : ℤ) (entities : List (ℕ × Entity))
    → count_of (with_count w id n entities) other ≡ (if id == other then n else count_of w other)
count_of-with_count w id other n entities =
    ground (arith, lookup-insert (w.entity_reference_count_map) id n other)

tracks_first :
    (w : WorldState) (e : Entity)
    → count_of w (e.global_id) ≡ pos 0
    → track w e
      ≡ (with_count w (e.global_id) (pos 1) (emplace (w.entity_map) (e.global_id) e), true)
unfolding track
tracks_first w e none_yet = ground arith

tracks_again :
    (w : WorldState) (e : Entity) (n : ℕ)
    → count_of w (e.global_id) ≡ pos (suc n)
    → track w e ≡ (with_count w (e.global_id) (pos (suc (suc n))) (w.entity_map), false)
unfolding track
tracks_again w e n some_seen = ground arith

Tracked-emplace :
    (m : List (ℕ × Entity)) (k other n : ℕ) (e : Entity)
    → (k == other) ≡ true
    → 0 < n
    → Tracked (lookup other (emplace m k e)) n
Tracked-emplace m k other n e same seen =
    rw (lookup-emplace m k e other) (elim (Option-cases (lookup other m)) [
      | inl new ↦ rw (new, same) seen
      | inr (old, there) ↦ rw (there) seen
    ])

emplace-Tracked :
    (m : List (ℕ × Entity)) (k other n : ℕ) (e : Entity)
    → (k == other) ≡ false
    → Tracked (lookup other m) n
    → Tracked (lookup other (emplace m k e)) n
emplace-Tracked m k other n e apart h =
    rw (lookup-emplace m k e other) (elim (Option-cases (lookup other m)) [
      | inl new ↦ rw (new, apart) (subst (λ o. Tracked o n) new h)
      | inr (old, there) ↦ rw (there) (subst (λ o. Tracked o n) there h)
    ])

first_seen :
    (w : WorldState) (viewers : ℕ → ℕ) (e : Entity)
    → Sees w viewers
    → viewers (e.global_id) ≡ 0
    → Sees
        (with_count w (e.global_id) (pos 1) (emplace (w.entity_map) (e.global_id) e))
        (one_more viewers (e.global_id))
first_seen w viewers e sees unseen other = elim (Bool-cases (e.global_id == other)) [
  | inl same ↦ (
    ground (
      arith,
      ap viewers ((==_iff (e.global_id) other).0 same),
      count_of-with_count w (e.global_id) other (pos 1) (emplace (w.entity_map) (e.global_id) e),
    ),
    Tracked-emplace (w.entity_map) (e.global_id) other (one_more viewers (e.global_id) other) e same
        (ground arith),
  )
  | inr different ↦ (
    ground (
      arith,
      (sees other).0,
      count_of-with_count w (e.global_id) other (pos 1) (emplace (w.entity_map) (e.global_id) e),
    ),
    rw (different) (
        emplace-Tracked (w.entity_map) (e.global_id) other (viewers other) e different
          ((sees other).1)),
  )
]

more_seen :
    (w : WorldState) (viewers : ℕ → ℕ) (e : Entity) (n : ℕ)
    → Sees w viewers
    → viewers (e.global_id) ≡ suc n
    → Sees
        (with_count w (e.global_id) (pos (suc (suc n))) (w.entity_map))
        (one_more viewers (e.global_id))
more_seen w viewers e n sees seen other = elim (Bool-cases (e.global_id == other)) [
  | inl same ↦
      let there = ap viewers ((==_iff (e.global_id) other).0 same) in
      (
        ground (
          arith,
          there,
          count_of-with_count w (e.global_id) other (pos (suc (suc n))) (w.entity_map),
        ),
        rw (same) (raise (lookup other (w.entity_map)) ((sees other).1) (omega (arith, there))),
      )
  | inr different ↦ (
    ground (
      arith,
      (sees other).0,
      count_of-with_count w (e.global_id) other (pos (suc (suc n))) (w.entity_map),
    ),
    rw (different) ((sees other).1),
  )
]
  where
    raise : {m : ℕ} (o : Option Entity) → Tracked o m → 0 < m → Tracked o (suc m)
    raise none h lt = absurd (omega arith)
    raise (some e) h lt = omega arith

-- Spawning an entity counts one more viewer of it, and answers true exactly when it had none.
pub track-Sees :
    (w : WorldState) (viewers : ℕ → ℕ) (e : Entity)
    → Sees w viewers
    → Sees ((track w e).0) (one_more viewers (e.global_id))
      × ((track w e).1 ≡ (viewers (e.global_id) == 0))
track-Sees w viewers e sees = go (viewers (e.global_id)) refl
  where
    go :
        (n : ℕ)
        → viewers (e.global_id) ≡ n
        → Sees ((track w e).0) (one_more viewers (e.global_id))
          × ((track w e).1 ≡ (viewers (e.global_id) == 0))
    go zero unseen =
        let runs = tracks_first w e ((sees (e.global_id)).0 ∙ ap pos unseen) in
        (
          subst (λ r. Sees (r.0) (one_more viewers (e.global_id))) (sym runs)
              (first_seen w viewers e sees unseen),
          ap (λ r. r.1) runs ∙ ground arith,
        )
    go (suc n) seen =
        let runs = tracks_again w e n ((sees (e.global_id)).0 ∙ ap pos seen) in
        (
          subst (λ r. Sees (r.0) (one_more viewers (e.global_id))) (sym runs)
              (more_seen w viewers e n sees seen),
          ap (λ r. r.1) runs ∙ ground arith,
        )

untracks_last :
    (w : WorldState) (id : ℕ) (e : Entity)
    → count_of w id ≡ pos 1
    → lookup id (w.entity_map) ≡ some e
    → untrack w id ≡ (with_count w id (pos 0) (erase id (w.entity_map)), ok true)
unfolding untrack
untracks_last w id e one found = ground arith

untracks_one :
    (w : WorldState) (id n : ℕ)
    → count_of w id ≡ pos (suc (suc n))
    → untrack w id ≡ (with_count w id (pos (suc n)) (w.entity_map), ok false)
unfolding untrack
untracks_one w id n more = ground arith

-- Despawning an entity that nobody sees makes its count negative and answers false; it does not throw.
pub untrack_unseen :
    (w : WorldState) (viewers : ℕ → ℕ) (id : ℕ)
    → Sees w viewers
    → viewers id ≡ 0
    → untrack w id ≡ (with_count w id (negsuc 0) (w.entity_map), ok false)
unfolding untrack
untrack_unseen w viewers id sees unseen = ground (arith, (sees id).0 ∙ ap pos unseen)

last_gone :
    (w : WorldState) (viewers : ℕ → ℕ) (id : ℕ)
    → Sees w viewers
    → viewers id ≡ 1
    → Sees (with_count w id (pos 0) (erase id (w.entity_map))) (one_less viewers id)
last_gone w viewers id sees one other = elim (Bool-cases (id == other)) [
  | inl same ↦
      let there = ap viewers ((==_iff id other).0 same) in
      (
        ground (arith, there, count_of-with_count w id other (pos 0) (erase id (w.entity_map))),
        rw (lookup-erase (w.entity_map) id other, same) (omega (arith, there)),
      )
  | inr different ↦ (
    ground
        (arith, (sees other).0, count_of-with_count w id other (pos 0) (erase id (w.entity_map))),
    rw (lookup-erase (w.entity_map) id other, different) ((sees other).1),
  )
]

one_gone :
    (w : WorldState) (viewers : ℕ → ℕ) (id n : ℕ)
    → Sees w viewers
    → viewers id ≡ suc (suc n)
    → Sees (with_count w id (pos (suc n)) (w.entity_map)) (one_less viewers id)
one_gone w viewers id n sees seen other = elim (Bool-cases (id == other)) [
  | inl same ↦
      let there = ap viewers ((==_iff id other).0 same) in
      (
        ground (arith, there, count_of-with_count w id other (pos (suc n)) (w.entity_map)),
        rw (same) (lower (lookup other (w.entity_map)) ((sees other).1) (omega (arith, there))),
      )
  | inr different ↦ (
    ground (arith, (sees other).0, count_of-with_count w id other (pos (suc n)) (w.entity_map)),
    rw (different) ((sees other).1),
  )
]
  where
    lower : {m : ℕ} (o : Option Entity) → Tracked o m → 1 < m → Tracked o (m - 1)
    lower none h lt = absurd (omega arith)
    lower (some e) h lt = omega arith

-- Despawning an entity that somebody sees counts one viewer less and does not throw; it answers true
-- exactly when that was the last viewer.
pub untrack-Sees :
    (w : WorldState) (viewers : ℕ → ℕ) (id n : ℕ)
    → Sees w viewers
    → viewers id ≡ suc n
    → Sees ((untrack w id).0) (one_less viewers id) × ((untrack w id).1 ≡ ok (n == 0))
untrack-Sees w viewers id (suc n) sees seen =
    let runs = untracks_one w id n ((sees id).0 ∙ ap pos seen) in
    (
      subst (λ r. Sees (r.0) (one_less viewers id)) (sym runs) (one_gone w viewers id n sees seen),
      ap (λ r. r.1) runs ∙ ground arith,
    )
untrack-Sees w viewers id zero sees seen = elim (Option-cases (lookup id (w.entity_map))) [
  | inl none_there ↦
      absurd (ground (arith, subst (λ o. Tracked o (viewers id)) none_there ((sees id).1)))
  | inr (e, found) ↦
      let runs = untracks_last w id e ((sees id).0 ∙ ap pos seen) found in
      (
        subst (λ r. Sees (r.0) (one_less viewers id)) (sym runs) (last_gone w viewers id sees seen),
        ap (λ r. r.1) runs ∙ ground arith,
      )
]
