-- ===== src/Broker/Events/Mapped.antt =====
-- The map from events to timers against the timers that are pending.
use hyperbot.Prelude.{
  ℕ, ◌+◌, ◌≤◌, ◌<◌, ◌≡◌, refl, Bool, true, false, not, ◌&&◌, Option, none, some, List, [], ◌∷◌,
  ◌==◌, arith, Bool-cases, inl, inr, subst, ==_iff,
}
use hyperbot.Prelude.Counts.{count, SameElements}
use hyperbot.Prelude.Map.{lookup, insert, erase, lookup-insert, lookup-erase}
use hyperbot.Broker.Timers.{Timer}
use hyperbot.Broker.Timers.Cancel.{has_id}
use hyperbot.Broker.Events.{Event}

module _ {B : Type 0} where
  -- A pending delayed timer that carries the event of that id.
  abbrev pub delivers : ℕ → Timer (Event B) → Bool
  delivers event_id t = not (t.is_instant) && (t.payload.event_id == event_id)

  abbrev pub delivers_as : ℕ → ℕ → Timer (Event B) → Bool
  delivers_as event_id timer_id t = delivers event_id t && has_id timer_id t

  -- An event in the map has exactly one timer, of the id in the map; another has none.
  abbrev pub Held : List (Timer (Event B)) → ℕ → Option ℕ → Type 0
  Held ts event_id none = count (delivers event_id) ts ≡ 0
  Held ts event_id (some timer_id) =
      (count (delivers event_id) ts ≡ 1) × (count (delivers_as event_id timer_id) ts ≡ 1)

  abbrev pub Mapped : List (ℕ × ℕ) → List (Timer (Event B)) → Type 0
  Mapped m ts = (event_id : ℕ) → Held ts event_id (lookup event_id m)

  as_bounded :
      (e i : ℕ) (ts : List (Timer (Event B))) → count (delivers_as e i) ts ≤ count (delivers e) ts
  as_bounded e i [] = omega arith
  as_bounded e i (t ∷ ts) = ground (arith, as_bounded e i ts)

  as_bounded_id :
      (e i : ℕ) (ts : List (Timer (Event B)))
      → count (delivers_as e i) ts + count (λ t. has_id i t && not (delivers e t)) ts
        ≡ count (has_id i) ts
  as_bounded_id e i [] = omega arith
  as_bounded_id e i (t ∷ ts) = ground (arith, as_bounded_id e i ts)

  -- A list with the same timers, and one more that delivers nothing.
  pub add_instant :
      (m : List (ℕ × ℕ)) (ts us : List (Timer (Event B))) (t : Timer (Event B))
      → t.is_instant ≡ true
      → SameElements us (t ∷ ts)
      → Mapped m ts
      → Mapped m us
  add_instant m ts us t instant same mapped e = held (lookup e m) (mapped e)
    where
      held : (o : Option ℕ) → Held ts e o → Held us e o
      held none h = ground (arith, same (delivers e))
      held (some i) h = ground (arith, same (delivers e), same (delivers_as e i))

  pub remove_instant :
      (m : List (ℕ × ℕ)) (ts us : List (Timer (Event B))) (t : Timer (Event B))
      → t.is_instant ≡ true
      → SameElements (t ∷ us) ts
      → Mapped m ts
      → Mapped m us
  remove_instant m ts us t instant same mapped e = held (lookup e m) (mapped e)
    where
      held : (o : Option ℕ) → Held ts e o → Held us e o
      held none h = ground (arith, same (delivers e))
      held (some i) h = ground (arith, same (delivers e), same (delivers_as e i))

  pub add_delayed :
      (m : List (ℕ × ℕ)) (ts us : List (Timer (Event B))) (t : Timer (Event B))
      → t.is_instant ≡ false
      → SameElements us (t ∷ ts)
      → lookup (t.payload.event_id) m ≡ none
      → Mapped m ts
      → Mapped (insert m (t.payload.event_id) (t.id)) us
  add_delayed m ts us t delayed same new mapped e =
      rw (lookup-insert m (t.payload.event_id) (t.id) e)
        (elim (Bool-cases (t.payload.event_id == e)) [
          | inl found ↦ rw (found) (one found (subst (Held ts e) (none_there found) (mapped e)))
          | inr other ↦ rw (other) (held other (lookup e m) (mapped e))
        ])
    where
      held : (t.payload.event_id == e) ≡ false → (o : Option ℕ) → Held ts e o → Held us e o
      held other none h = ground (arith, same (delivers e))
      held other (some i) h = ground (arith, same (delivers e), same (delivers_as e i))

      none_there : (t.payload.event_id == e) ≡ true → lookup e m ≡ none
      none_there found = rw (← (==_iff (t.payload.event_id) e).0 found) new

      one :
          (t.payload.event_id == e) ≡ true
          → count (delivers e) ts ≡ 0
          → (count (delivers e) us ≡ 1) × (count (delivers_as e (t.id)) us ≡ 1)
      one found h =
          ground (arith, same (delivers e), same (delivers_as e (t.id)), as_bounded e (t.id) ts)

  pub remove_delayed :
      (m : List (ℕ × ℕ)) (ts us : List (Timer (Event B))) (t : Timer (Event B))
      → t.is_instant ≡ false
      → SameElements (t ∷ us) ts
      → Mapped m ts
      → Mapped (erase (t.payload.event_id) m) us
  remove_delayed m ts us t delayed same mapped e =
      rw (lookup-erase m (t.payload.event_id) e) (elim (Bool-cases (t.payload.event_id == e)) [
        | inl found ↦ rw (found) (one found (lookup e m) (mapped e))
        | inr other ↦ rw (other) (held other (lookup e m) (mapped e))
      ])
    where
      held : (t.payload.event_id == e) ≡ false → (o : Option ℕ) → Held ts e o → Held us e o
      held other none h = ground (arith, same (delivers e))
      held other (some i) h = ground (arith, same (delivers e), same (delivers_as e i))

      one :
          (t.payload.event_id == e) ≡ true
          → (o : Option ℕ) → Held ts e o
          → count (delivers e) us ≡ 0
      one found none h = ground (arith, same (delivers e))
      one found (some i) h = ground (arith, same (delivers e))

  -- Where no two timers share an id, a timer of the id that the map gives delivers the event.
  pub mapped_timer :
      (ts us : List (Timer (Event B))) (t : Timer (Event B)) (e i : ℕ)
      → Held ts e (some i)
      → t.id ≡ i
      → SameElements (t ∷ us) ts
      → count (has_id i) ts ≤ 1
      → (t.is_instant ≡ false) × (t.payload.event_id ≡ e)
  mapped_timer ts us t e i held same_id same unique = ground (
    arith,
    as_bounded_id e i ts,
    same (delivers_as e i),
    same (λ u. has_id i u && not (delivers e u)),
    held.0,
    held.1,
  )

  -- The event of a pending delayed timer is in the map.
  pub delivered_lookup :
      (m : List (ℕ × ℕ)) (ts us : List (Timer (Event B))) (t : Timer (Event B))
      → t.is_instant ≡ false
      → SameElements (t ∷ us) ts
      → Mapped m ts
      → (i : ℕ) × (lookup (t.payload.event_id) m ≡ some i)
  delivered_lookup m ts us t delayed same mapped =
      found (lookup (t.payload.event_id) m) (mapped (t.payload.event_id))
    where
      found : (o : Option ℕ) → Held ts (t.payload.event_id) o → (i : ℕ) × (o ≡ some i)
      found none h = absurd (ground (arith, same (delivers (t.payload.event_id))))
      found (some i) h = (i, refl)

  pub mapped_has_timer :
      (ts : List (Timer (Event B))) (e i : ℕ) → Held ts e (some i) → 0 < count (has_id i) ts
  mapped_has_timer ts e i held = omega (arith, as_bounded_id e i ts, held.1)
