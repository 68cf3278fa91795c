-- ===== src/Broker/Timers/Cancel.antt =====
-- What cancelTimer removes.
use hyperbot.Prelude.{
  ℕ, ◌<◌, ◌≡◌, refl, ap, ◌⊎◌, inl, inr, Bool, true, false, Option, none, some, List, [], ◌∷◌, ltb,
  ◌==◌, arith, Bool-cases,
}
use hyperbot.Prelude.Counts.{count, SameElements}
use hyperbot.Broker.Timers.{
  Timer, TimerManager, less, HeapAlgorithms, front_time, cancel_timer, erase_id,
}
use hyperbot.Broker.Timers.Register.{earlier, none_earlier}

abbrev pub has_id : {T : Type 0} → ℕ → Timer T → Bool
has_id id t = t.id == id

module _ {T : Type 0} where
  abbrev pub Erased : ℕ → List (Timer T) → Option (List (Timer T)) → Type 0
  Erased id ts none = count (has_id id) ts ≡ 0
  Erased id ts (some us) = (t : Timer T) × (t.id ≡ id) × SameElements (t ∷ us) ts

  erase_id-Erased : (id : ℕ) (ts : List (Timer T)) → Erased id ts (erase_id id ts)
  unfolding erase_id
  erase_id-Erased id [] = refl
  erase_id-Erased id (t ∷ ts) = elim (Bool-cases (t.id == id)) [
    | inl e ↦ rw (e) (t, ground arith, λ p. refl)
    | inr e ↦ rw (e) (further id t ts (erase_id id ts) e (erase_id-Erased id ts))
  ]
    where
      further :
          (id : ℕ) (t : Timer T) (ts : List (Timer T)) (rest : Option (List (Timer T)))
          → (t.id == id) ≡ false
          → Erased id ts rest
          → Erased id (t ∷ ts) (elim rest [ none ↦ none | some us ↦ some (t ∷ us) ])
      further id t ts none e h = ground arith
      further id t ts (some us) e (u, same_id, same) = (u, same_id, λ p. omega (arith, same p))

module _ {T : Type 0} (algorithms : HeapAlgorithms (Timer T) less) where
  no_sooner :
      (ts us : List (Timer T)) (t : Timer T)
      → algorithms.IsHeap ts
      → SameElements (t ∷ us) ts
      → (vs : List (Timer T)) → SameElements vs us
      → 0 < count (λ x. true) vs
      → ltb (front_time vs) (front_time ts) ≡ false
  no_sooner ts us t heap same [] again some_left = absurd (omega arith)
  no_sooner ts us t heap same (v ∷ vs) again some_left = ground (
    arith,
    same (earlier (front_time ts)),
    again (earlier (front_time ts)),
    none_earlier algorithms ts (front_time ts) heap,
  )

  abbrev pub Cancelled : TimerManager T → ℕ → TimerManager T × Bool × Bool → Type 0
  Cancelled m id r =
      ((count (has_id id) (m.heap) ≡ 0) × (r ≡ (m, false, false)))
      ⊎ ((after : TimerManager T) × (t : Timer T) × (r ≡ (after, true, false))
          × (t.id ≡ id)
          × SameElements (t ∷ after.heap) (m.heap)
          × algorithms.IsHeap (after.heap)
          × (after.id_counter ≡ m.id_counter))

  Erased-Cancelled :
      (m : TimerManager T) (id : ℕ) (o : Option (List (Timer T)))
      → algorithms.IsHeap (m.heap)
      → erase_id id (m.heap) ≡ o
      → Erased id (m.heap) o
      → Cancelled m id (cancel_timer algorithms m id)
  unfolding cancel_timer
  Erased-Cancelled m id none heap e h = rw (cancel_timer, e) (inl (h, refl))
  Erased-Cancelled m id (some []) heap e (t, same_id, same) =
      rw (cancel_timer, e)
        (inr (
          record { heap = []; id_counter = m.id_counter },
          t,
          refl,
          same_id,
          same,
          algorithms.empty_heap,
          refl,
        ))
  Erased-Cancelled m id (some (u ∷ us)) heap e (t, same_id, same) =
      let made = algorithms.make_heap_keeps (u ∷ us) in
      rw (cancel_timer, e)
        (inr (
          record { heap = algorithms.make_heap (u ∷ us); id_counter = m.id_counter },
          t,
          ap
              (λ b. (
                record { heap = algorithms.make_heap (u ∷ us); id_counter = m.id_counter },
                true,
                b,
              ))
              (no_sooner (m.heap) (u ∷ us) t heap same (algorithms.make_heap (u ∷ us)) made
                (omega (arith, made (λ x. true)))),
          same_id,
          λ p. omega (arith, same p, made p),
          algorithms.make_heap-IsHeap (u ∷ us),
          refl,
        ))

  -- Cancelling an id that no timer has answers false and changes nothing. Cancelling another one
  -- answers true, removes one timer of that id, leaves a heap, and never wakes the thread.
  pub cancel_timer_removes :
      (m : TimerManager T) (id : ℕ)
      → algorithms.IsHeap (m.heap)
      → Cancelled m id (cancel_timer algorithms m id)
  cancel_timer_removes m id heap =
      Erased-Cancelled m id (erase_id id (m.heap)) heap refl (erase_id-Erased id (m.heap))
