-- ===== src/StateMachine/Sequence.antt =====
-- A sequence of machines against the relation that says which of them run.
use hyperbot.Prelude.{
  ◌≤◌, ◌≡◌, ◌↔◌, refl, sym, subst, ◌∙◌, inl, inr, Bool, true, false, ◌||◌, List, [], ◌∷◌, ltb,
  length, Result, ok, err, Result-cases, ok-ne-err, ok-injective, arith,
}
use hyperbot.StateMachine.{Status, done, not_done, run_front, sequential_on_update}

abbrev pub status_of {ℓ} : {A : Type ℓ} → List A → Status
status_of [] = done
status_of (x ∷ xs) = not_done

module _ {M W X : Type 0} (on_update : M → W → Result X (M × W × Status)) where
  -- The machines run from the front as long as each is done; the first that is not stays in front.
  pub data Runs : List M → W → List M → W → Type 0 where
    empty : {w : W} → Runs [] w [] w
    pop :
        {m m' : M} {rest left : List M} {w w' w'' : W}
        → on_update m w ≡ ok (m', w', done)
        → Runs rest w' left w''
        → Runs (m ∷ rest) w left w''
    stop :
        {m m' : M} {rest : List M} {w w' : W}
        → on_update m w ≡ ok (m', w', not_done)
        → Runs (m ∷ rest) w (m' ∷ rest) w'

  Runs-length :
      {machines left : List M} {w w' : W} → Runs machines w left w' → length left ≤ length machines
  Runs-length empty = omega arith
  Runs-length (pop d r) = omega (arith, Runs-length r)
  Runs-length (stop n) = omega arith

  Runs-front :
      {machines left : List M} {w w' : W} (changed : Bool)
      → Runs machines w left w'
      → run_front on_update machines w changed
        ≡ ok (left, w', changed || ltb (length left) (length machines))
  unfolding run_front
  Runs-front changed empty = ground arith
  Runs-front changed (pop d r) = rw (d) (Runs-front true r ∙ ground (arith, Runs-length r))
  Runs-front changed (stop n) = rw (n) (ground arith)

  front_step :
      (m : M) (rest : List M) (w : W) (changed : Bool) (r : List M × W × Bool) (m' : M) (w' : W)
      (status : Status)
      → (run_front on_update rest w' true ≡ ok r → Runs rest w' r.0 r.1)
      → on_update m w ≡ ok (m', w', status)
      → run_front on_update (m ∷ rest) w changed ≡ ok r
      → Runs (m ∷ rest) w r.0 r.1
  unfolding run_front
  front_step m rest w changed r m' w' done further u e = pop u (further (sym (rw (u) refl) ∙ e))
  front_step m rest w changed r m' w' not_done further u e =
      subst (λ x. Runs (m ∷ rest) w x.0 x.1)
        (ok-injective (m' ∷ rest, w', changed) r (sym (rw (u) refl) ∙ e)) (stop u)

  fails :
      (m : M) (rest : List M) (w : W) (changed : Bool) (r : List M × W × Bool) (x : X)
      → on_update m w ≡ err x
      → run_front on_update (m ∷ rest) w changed ≡ ok r
      → ⊥
  unfolding run_front
  fails m rest w changed r x u e = ok-ne-err r x (sym e ∙ rw (u) refl)

  front-Runs :
      (machines : List M) (w : W) (changed : Bool) (r : List M × W × Bool)
      → run_front on_update machines w changed ≡ ok r
      → Runs machines w r.0 r.1
  unfolding run_front
  front-Runs [] w changed r e =
      subst (λ x. Runs [] w x.0 x.1) (ok-injective ([], w, changed) r e) empty
  front-Runs (m ∷ rest) w changed r e = elim (Result-cases (on_update m w)) [
    | inl ((m', w', status), u) ↦
        front_step m rest w changed r m' w' status (front-Runs rest w' true r) u e
    | inr (x, u) ↦ absurd (fails m rest w changed r x u e)
  ]

  -- An update of a sequence of machines of any class returns exactly when each machine from the front
  -- on answers that it is done, up to the first that is not, which then stands in front. The update
  -- answers done exactly when no machine is left, and reports a change exactly when one has gone.
  pub sequential_on_update-Runs :
      (machines left : List M) (w w' : W)
      → (sequential_on_update on_update machines w
          ≡ ok (left, w', ltb (length left) (length machines), status_of left))
        ↔ Runs machines w left w'
  unfolding sequential_on_update
  sequential_on_update-Runs machines left w w' = (
    λ e. elim (Result-cases (run_front on_update machines w false)) [
      | inl (r, u) ↦
          subst (λ (x : List M × W × Bool × Status). Runs machines w x.0 x.1)
            (ok-injective (r.0, r.1, r.2, status_of r.0)
              (left, w', ltb (length left) (length machines), status_of left)
              (sym (rw (u) refl) ∙ e))
            (front-Runs machines w false r u)
      | inr (x, u) ↦ absurd (
          ok-ne-err (left, w', ltb (length left) (length machines), status_of left) x
            (sym e ∙ rw (u) refl))
    ],
    λ r. rw (Runs-front false r) refl,
  )
