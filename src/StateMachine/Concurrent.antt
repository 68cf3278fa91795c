-- ===== src/StateMachine/Concurrent.antt =====
-- A set of machines that run beside each other, against one pass over them.
use hyperbot.Prelude.{
  ℕ, suc, ◌+◌, ◌≡◌, refl, ap, ◌∙◌, inl, inr, none, some, List, [], ◌∷◌, ◌++◌, length, get_elem?,
  set, Result, ok, err, ◌>>=◌, Result-cases, arith,
}
use mathlib.Core.List.{append_assoc}
use hyperbot.StateMachine.{Status, done, not_done, erase_at, run_from, concurrent_on_update}
use hyperbot.StateMachine.Sequence.{status_of}

module _ {ℓ} {A : Type ℓ} where
  get_elem?-append :
      (before after : List A) (x : A) → get_elem? (before ++ x ∷ after) (length before) ≡ some x
  get_elem?-append [] after x = refl
  get_elem?-append (y ∷ ys) after x = get_elem?-append ys after x

  get_elem?-end : (before : List A) → get_elem? (before ++ []) (length before) ≡ none
  get_elem?-end [] = refl
  get_elem?-end (y ∷ ys) = get_elem?-end ys

  erase_at-append :
      (before after : List A) (x : A)
      → erase_at (length before) (before ++ x ∷ after) ≡ before ++ after
  erase_at-append [] after x = refl
  erase_at-append (y ∷ ys) after x = ap (◌∷◌ y) (erase_at-append ys after x)

  set-append :
      (before after : List A) (x z : A)
      → set (before ++ x ∷ after) (length before) z ≡ (before ++ z ∷ []) ++ after
  set-append [] after x z = refl
  set-append (y ∷ ys) after x z = ap (◌∷◌ y) (set-append ys after x z)

  length-snoc : (before : List A) (x : A) → length (before ++ x ∷ []) ≡ length before + 1
  length-snoc [] x = omega arith
  length-snoc (y ∷ ys) x = omega (arith, length-snoc ys x)

abbrev pub keep {ℓ} : {A : Type ℓ} → Status → A → List A → List A
keep done m rest = rest
keep not_done m rest = m ∷ rest

module _ {M W X : Type 0} (on_update : M → W → Result X (M × W × Status)) where
  -- One pass: each machine is updated once, in order, and those that are done are left out.
  pub pass : List M → W → Result X (List M × W)
  pass [] w = ok ([], w)
  pass (m ∷ rest) w = do
    (m', w', status) ← on_update m w
    (left, w'') ← pass rest w'
    ok (keep status m' left, w'')

  abbrev behind : List M → Result X (List M × W) → Result X (List M × W)
  behind before r = r >>= λ x. ok (before ++ x.0, x.1)

  round_done :
      (fuel : ℕ) (before rest : List M) (m m' : M) (w w' : W)
      → on_update m w ≡ ok (m', w', done)
      → run_from on_update (suc fuel) (length before) (before ++ m ∷ rest) w
        ≡ run_from on_update fuel (length before) (before ++ rest) w'
  unfolding run_from
  round_done fuel before rest m m' w w' u =
      rw (get_elem?-append before rest m, run_from)
        (rw (u) (rw (erase_at-append before rest m) refl))

  round_not_done :
      (fuel : ℕ) (before rest : List M) (m m' : M) (w w' : W)
      → on_update m w ≡ ok (m', w', not_done)
      → run_from on_update (suc fuel) (length before) (before ++ m ∷ rest) w
        ≡ run_from on_update fuel (length (before ++ m' ∷ [])) ((before ++ m' ∷ []) ++ rest) w'
  unfolding run_from
  round_not_done fuel before rest m m' w w' u =
      rw (get_elem?-append before rest m, run_from)
        (rw (u) (rw (set-append before rest m m', length-snoc before m') refl))

  round_fails :
      (fuel : ℕ) (before rest : List M) (m : M) (w : W) (x : X)
      → on_update m w ≡ err x
      → run_from on_update (suc fuel) (length before) (before ++ m ∷ rest) w ≡ err x
  unfolding run_from
  round_fails fuel before rest m w x u = rw (get_elem?-append before rest m, run_from) (rw (u) refl)

  behind-keep :
      (before : List M) (m' : M) (r : Result X (List M × W))
      → behind (before ++ m' ∷ []) r ≡ behind before (r >>= λ x. ok (m' ∷ x.0, x.1))
  behind-keep before m' (ok (left, w)) =
      ap (λ (l : List M). ok (l, w)) (append_assoc before (m' ∷ []) left)
  behind-keep before m' (err x) = refl

  behind-ok :
      (before : List M) (r : Result X (List M × W))
      → behind before r ≡ behind before (r >>= λ x. ok (x.0, x.1))
  behind-ok before (ok r) = refl
  behind-ok before (err x) = refl

  -- The status that follows from what is left.
  abbrev pub with_status : Result X (List M × W) → Result X (List M × W × Status)
  with_status (ok (left, w)) = ok (left, w, status_of left)
  with_status (err x) = err x

  finish :
      (r : Result X (List M × W))
      → (behind [] r >>= λ x.
          (let s : Result X (List M × W × Status) = ok (x.0, x.1, status_of x.0) in s))
        ≡ with_status r
  finish (ok r) = refl
  finish (err x) = refl

  pass_after :
      (before rest : List M) (m m' : M) (w w' : W) (status : Status)
      → ((b : List M)
          → run_from on_update (length rest) (length b) (b ++ rest) w' ≡ behind b (pass rest w'))
      → on_update m w ≡ ok (m', w', status)
      → run_from on_update (suc (length rest)) (length before) (before ++ m ∷ rest) w
        ≡ behind before (pass (m ∷ rest) w)
  unfolding pass
  pass_after before rest m m' w w' done further u =
      round_done (length rest) before rest m m' w w' u
      ∙ further before
      ∙ rw (u) (behind-ok before (pass rest w'))
  pass_after before rest m m' w w' not_done further u =
      round_not_done (length rest) before rest m m' w w' u
      ∙ further (before ++ m' ∷ [])
      ∙ behind-keep before m' (pass rest w')
      ∙ rw (u) refl

  run_from-pass :
      (before after : List M) (w : W)
      → run_from on_update (length after) (length before) (before ++ after) w
        ≡ behind before (pass after w)
  unfolding run_from pass
  run_from-pass before [] w = refl
  run_from-pass before (m ∷ rest) w = elim (Result-cases (on_update m w)) [
    | inl ((m', w', status), u) ↦
        pass_after before rest m m' w w' status (λ b. run_from-pass b rest w') u
    | inr (x, u) ↦ round_fails (length rest) before rest m w x u ∙ rw (u) refl
  ]

  -- An update of a set of machines of any class updates each machine exactly once, in their order, and
  -- drops exactly those that answer done, whatever their places; it throws what the first of them
  -- throws, and answers done exactly when no machine is left.
  pub concurrent_on_update-pass :
      (machines : List M) (w : W)
      → concurrent_on_update on_update machines w ≡ with_status (pass machines w)
  unfolding concurrent_on_update
  concurrent_on_update-pass machines w = rw (run_from-pass [] machines w) (finish (pass machines w))
