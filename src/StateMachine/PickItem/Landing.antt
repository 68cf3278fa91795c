-- ===== src/StateMachine/PickItem/Landing.antt =====
-- When a task that picks an item is done, and when it sends a request.
use hyperbot.Prelude.{
  ℕ, ◌≤◌, ◌≡◌, refl, sym, ap, subst, Bool, true, false, ◌&&◌, ◌||◌, Option, none, some, List, [],
  ◌∷◌, if◌then◌else◌, Result, ◌>>=◌, OnSuccess, OnSuccess->>=, OnSuccess-mono, arith,
}
use hyperbot.StateMachine.{Status, done, not_done}
use hyperbot.StateMachine.Tasks.{pickup, Output, inject, publish, injections}
use hyperbot.StateMachine.MoveItem.Attempts.{injections-append}
use hyperbot.StateMachine.PickItem.Happening.{gone, landed, standing, Turns, handle_pick-Turns}
use hyperbot.StateMachine.PickItem.{
  PickItem, PickError, pick_task, Seen, initialize, handle_pick, try_pick_item, conclude_pick,
  on_update,
}

-- Updates up to the last; a parent would destroy a task that is done.
unfoldable pub run_pick :
    PickItem → ℕ → Seen → List Seen → Result PickError (PickItem × List Output × Status)
run_pick m self seen [] = on_update m self seen
run_pick m self seen (next ∷ log) =
    on_update m self seen >>= λ (m', outputs, status). run_pick m' self next log

-- Whether a test has held at some update, or before.
abbrev pub since : (Seen → Bool) → Bool → Seen → List Seen → Bool
since p before seen [] = p seen || before
since p before seen (next ∷ log) = since p (p seen || before) next log

abbrev pub last_of : Seen → List Seen → Seen
last_of seen [] = seen
last_of seen (next ∷ log) = last_of next log

-- The status and the most requests of an update, by what has happened to the target so far.
abbrev pub status_when : Bool → Bool → Bool → Status
status_when untouchable gone landed =
    if untouchable then not_done else if gone && landed then done else not_done

abbrev pub requests_when : Bool → Bool → Bool → ℕ
requests_when untouchable gone landed = if untouchable || (gone || landed) then 0 else 1

module _ (target ref : ℕ) where
  abbrev Updated : Bool → Bool → Bool → PickItem × List Output × Status → Type 0
  Updated u g l (m, outputs, status) =
      ((timer : Option ℕ) × (m ≡ standing target ref timer g l))
      × (status ≡ status_when u g l)
      × injections outputs ≤ requests_when u g l

  conclude_pick-Updated :
      (timer : Option ℕ) (u g l : Bool) (fresh : ℕ) (outputs : List Output)
      → injections outputs ≡ 0
      → Updated u g l (conclude_pick (standing target ref timer g l) u fresh outputs)
  unfolding conclude_pick try_pick_item
  conclude_pick-Updated timer true g l fresh outputs quiet =
      ((timer, refl), refl, omega (arith, quiet))
  conclude_pick-Updated timer false true true fresh outputs quiet =
      ((timer, refl), refl, omega (arith, quiet))
  conclude_pick-Updated timer false true false fresh outputs quiet =
      ((timer, refl), refl, omega (arith, quiet))
  conclude_pick-Updated timer false false true fresh outputs quiet =
      ((timer, refl), refl, omega (arith, quiet))
  conclude_pick-Updated (some id) false false false fresh outputs quiet =
      ((some id, refl), refl, omega (arith, quiet))
  conclude_pick-Updated none false false false fresh outputs quiet = (
    (some fresh, refl),
    refl,
    omega (arith, quiet, injections-append outputs (inject (pickup target) ∷ publish 1000 ∷ [])),
  )

  concluded :
      (u g l : Bool) (fresh : ℕ) (r : PickItem × List Output)
      → Turns target ref g l r
      → Updated u g l (conclude_pick r.0 u fresh r.1)
  concluded u g l fresh (m, outputs) ((timer, e), quiet) =
      subst (λ x. Updated u g l (conclude_pick x u fresh outputs)) (sym e)
        (conclude_pick-Updated timer u g l fresh outputs quiet)

  -- The tests on an update.
  abbrev gone_at : Seen → Bool
  gone_at seen = gone target seen.event

  abbrev landed_at : ℕ → Seen → Bool
  landed_at self seen = landed self ref seen.items seen.event

  on_update-Updated :
      (timer : Option ℕ) (g l : Bool) (self : ℕ) (seen : Seen)
      → OnSuccess
          (Updated seen.untouchable (gone_at seen || g) (landed_at self seen || l))
          (on_update (standing target ref timer g l) self seen)
  unfolding on_update initialize
  on_update-Updated timer g l self seen =
      let g' = gone_at seen || g in
      let l' = landed_at self seen || l in
      OnSuccess->>= (Turns target ref g' l') (Updated seen.untouchable g' l')
        (handle_pick (standing target ref timer g l) self seen.items seen.event) _
        (handle_pick-Turns target ref timer g l self seen.items seen.event)
        λ r t. concluded seen.untouchable g' l' seen.fresh r t

  run_pick-Updated :
      (timer : Option ℕ) (g l : Bool) (self : ℕ) (seen : Seen) (log : List Seen)
      → OnSuccess
          (Updated
            (last_of seen log).untouchable
            (since gone_at g seen log)
            (since (landed_at self) l seen log))
          (run_pick (standing target ref timer g l) self seen log)
  unfolding run_pick
  run_pick-Updated timer g l self seen [] = on_update-Updated timer g l self seen
  run_pick-Updated timer g l self seen (next ∷ log) =
      let g' = gone_at seen || g in
      let l' = landed_at self seen || l in
      let G = since gone_at g' next log in
      let L = since (landed_at self) l' next log in
      OnSuccess->>= (Updated seen.untouchable g' l') (Updated (last_of next log).untouchable G L)
        (on_update (standing target ref timer g l) self seen) _
        (on_update-Updated timer g l self seen)
        λ (m, outputs, status) ((timer', e), answer, few).
          subst
            (λ x. OnSuccess (Updated (last_of next log).untouchable G L) (run_pick x self next log))
            (sym e) (run_pick-Updated timer' g' l' self next log)

-- What the last update of a task answers and sends.
abbrev pub Answers : ℕ → ℕ → ℕ → Seen → List Seen → PickItem × List Output × Status → Type 0
Answers target ref self seen log (m, outputs, status) =
    let u = (last_of seen log).untouchable in
    let g = since (gone_at target ref) false seen log in
    let l = since (landed_at target ref self) false seen log in
    (status ≡ status_when u g l) × injections outputs ≤ requests_when u g l

started :
    (target self ref : ℕ) (seen : Seen)
    → seen.ref ≡ some ref
    → on_update (pick_task target) self seen
      ≡ on_update (standing target ref none false false) self seen
unfolding on_update initialize pick_task
started target self ref seen e = rw (e) refl

run_started :
    (target self ref : ℕ) (seen : Seen) (log : List Seen)
    → seen.ref ≡ some ref
    → run_pick (standing target ref none false false) self seen log
      ≡ run_pick (pick_task target) self seen log
unfolding run_pick
run_started target self ref seen [] e = sym (started target self ref seen e)
run_started target self ref seen (next ∷ log) e =
    ap (λ r. r >>= λ (m', outputs, status). run_pick m' self next log)
      (sym (started target self ref seen e))

answers :
    (target ref self : ℕ) (seen : Seen) (log : List Seen) (r : PickItem × List Output × Status)
    → Updated target ref
        (last_of seen log).untouchable
        (since (gone_at target ref) false seen log)
        (since (landed_at target ref self) false seen log)
        r
    → Answers target ref self seen log r
answers target ref self seen log (m, outputs, status) (stands, answer, few) = (answer, few)

-- Over any updates of a task that picks a target known at the first of them: unless one throws, the last
-- answers that the task is done exactly when by then the target has despawned and an item with its
-- reference id has come into the inventory by a move that has no source, in whichever order, and the
-- character can be touched. (An item that is withdrawn from another storage moves from a source.)
-- The last update sends at most one request, and none once either has happened or while the
-- character is untouchable.
pub run_pick-Answers :
    (target self ref : ℕ) (seen : Seen) (log : List Seen)
    → seen.ref ≡ some ref
    → OnSuccess (Answers target ref self seen log) (run_pick (pick_task target) self seen log)
run_pick-Answers target self ref seen log e =
    let u = (last_of seen log).untouchable in
    let g = since (gone_at target ref) false seen log in
    let l = since (landed_at target ref self) false seen log in
    subst (OnSuccess (Answers target ref self seen log)) (run_started target self ref seen log e) (
      OnSuccess-mono (Updated target ref u g l) (Answers target ref self seen log)
        (run_pick (standing target ref none false false) self seen log)
        (answers target ref self seen log)
        (run_pick-Updated target ref none false false self seen log))
