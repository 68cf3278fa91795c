-- ===== src/StateMachine/Blocking/Lifetimes.antt =====
-- Machines whose lives are nested: each pushes opcodes, lets others live within its own life, and
-- releases what it holds when it is destroyed (bot/src/state/machine/stateMachine.cpp).
use hyperbot.Prelude.{ℕ, ◌≡◌, refl, ◌∙◌, true, List, [], ◌∷◌, if◌then◌else◌, arith}
use hyperbot.StateMachine.{Proxy, blocking_opcode, push_blocked_opcode, release}
use hyperbot.StateMachine.Blocking.{
  blocking-push, blocking-release, Owns, OwnsPair, push_blocked_opcode-Owns,
}

-- What a machine has done up to now: pushed opcodes, and contained machines that have come and gone.
pub data Life : Type 0 where
  starts : Life
  pushes : Life → ℕ → Life
  contains : Life → Life → Life

-- The blocked opcodes, and those that the machine holds.
unfoldable pub run_life : Proxy → Life → Proxy × List ℕ
run_life proxy starts = (proxy, [])
run_life proxy (pushes life opcode) =
    let (now, own) = run_life proxy life in push_blocked_opcode now own opcode
run_life proxy (contains life child) =
    let (now, own) = run_life proxy life in
    let (after, held) = run_life now child in (release after held, own)

-- The machine's own pushes.
abbrev pub own_pushes : Life → List ℕ
own_pushes starts = []
own_pushes (pushes life opcode) = opcode ∷ own_pushes life
own_pushes (contains life child) = own_pushes life

release-Owns :
    (before proxy : Proxy) (own : List ℕ) (x : ℕ)
    → Owns before proxy own
    → blocking_opcode (release proxy own) x ≡ blocking_opcode before x
release-Owns before proxy own x h =
    blocking-release own proxy x ∙ ground (arith, h.splits x, h.apart x)

run_life-Owns : (proxy : Proxy) (life : Life) → OwnsPair proxy (run_life proxy life)
unfolding run_life
run_life-Owns proxy starts = record {
  splits = λ x. unfold blocking_opcode in refl;
  apart = λ x has. absurd (unfold blocking_opcode in cc);
}
run_life-Owns proxy (pushes life opcode) =
    let r = run_life proxy life in
    push_blocked_opcode-Owns proxy r.0 r.1 opcode (run_life-Owns proxy life)
run_life-Owns proxy (contains life child) =
    let r = run_life proxy life in
    let c = run_life r.0 child in
    let h = run_life-Owns proxy life in
    record {
      splits = λ x. release-Owns r.0 c.0 c.1 x (run_life-Owns r.0 child) ∙ h.splits x;
      apart = h.apart;
    }

run_life-blocking :
    (proxy : Proxy) (life : Life) (x : ℕ)
    → blocking_opcode (run_life proxy life).0 x
      ≡ (if blocking_opcode (own_pushes life) x then true else blocking_opcode proxy x)
unfolding run_life blocking_opcode
run_life-blocking proxy starts x = refl
run_life-blocking proxy (pushes life opcode) x =
    let r = run_life proxy life in
    blocking-push r.0 r.1 opcode x ∙ ground (arith, run_life-blocking proxy life x)
run_life-blocking proxy (contains life child) x =
    let r = run_life proxy life in
    let c = run_life r.0 child in
    release-Owns r.0 c.0 c.1 x (run_life-Owns r.0 child) ∙ run_life-blocking proxy life x

-- Let machines live nested: whichever comes while a machine lives is destroyed before that machine
-- does anything more; and let opcodes be blocked by pushes and unblocked by destruction alone. Then, whatever such machines a machine has contained and whichever opcodes
-- they pushed, exactly the opcodes that it pushed itself are blocked beside those that were blocked
-- before it came; and when it is destroyed, exactly those from before it came are blocked.
pub release-run_life :
    (proxy : Proxy) (life : Life) (x : ℕ)
    → (blocking_opcode (run_life proxy life).0 x
        ≡ (if blocking_opcode (own_pushes life) x then true else blocking_opcode proxy x))
      × (blocking_opcode (release (run_life proxy life).0 (run_life proxy life).1) x
          ≡ blocking_opcode proxy x)
release-run_life proxy life x = (
  run_life-blocking proxy life x,
  release-Owns proxy (run_life proxy life).0 (run_life proxy life).1 x (run_life-Owns proxy life),
)
