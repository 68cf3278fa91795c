-- ===== src/StateMachine/Blocking.antt =====
-- What a push and a release do to the blocked opcodes, and what a machine holds
-- (bot/src/state/machine/stateMachine.cpp, Proxy::blockOpcode and unblockOpcode).
pub mod Lifetimes
use hyperbot.Prelude.{
  ℕ, ◌≡◌, refl, sym, subst, ap, ◌∙◌, true, false, List, [], ◌∷◌, ◌++◌, ◌==◌, if◌then◌else◌,
  Bool-cases, inl, inr, arith,
}
use hyperbot.StateMachine.{
  Proxy, blocking_opcode, block_opcode, unblock_opcode, push_blocked_opcode, release,
}

pub blocking-block_opcode :
    (proxy : Proxy) (opcode x : ℕ)
    → blocking_opcode (block_opcode proxy opcode) x
      ≡ (if opcode == x then true else blocking_opcode proxy x)
unfolding block_opcode blocking_opcode
blocking-block_opcode proxy opcode x = elim (Bool-cases (blocking_opcode proxy opcode)) [
  | inl old ↦ elim (Bool-cases (opcode == x)) [
    | inl same ↦ rw (old, same) (ground (arith, old, same))
    | inr other ↦ rw (old, other) refl
  ]
  | inr new ↦ rw (new) refl
]

pub blocking-unblock_opcode :
    (proxy : Proxy) (opcode x : ℕ)
    → blocking_opcode (unblock_opcode proxy opcode) x
      ≡ (if opcode == x then false else blocking_opcode proxy x)
unfolding unblock_opcode blocking_opcode
blocking-unblock_opcode [] opcode x = ground arith
blocking-unblock_opcode (o ∷ rest) opcode x = ground (arith, blocking-unblock_opcode rest opcode x)

pub blocking-release :
    (own : List ℕ) (proxy : Proxy) (x : ℕ)
    → blocking_opcode (release proxy own) x
      ≡ (if blocking_opcode own x then false else blocking_opcode proxy x)
unfolding release blocking_opcode
blocking-release [] proxy x = refl
blocking-release (o ∷ rest) proxy x =
    ground
      (arith, blocking-release rest (unblock_opcode proxy o) x, blocking-unblock_opcode proxy o x)

blocking-append :
    (own : List ℕ) (opcode x : ℕ)
    → blocking_opcode (own ++ opcode ∷ []) x ≡ (if blocking_opcode own x then true else opcode == x)
unfolding blocking_opcode
blocking-append [] opcode x = ground arith
blocking-append (o ∷ rest) opcode x = ground (arith, blocking-append rest opcode x)

pushes_blocked :
    (proxy : Proxy) (own : List ℕ) (opcode : ℕ)
    → blocking_opcode proxy opcode ≡ true
    → push_blocked_opcode proxy own opcode ≡ (proxy, own)
unfolding push_blocked_opcode
pushes_blocked proxy own opcode old = rw (old) refl

pushes_new :
    (proxy : Proxy) (own : List ℕ) (opcode : ℕ)
    → blocking_opcode proxy opcode ≡ false
    → push_blocked_opcode proxy own opcode ≡ (block_opcode proxy opcode, own ++ opcode ∷ [])
unfolding push_blocked_opcode
pushes_new proxy own opcode new = rw (new) refl

same_opcode :
    (proxy : Proxy) (opcode x : ℕ)
    → (opcode == x) ≡ true
    → blocking_opcode proxy opcode ≡ blocking_opcode proxy x
same_opcode proxy opcode x same = ap (λ (o : ℕ). blocking_opcode proxy o) (ground arith)

pub blocking-push :
    (proxy : Proxy) (own : List ℕ) (opcode x : ℕ)
    → blocking_opcode (push_blocked_opcode proxy own opcode).0 x
      ≡ (if opcode == x then true else blocking_opcode proxy x)
blocking-push proxy own opcode x = elim (Bool-cases (blocking_opcode proxy opcode)) [
  | inl old ↦
      ap (λ r. blocking_opcode (r.0) x) (pushes_blocked proxy own opcode old)
      ∙ ground (arith, old, same_opcode proxy opcode x)
  | inr new ↦
      ap (λ r. blocking_opcode (r.0) x) (pushes_new proxy own opcode new)
      ∙ blocking-block_opcode proxy opcode x
]

-- What a machine holds is blocked, and was not before it came.
pub record Owns (before proxy : Proxy) (own : List ℕ) : Type 0 where
  pub splits :
      (x : ℕ)
      → blocking_opcode proxy x ≡ (if blocking_opcode own x then true else blocking_opcode before x)
  pub apart : (x : ℕ) → blocking_opcode own x ≡ true → blocking_opcode before x ≡ false

abbrev pub OwnsPair : Proxy → Proxy × List ℕ → Type 0
OwnsPair before r = Owns before r.0 r.1

Owns-new :
    (before proxy : Proxy) (own : List ℕ) (opcode : ℕ)
    → Owns before proxy own
    → blocking_opcode proxy opcode ≡ false
    → Owns before (block_opcode proxy opcode) (own ++ opcode ∷ [])
Owns-new before proxy own opcode h new = record {
  splits = λ x.
      ground
        (arith, h.splits x, blocking-block_opcode proxy opcode x, blocking-append own opcode x);
  apart = λ x has.
      ground
        (arith, h.apart x, h.splits x, blocking-append own opcode x, same_opcode proxy opcode x);
}

pub push_blocked_opcode-Owns :
    (before proxy : Proxy) (own : List ℕ) (opcode : ℕ)
    → Owns before proxy own
    → OwnsPair before (push_blocked_opcode proxy own opcode)
push_blocked_opcode-Owns before proxy own opcode h =
    elim (Bool-cases (blocking_opcode proxy opcode)) [
      | inl old ↦ subst (OwnsPair before) (sym (pushes_blocked proxy own opcode old)) h
      | inr new ↦
          subst (OwnsPair before) (sym (pushes_new proxy own opcode new))
            (Owns-new before proxy own opcode h new)
    ]
