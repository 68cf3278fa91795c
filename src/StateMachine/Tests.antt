-- ===== src/StateMachine/Tests.antt =====
-- Runs of the machines' base, and its theorems at concrete machines.
use hyperbot.Prelude.{
  ℕ, zero, suc, ◌+◌, ◌≡◌, ◌↔◌, refl, true, false, List, [], ◌∷◌, ltb, if◌then◌else◌, Result, ok,
}
use hyperbot.StateMachine.{
  Status, done, not_done, blocking_opcode, release, push_blocked_opcode, block_opcode,
  unblock_opcode, sequential_on_update, concurrent_on_update,
}
use hyperbot.StateMachine.Blocking.Lifetimes.{
  Life, starts, pushes, contains, run_life, own_pushes, release-run_life,
}
use hyperbot.StateMachine.Sequence.{Runs, status_of, sequential_on_update-Runs}
use hyperbot.StateMachine.Concurrent.{pass, with_status, concurrent_on_update-pass}

-- A machine that wants a number of updates more; the world counts the updates.
abbrev counting : ℕ → ℕ → Result ℕ (ℕ × ℕ × Status)
counting zero w = ok (0, w + 1, done)
counting (suc n) w = ok (n, w + 1, not_done)

sequence_run :
    sequential_on_update counting (0 ∷ 0 ∷ 2 ∷ 0 ∷ []) 10 ≡ ok (1 ∷ 0 ∷ [], 13, true, not_done)
unfolding sequential_on_update
sequence_run = refl

set_run : concurrent_on_update counting (0 ∷ 1 ∷ 0 ∷ 0 ∷ []) 10 ≡ ok (0 ∷ [], 14, not_done)
unfolding concurrent_on_update
set_run = refl

-- A machine that pushes an opcode and contains one that pushes it too, and another one.
abbrev parent_life : Life
parent_life = contains (pushes starts 0x7034) (pushes (pushes starts 0x7034) 0x7021)

release-run_life_example :
    (blocking_opcode (run_life (0x7045 ∷ []) parent_life).0 0x7034 ≡ (
      if blocking_opcode (own_pushes parent_life) 0x7034
      then true
      else blocking_opcode (0x7045 ∷ []) 0x7034))
    × (blocking_opcode
          (release (run_life (0x7045 ∷ []) parent_life).0 (run_life (0x7045 ∷ []) parent_life).1)
          0x7034
        ≡ blocking_opcode (0x7045 ∷ []) 0x7034)
release-run_life_example = release-run_life (0x7045 ∷ []) parent_life 0x7034

-- Two machines whose lives overlap: the opcode that both pushed is not blocked any more when the
-- first is destroyed, while the second lives.
overlapping_run :
    let first = push_blocked_opcode [] [] 0x7034 in
    let second = push_blocked_opcode first.0 [] 0x7034 in
    blocking_opcode (release second.0 first.1) 0x7034 ≡ false
unfolding push_blocked_opcode release blocking_opcode block_opcode unblock_opcode
overlapping_run = refl

abbrev left_over : List ℕ
left_over = 1 ∷ 0 ∷ []

sequential_on_update-Runs_example :
    (sequential_on_update counting (0 ∷ 0 ∷ 2 ∷ 0 ∷ []) 10
      ≡ ok (1 ∷ 0 ∷ [], 13, ltb 2 4, status_of left_over))
    ↔ Runs counting (0 ∷ 0 ∷ 2 ∷ 0 ∷ []) 10 (1 ∷ 0 ∷ []) 13
sequential_on_update-Runs_example =
    sequential_on_update-Runs counting (0 ∷ 0 ∷ 2 ∷ 0 ∷ []) (1 ∷ 0 ∷ []) 10 13

concurrent_on_update-pass_example :
    concurrent_on_update counting (0 ∷ 1 ∷ 0 ∷ 0 ∷ []) 10
    ≡ with_status counting (pass counting (0 ∷ 1 ∷ 0 ∷ 0 ∷ []) 10)
concurrent_on_update-pass_example = concurrent_on_update-pass counting (0 ∷ 1 ∷ 0 ∷ 0 ∷ []) 10
