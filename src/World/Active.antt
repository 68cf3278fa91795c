-- ===== src/World/Active.antt =====
-- The three questions about the buffs of a character agree.
use hyperbot.Prelude.{
  ℕ, ◌≡◌, refl, ap, Bool, true, false, Option, List, [], ◌∷◌, ◌==◌, if◌then◌else◌, Bool-cases, inl,
  inr, ==_iff, Result, ok, err, arith,
}
use hyperbot.World.{BuffData, WorldError, buff_is_active, buff_cast_time, active_buffs}
use hyperbot.Prelude.Counts.{count}

abbrev pub succeeds : Result WorldError (Option ℕ) → Bool
succeeds (ok t) = true
succeeds (err e) = false

abbrev pub is_skill : ℕ → ℕ → Bool
is_skill skill x = x == skill

-- A skill is an active buff exactly when it is among the active buffs, where it stands once, and
-- exactly when asking for its cast time does not throw.
pub buff_is_active_lem :
    (buffs : List (ℕ × BuffData)) (skill : ℕ)
    → (count (is_skill skill) (active_buffs buffs) ≡ (if buff_is_active buffs skill then 1 else 0))
      × (succeeds (buff_cast_time buffs skill) ≡ buff_is_active buffs skill)
unfolding buff_is_active buff_cast_time active_buffs
buff_is_active_lem [] skill = (refl, refl)
buff_is_active_lem (buff ∷ buffs) skill =
    let (once, asked) = buff_is_active_lem buffs skill in
    (
      elim (Bool-cases (buff_is_active buffs (buff.1.skill_ref_id))) [
        | inl again ↦ elim (Bool-cases (buff.1.skill_ref_id == skill)) [
          | inl same ↦ ground (
            arith,
            once,
            again,
            ap (buff_is_active buffs) ((==_iff (buff.1.skill_ref_id) skill).0 same),
          )
          | inr other ↦ ground (arith, once, again)
        ]
        | inr new ↦ elim (Bool-cases (buff.1.skill_ref_id == skill)) [
          | inl same ↦ ground (
            arith,
            once,
            new,
            ap (buff_is_active buffs) ((==_iff (buff.1.skill_ref_id) skill).0 same),
          )
          | inr other ↦ ground (arith, once, new)
        ]
      ],
      ground (arith, asked),
    )
