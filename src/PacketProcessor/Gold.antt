-- ===== src/PacketProcessor/Gold.antt =====
-- The gold of the storage and of the guild storage over a session.
use hyperbot.Prelude.{
  ℕ, ◌+◌, ◌%◌, ◌^◌, ◌<◌, ◌≡◌, refl, ◌∙◌, List, [], ◌∷◌, ok, OnSuccess, OnSuccess->>=, OnSuccess-ok,
  arith,
}
use hyperbot.PacketProcessor.{
  SelfState, ItemMovement, Event, chest_withdraw_gold, chest_deposit_gold, guild_chest_deposit_gold,
  guild_chest_withdraw_gold, update_slots_inventory, process, process_all,
}

-- The movements of gold, of amounts that are uint64_t.
abbrev pub IsGold : ItemMovement → Type 0
IsGold (chest_withdraw_gold n) = n < 2 ^ 64
IsGold (chest_deposit_gold n) = n < 2 ^ 64
IsGold (guild_chest_deposit_gold n) = n < 2 ^ 64
IsGold (guild_chest_withdraw_gold n) = n < 2 ^ 64
IsGold _ = ⊥

abbrev pub AllGold : List ItemMovement → Type 0
AllGold [] = Unit {0}
AllGold (m ∷ rest) = IsGold m × AllGold rest

abbrev pub sum_by : (ItemMovement → ℕ) → List ItemMovement → ℕ
sum_by f [] = 0
sum_by f (m ∷ rest) = f m + sum_by f rest

abbrev pub deposited : ItemMovement → ℕ
deposited (chest_deposit_gold n) = n
deposited _ = 0

abbrev pub withdrawn : ItemMovement → ℕ
withdrawn (chest_withdraw_gold n) = n
withdrawn _ = 0

abbrev pub guild_deposited : ItemMovement → ℕ
guild_deposited (guild_chest_deposit_gold n) = n
guild_deposited _ = 0

abbrev pub guild_withdrawn : ItemMovement → ℕ
guild_withdrawn (guild_chest_withdraw_gold n) = n
guild_withdrawn _ = 0

-- The balance of a session: the storage's gold grows by what is deposited there; the guild storage's
-- grows by what is withdrawn from it.
abbrev pub Balances : SelfState → ℕ → ℕ → ℕ → ℕ → SelfState → Type 0
Balances s d w gd gw s' =
    ((s'.storage_gold + w) % 2 ^ 64 ≡ (s.storage_gold + d) % 2 ^ 64)
    × ((s'.guild_gold + gd) % 2 ^ 64 ≡ (s.guild_gold + gw) % 2 ^ 64)
    × (s'.inventory_items ≡ s.inventory_items)

process-Balances :
    (s : SelfState) (m : ItemMovement)
    → IsGold m
    → OnSuccess
        (λ r. Balances s (deposited m) (withdrawn m) (guild_deposited m) (guild_withdrawn m) r.0)
        (process s m)
unfolding process
process-Balances s (chest_withdraw_gold n) h = (omega arith, refl, refl)
process-Balances s (chest_deposit_gold n) h = (omega arith, refl, refl)
process-Balances s (guild_chest_deposit_gold n) h = (refl, omega arith, refl)
process-Balances s (guild_chest_withdraw_gold n) h = (refl, omega arith, refl)
process-Balances s (update_slots_inventory src dest quantity) h = absurd h
process-Balances s _ h = absurd h

all-Balances :
    (s : SelfState) (ms : List ItemMovement)
    → AllGold ms
    → OnSuccess
        (λ r.
          Balances s
            (sum_by deposited ms)
            (sum_by withdrawn ms)
            (sum_by guild_deposited ms)
            (sum_by guild_withdrawn ms)
            r.0)
        (process_all s ms)
unfolding process_all
all-Balances s [] h = (refl, refl, refl)
all-Balances s (m ∷ rest) h =
    OnSuccess->>=
      (λ r. Balances s (deposited m) (withdrawn m) (guild_deposited m) (guild_withdrawn m) r.0)
      (λ r.
        Balances s (sum_by deposited (m ∷ rest)) (sum_by withdrawn (m ∷ rest))
          (sum_by guild_deposited (m ∷ rest)) (sum_by guild_withdrawn (m ∷ rest)) r.0)
      (process s m) _ (process-Balances s m h.0)
      λ (s', events) c.
        OnSuccess->>=
          (λ r.
            Balances s' (sum_by deposited rest) (sum_by withdrawn rest)
              (sum_by guild_deposited rest) (sum_by guild_withdrawn rest) r.0)
          (λ r.
            Balances s (sum_by deposited (m ∷ rest)) (sum_by withdrawn (m ∷ rest))
              (sum_by guild_deposited (m ∷ rest)) (sum_by guild_withdrawn (m ∷ rest)) r.0)
          (process_all s' rest) _ (all-Balances s' rest h.1)
          λ (s'', later) d. (
            joins s.storage_gold s'.storage_gold s''.storage_gold (deposited m) (withdrawn m)
                (sum_by deposited rest) (sum_by withdrawn rest) c.0 d.0,
            joins s.guild_gold s'.guild_gold s''.guild_gold (guild_withdrawn m) (guild_deposited m)
                (sum_by guild_withdrawn rest) (sum_by guild_deposited rest) c.1 d.1,
            d.2 ∙ c.2,
          )
  where
    joins :
        (a b c d w d' w' : ℕ)
        → (b + w) % 2 ^ 64 ≡ (a + d) % 2 ^ 64
        → (c + w') % 2 ^ 64 ≡ (b + d') % 2 ^ 64
        → (c + (w + w')) % 2 ^ 64 ≡ (a + (d + d')) % 2 ^ 64
    joins a b c d w d' w' h k = omega arith

-- A response whose movements are all of gold, in amounts of sixty-four bits, and that is processed
-- without an exception, leaves the inventory as it was. Up to a wrap of the sixty-four bits, the gold
-- of the storage changes by the deposits less the withdrawals, and the gold of the guild storage by
-- the withdrawals less the deposits.
pub process_all-Balances :
    (s s' : SelfState) (ms : List ItemMovement) (events : List Event)
    → AllGold ms
    → process_all s ms ≡ ok (s', events)
    → Balances s
        (sum_by deposited ms)
        (sum_by withdrawn ms)
        (sum_by guild_deposited ms)
        (sum_by guild_withdrawn ms)
        s'
process_all-Balances s s' ms events h runs =
    OnSuccess-ok
      (λ r.
        Balances s (sum_by deposited ms) (sum_by withdrawn ms) (sum_by guild_deposited ms)
          (sum_by guild_withdrawn ms) r.0)
      (process_all s ms) (s', events) runs (all-Balances s ms h)
