-- ===== src/StateMachine.antt =====
-- bot/src/state/machine: the state machines that carry out the tasks of a character, and the opcodes
-- that the proxy blocks for them (bot/src/proxy.cpp). A machine reads the world and changes it
-- through what it puts out: packets, delayed events, blocked opcodes. An update returns the new
-- machine, its outputs in order and its status, or the exception. Logging is left out.
pub mod Tasks
pub mod Blocking
pub mod Sequence
pub mod Concurrent
pub mod MoveItem
pub mod SellingItems
pub mod PickItem
pub mod EquipItem
pub mod ApplyStatPoints
pub mod UseItem
pub mod BuyingItems
mod Tests
use hyperbot.Prelude.{
  ℕ, zero, suc, ◌+◌, ◌*◌, Bool, true, false, ◌&&◌, Option, none, some, List, [], ◌∷◌, ◌++◌, ◌==◌,
  if◌then◌else◌, length, get_elem?, set, Result, ok, err, ◌>>=◌,
}

-- Status
pub data Status : Type 0 where
  done not_done : Status

-- sro::storage::Storage
pub data StorageKind : Type 0 where
  inventory avatar_inventory cos_inventory storage guild_storage no_storage : StorageKind

abbrev pub same_kind : StorageKind → StorageKind → Bool
same_kind inventory inventory = true
same_kind avatar_inventory avatar_inventory = true
same_kind cos_inventory cos_inventory = true
same_kind storage storage = true
same_kind guild_storage guild_storage = true
same_kind no_storage no_storage = true
same_kind _ _ = false

-- sro::storage::Position
pub record Position : Type 0 where
  pub kind : StorageKind
  pub slot_num : ℕ

-- Position::operator==
abbrev pub same_position : Position → Position → Bool
same_position a b = same_kind a.kind b.kind && a.slot_num == b.slot_num

-- The proxy's set of blocked opcodes.
abbrev pub Proxy : Type 0
Proxy = List ℕ

-- blockingOpcode
unfoldable pub blocking_opcode : Proxy → ℕ → Bool
blocking_opcode [] opcode = false
blocking_opcode (o ∷ rest) opcode = if o == opcode then true else blocking_opcode rest opcode

-- blockOpcode
unfoldable pub block_opcode : Proxy → ℕ → Proxy
unfolding blocking_opcode
block_opcode blocked opcode = if blocking_opcode blocked opcode then blocked else opcode ∷ blocked

-- unblockOpcode
unfoldable pub unblock_opcode : Proxy → ℕ → Proxy
unblock_opcode [] opcode = []
unblock_opcode (o ∷ rest) opcode =
    let left = unblock_opcode rest opcode in if o == opcode then left else o ∷ left

-- pushBlockedOpcode: the machine remembers the opcodes that it was the one to block.
unfoldable pub push_blocked_opcode : Proxy → List ℕ → ℕ → Proxy × List ℕ
unfolding blocking_opcode block_opcode
push_blocked_opcode proxy own opcode =
    if blocking_opcode proxy opcode
    then (proxy, own)
    else (block_opcode proxy opcode, own ++ opcode ∷ [])

-- The loop of ~StateMachine.
unfoldable pub release : Proxy → List ℕ → Proxy
unfolding unblock_opcode
release proxy [] = proxy
release proxy (opcode ∷ rest) = release (unblock_opcode proxy opcode) rest

-- `v.erase(v.begin() + i)`
abbrev pub erase_at {ℓ} : {A : Type ℓ} → ℕ → List A → List A
erase_at n [] = []
erase_at zero (x ∷ xs) = xs
erase_at (suc n) (x ∷ xs) = x ∷ erase_at n xs

-- The machines of a sequence or of a set are of any class: `on_update` is the virtual call, on a
-- world that it may change. The flag counts a call of `sendActiveStateMachine`.
module _ {M W X : Type 0} (on_update : M → W → Result X (M × W × Status)) where
  -- The loop of SequentialStateMachines::onUpdate from the machine at the front: a machine that is
  -- done gives way to the next, which sees the same event at once.
  unfoldable pub run_front : List M → W → Bool → Result X (List M × W × Bool)
  run_front [] w changed = ok ([], w, changed)
  run_front (m ∷ rest) w changed = do
    (m', w', status) ← on_update m w
    elim status [ done ↦ run_front rest w' true | not_done ↦ ok (m' ∷ rest, w', changed) ]

  -- SequentialStateMachines::onUpdate
  unfoldable pub sequential_on_update : List M → W → Result X (List M × W × Bool × Status)
  unfolding run_front
  sequential_on_update machines w = do
    (left, w', changed) ← run_front machines w false
    ok (left, w', changed, elim left [ [] ↦ done | m ∷ ms ↦ not_done ])

  -- The loop of ConcurrentStateMachines::onUpdate: a machine that is done is erased, and the index
  -- stays. Each round brings the index nearer to the end, so as many rounds as machines are enough.
  unfoldable pub run_from : ℕ → ℕ → List M → W → Result X (List M × W)
  run_from zero i machines w = ok (machines, w)
  run_from (suc fuel) i machines w = elim (get_elem? machines i) [
    | none ↦ ok (machines, w)
    | some m ↦ on_update m w >>= λ (m', w', status). elim status [
      | done ↦ run_from fuel i (erase_at i machines) w'
      | not_done ↦ run_from fuel (i + 1) (set machines i m') w'
    ]
  ]

  -- ConcurrentStateMachines::onUpdate
  unfoldable pub concurrent_on_update : List M → W → Result X (List M × W × Status)
  unfolding run_from
  concurrent_on_update machines w = do
    (left, w') ← run_from (length machines) 0 machines w
    ok (left, w', elim left [ [] ↦ done | m ∷ ms ↦ not_done ])
