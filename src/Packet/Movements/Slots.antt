-- ===== src/Packet/Movements/Slots.antt =====
-- The parsers of slots, of forced movements and of new items read their fields.
use hyperbot.Prelude.{ℕ, false, ◌≡◌, refl, Option, some, List, [], ◌∷◌, map, length, ◌==◌}
use hyperbot.Item.{ItemInfo, CosJob, Fresh}
use hyperbot.PacketProcessor.{ItemMovement}
use hyperbot.Packet.{Field, number, ascii, Streams, IsFifo}
use hyperbot.Packet.Decoding.{Decodes, Decodes->>=, Decodes-pure, read->>=, read_characters-Decodes}
use hyperbot.Packet.Items.{RentInfo}
use hyperbot.Packet.Items.RoundTrip.{generic-Decodes}
use hyperbot.Packet.Movements.{
  Movement, parse_slots_quantity, parse_secondary, parse_new_item, parse_gold_or_item,
  parse_pet_item, place_first,
}
use hyperbot.Packet.Movements.Handling.{handled, handled_all}
use hyperbot.Packet.Movements.Reports.{
  ShiftKind, in_inventory, take_off, put_on, Shift, shift_number, shift_fields, shift_movement,
  shift_meaning, SentItem, sent_item, sent_fields,
}

-- What the parser makes of a shift.
abbrev pub filled_shift : Movement → Shift → Movement
filled_shift blank s = record blank {
  type = shift_number s.kind;
  src_slot = s.src;
  dest_slot = s.dest;
  quantity = s.quantity;
}

shift-handled :
    (blank : Movement) (kind : ShiftKind) (src dest quantity : ℕ)
    → handled
        (filled_shift blank (record { kind = kind; src = src; dest = dest; quantity = quantity }))
      ≡ some (shift_movement kind src dest quantity)
unfolding handled
shift-handled blank in_inventory src dest quantity = refl
shift-handled blank take_off src dest quantity = refl
shift-handled blank put_on src dest quantity = refl

cons-handled :
    (m : Movement) (ms : List Movement) (x : ItemMovement) (xs : List ItemMovement)
    → handled m ≡ some x
    → handled_all ms ≡ some xs
    → handled_all (m ∷ ms) ≡ some (x ∷ xs)
unfolding handled_all
cons-handled m ms x xs h k = rw (h, handled_all) (rw (k) refl)

shifts-handled :
    (blank : Movement) (ss : List Shift)
    → handled_all (map (filled_shift blank) ss) ≡ some (map shift_meaning ss)
unfolding handled_all
shifts-handled blank [] = refl
shifts-handled blank (s ∷ ss) =
    cons-handled (filled_shift blank s) (map (filled_shift blank) ss) (shift_meaning s)
      (map shift_meaning ss) (shift-handled blank s.kind s.src s.dest s.quantity)
      (shifts-handled blank ss)

pub placed-handled :
    (blank : Movement) (s : Shift) (ss : List Shift)
    → handled_all (place_first (filled_shift blank s) (map (filled_shift blank) ss))
      ≡ some (shift_meaning s ∷ map shift_meaning ss)
placed-handled blank s [] = shifts-handled blank (s ∷ [])
placed-handled blank s (s' ∷ ss) = shifts-handled blank (s ∷ s' ∷ ss)

module _ (S : Streams) (fifo : IsFifo S) (fresh : Fresh) (blank_rent : RentInfo)
    (blank_job : CosJob) (item_data : ℕ → Option ItemInfo) where
  pub shift-Decodes :
      (blank : Movement) (s : Shift) (rest : List Field)
      → Decodes S
          (parse_secondary S fresh blank_rent blank_job item_data blank)
          (shift_fields s rest)
          (filled_shift blank s)
          rest
  unfolding parse_secondary parse_slots_quantity
  shift-Decodes blank s rest =
      read->>= S fifo _ (read->>= S fifo _ (read->>= S fifo _ (read->>= S fifo _ (Decodes-pure S))))

  pub new_item-Decodes :
      (m : Movement) (it : SentItem fresh blank_job item_data) (rest : List Field)
      → Decodes S
          (parse_new_item S fresh blank_rent blank_job item_data m)
          (sent_fields fresh blank_job item_data it rest)
          (record m { new_item = some (sent_item fresh blank_job item_data it) })
          rest
  unfolding parse_new_item
  new_item-Decodes m it rest =
      Decodes->>= S _
        (generic-Decodes S fifo fresh blank_rent blank_job item_data it.ref it.info it.blank it.rent
          rest it.known it.made it.same)
        (Decodes-pure S)

  pub picked-Decodes :
      (m : Movement) (dest : ℕ) (it : SentItem fresh blank_job item_data) (rest : List Field)
      → (dest == 0xFE) ≡ false
      → Decodes S
          (parse_gold_or_item S fresh blank_rent blank_job item_data m dest)
          (sent_fields fresh blank_job item_data it rest)
          (record m { dest_slot = dest; new_item = some (sent_item fresh blank_job item_data it) })
          rest
  unfolding parse_gold_or_item
  picked-Decodes m dest it rest no_gold =
      rw (no_gold) (new_item-Decodes (record m { dest_slot = dest }) it rest)

  pub pet_picked-Decodes :
      (m : Movement) (dest : ℕ) (it : SentItem fresh blank_job item_data) (owner : List ℕ)
      (rest : List Field)
      → (dest == 0xFE) ≡ false
      → Decodes S
          (parse_pet_item S fresh blank_rent blank_job item_data m dest)
          (sent_fields fresh blank_job item_data it (number 2 (length owner) ∷ ascii owner ∷ rest))
          (record m { dest_slot = dest; new_item = some (sent_item fresh blank_job item_data it) })
          rest
  unfolding parse_pet_item
  pet_picked-Decodes m dest it owner rest no_gold = rw (no_gold) (
      Decodes->>= S _ (new_item-Decodes (record m { dest_slot = dest }) it _)
        (read->>= S fifo _ (Decodes->>= S _ (read_characters-Decodes S fifo) (Decodes-pure S))))
