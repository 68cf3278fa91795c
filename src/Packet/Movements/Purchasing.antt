-- ===== src/Packet/Movements/Purchasing.antt =====
-- A purchase, from its packet to the inventory: what the parser of
-- bot/src/packet/parsing/serverAgentInventoryOperationResponse.cpp reads goes to the handler.
use hyperbot.Prelude.{
  member, Result, ℕ, ◌≡◌, refl, sym, ap, Option, none, some, List, [], ◌∷◌, ◌++◌, map, length, ok,
  if◌then◌else◌,
}
use hyperbot.Item.{Item}
use hyperbot.ItemList.{slot_at}
use hyperbot.PacketProcessor.{SelfState, item_moved, at}
use hyperbot.StateMachine.{inventory}
use hyperbot.Item.{ItemInfo, CosJob, Fresh}
use hyperbot.Packet.{ParseError, Field, number, Fits, Streams, written, IsFifo}
use hyperbot.Packet.Decoding.{
  each, Decodes, Decodes->>=, Decodes-pure, read->>=, read-Decodes, repeat-map, repeat-Decodes,
}
use hyperbot.Packet.Items.{RentInfo}
use hyperbot.Packet.Items.Encoding.{rent_fields, fill_rent}
use hyperbot.Packet.Items.RoundTrip.{rent-Decodes}
use hyperbot.Packet.Movements.{
  Movement, format, parse_one, parse_others, parse_purchase, parse_movements,
}
use hyperbot.Packet.Movements.Purchases.{
  bought_item, Free, set_each, slot_at-set_each, process_purchase, process_purchase-Free,
}
use hyperbot.Packet.Movements.Understanding.{one-Decodes}

-- What the server reports of a purchase: the tab and the slot of the shop, the slots that are filled,
-- the quantity, and a rent for each slot.
abbrev pub purchase_fields : ℕ → ℕ → List ℕ → ℕ → List RentInfo → List Field → List Field
purchase_fields tab slot slots quantity rents rest =
    number 1 8
    ∷ number 1 tab
    ∷ number 1 slot
    ∷ number 1 (length slots)
    ∷ each (λ s fields. number 1 s ∷ fields) slots (number 2 quantity ∷ each rent_fields rents rest)

-- A movement was read to the end of the packet; the handler put the item into the slots, with events that
-- name one slot, and reset the request.
pub record Purchased (S : Streams) (slots : List ℕ) (quantity : ℕ) (item : Item)
    (shop : Movement → Option Item) (request : Movement) (s : SelfState) (named : ℕ)
    (parsed : Result ParseError (List Movement × S.Stream)) : Type 0 where
  pub movement : Movement
  pub after : SelfState
  pub read_to_end : parsed ≡ ok (movement ∷ [], written S [])
  pub amount : movement.quantity ≡ quantity
  pub processed :
      process_purchase shop s (some request) movement
      ≡ ok (after, map (λ _. item_moved s.global_id none (at inventory named)) slots, none)
  pub others : after ≡ record s { inventory_items = after.inventory_items }
  pub filled :
      (j : ℕ)
      → slot_at after.inventory_items j ≡ (
          if member j slots
          then some (bought_item movement slots item)
          else slot_at s.inventory_items j)

module _ (S : Streams) (fifo : IsFifo S) (fresh : Fresh) (blank_rent : RentInfo)
    (blank_job : CosJob) (item_data : ℕ → Option ItemInfo) (blank : Movement) where
  abbrev purchase : ℕ → ℕ → List ℕ → ℕ → List RentInfo → Movement
  purchase tab slot slots quantity rents = record blank {
    type = 8;
    store_tab_number = tab;
    store_slot_number = slot;
    dest_slots = blank.dest_slots ++ slots;
    quantity = quantity;
    rent_infos = blank.rent_infos ++ map (fill_rent blank_rent) rents;
  }

  purchase-Decodes :
      (tab slot : ℕ) (slots : List ℕ) (quantity : ℕ) (rents : List RentInfo) (rest : List Field)
      → length rents ≡ length slots
      → Decodes S
          (parse_movements S fresh blank_rent blank_job item_data blank)
          (purchase_fields tab slot slots quantity rents rest)
          (purchase tab slot slots quantity rents ∷ [])
          rest
  unfolding format parse_one parse_others parse_purchase
  purchase-Decodes tab slot slots quantity rents rest same =
      one-Decodes S fifo fresh blank_rent blank_job item_data blank 8
        (read->>= S fifo _ (
          read->>= S fifo _ (
            read->>= S fifo _ (
              Decodes->>= S _
                (repeat-Decodes S (λ s after. read-Decodes S fifo {w = 1} {x = s} {rest = after})
                  slots)
                (read->>= S fifo _ (
                  rw (sym same) (
                    Decodes->>= S _
                      (repeat-map S (fill_rent blank_rent) (rent-Decodes S fifo blank_rent) rents)
                      (Decodes-pure S))))))))
        (Decodes-pure S)

  -- Let the stream be first in, first out, and let a parsed movement have no slots before. The parser
  -- reads a purchase that fits to its end. If the item that the user asked for is known, and the slots of
  -- the packet are different empty slots of the inventory, the handler puts the item into just these slots
  -- (with the quantity, if it is one slot) and resets the request. Each event that it publishes names
  -- the slot that the movement had before it was parsed.
  pub process_purchase-parse_movements :
      (tab slot : ℕ) (slots : List ℕ) (quantity : ℕ) (rents : List RentInfo)
      (shop : Movement → Option Item) (s : SelfState) (request : Movement) (item : Item)
      → blank.dest_slots ≡ []
      → length rents ≡ length slots
      → Fits (purchase_fields tab slot slots quantity rents [])
      → shop request ≡ some item
      → Free s.inventory_items slots
      → Purchased S slots quantity item shop request s blank.dest_slot (
          parse_movements S fresh blank_rent blank_job item_data blank
            (written S (purchase_fields tab slot slots quantity rents [])))
  process_purchase-parse_movements tab slot slots quantity rents shop s request item no_slots same
        fits known free =
      let m : Movement = purchase tab slot slots quantity rents in
      let named : m.dest_slots ≡ slots = ap (λ before. before ++ slots) no_slots in
      record {
        movement = m;
        after = record s {
          inventory_items = set_each s.inventory_items slots (bought_item m slots item);
        };
        read_to_end = (purchase-Decodes tab slot slots quantity rents [] same).reads fits;
        amount = refl;
        processed = process_purchase-Free shop s request m item slots known named free;
        others = refl;
        filled = λ j. slot_at-set_each s.inventory_items slots (bought_item m slots item) j free;
      }
