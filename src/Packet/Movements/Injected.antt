-- ===== src/Packet/Movements/Injected.antt =====
-- The packet of an added item, which the bot builds to have it injected into the client
-- (bot/src/packet/building/serverAgentInventoryOperationResponse.cpp), read as a packet of the server.
use hyperbot.Prelude.{
  ℕ, ◌≡◌, refl, ap, ◌∙◌, Option, none, some, List, [], ◌∷◌, Result, ok, err, arith,
}
use hyperbot.Item.{Item, ItemInfo, CosJob, Fields, Fresh, new_fields, new_item_by_type_data}
use hyperbot.PacketProcessor.{success, add_item_by_server}
use hyperbot.Packet.{Field, number, Fits, Streams, written, IsFifo, PacketContainer}
use hyperbot.Packet.Items.{RentInfo}
use hyperbot.Packet.Items.Encoding.{SameClass, generic_fields}
use hyperbot.Packet.Items.Building.{
  BuildError, write_generic_item, add_item_by_server_packet, no_rent,
  write_generic_item-generic_fields,
}
use hyperbot.Packet.Movements.{Movement, OperationResponse}
use hyperbot.Packet.Movements.Handling.{response_parser}
use hyperbot.Packet.Movements.Reports.{SentItem, item_added}
use hyperbot.Packet.Movements.RoundTrip.{success-Decodes}

made_fields :
    (fresh : Fresh) (info : ItemInfo) (blank : Fields)
    → new_fields fresh info ≡ some blank
    → new_item_by_type_data fresh info
      ≡ some (record { ref_item_id = info.id; item_info = some info; fields = blank })
unfolding new_item_by_type_data
made_fields fresh info blank made = rw (made, new_item_by_type_data) refl

module _ (S : Streams) where
  packet_after :
      (slot : ℕ) (result : Result BuildError (List Field)) (packet : PacketContainer S)
      → elim result [
        | err e ↦ err e
        | ok fields ↦ ok (record {
          opcode = 0xB034;
          data_stream = written S (number 1 1 ∷ number 1 14 ∷ number 1 slot ∷ number 1 0 ∷ fields);
          encrypted = 0;
          massive = 0;
        })
      ]
        ≡ ok packet
      → (fields : List Field) × (result ≡ ok fields)
        × (packet.data_stream
            ≡ written S (number 1 1 ∷ number 1 14 ∷ number 1 slot ∷ number 1 0 ∷ fields))
  packet_after slot (err e) packet h = ground arith
  packet_after slot (ok fields) packet h = (fields, refl, ground arith)

module _ (S : Streams) (fifo : IsFifo S) (fresh : Fresh) (blank_rent : RentInfo)
    (blank_job : CosJob) (item_data : ℕ → Option ItemInfo) (blank_movement : Movement) where
  -- Let the stream be first in, first out, let the item data know an item's id, and let the item be of the
  -- class that its type data call for. If the packet of the added item is built, the parser reads it
  -- to its end, if the fields fit, and the handler adds an item equal to the one that it was built for.
  pub received-add_item_by_server_packet :
      (old : OperationResponse) (slot : ℕ) (info : ItemInfo) (blank f : Fields)
      (packet : PacketContainer S)
      → item_data info.id ≡ some info
      → new_fields fresh info ≡ some blank
      → SameClass blank f
      → blank_movement.new_item ≡ none
      → add_item_by_server_packet S slot
          (record { ref_item_id = info.id; item_info = some info; fields = f })
        ≡ ok packet
      → Fits (number 1 slot ∷ generic_fields no_rent info.id f [])
      → response_parser S fresh blank_rent blank_job item_data blank_movement old packet.data_stream
        ≡ ok (
          some (
              success (
                add_item_by_server slot
                  (some (record { ref_item_id = info.id; item_info = some info; fields = f }))
                ∷ [])),
          written S [],
        )
  unfolding add_item_by_server_packet
  received-add_item_by_server_packet old slot info blank f packet known made same null built fits =
      let item : Item = record { ref_item_id = info.id; item_info = some info; fields = f } in
      let (fields, wrote, stream) = packet_after S slot (write_generic_item item []) packet built in
      let (e, filled) =
        write_generic_item-generic_fields fresh blank_job info info.id [] fields same made wrote in
      let it : SentItem fresh blank_job item_data = record {
        ref = info.id;
        info = info;
        blank = record { ref_item_id = info.id; item_info = some info; fields = blank };
        rent = no_rent;
        fields = f;
        known = known;
        made = made_fields fresh info blank made;
        same = same;
      } in
      ap (λ s. response_parser S fresh blank_rent blank_job item_data blank_movement old s)
        (stream ∙ ap (λ x. written S (number 1 1 ∷ number 1 14 ∷ number 1 slot ∷ number 1 0 ∷ x)) e)
      ∙ (success-Decodes S fifo fresh blank_rent blank_job item_data blank_movement old
            (item_added slot 0 it) [] null).reads
          (omega arith, (omega arith, (fits.0, (omega arith, fits.1))))
      ∙ ap
          (λ x. ok (
            some (
                success (
                  add_item_by_server slot
                    (some (record { ref_item_id = info.id; item_info = some info; fields = x }))
                  ∷ [])),
            written S [],
          ))
          filled
