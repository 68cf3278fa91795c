-- ===== src/Packet/Movements/Reports.antt =====
-- What the server can report in a ServerAgentInventoryOperationResponse, by its fields, and the
-- movement that each report stands for.
use hyperbot.Prelude.{ℕ, false, ◌≡◌, Option, none, some, List, [], ◌∷◌, length, map, ◌==◌}
use hyperbot.Item.{Item, ItemInfo, CosJob, Fields, Fresh, new_item_by_type_data}
use hyperbot.PacketProcessor.{
  ItemMovement, update_slots_inventory, update_slots_chest, update_slots_guild_chest,
  chest_deposit_item, chest_withdraw_item, guild_chest_deposit_item, guild_chest_withdraw_item,
  sell_item, buyback_item, pick_item, drop_item, remove_item_by_server, add_item_by_server,
  chest_withdraw_gold, chest_deposit_gold, guild_chest_deposit_gold, guild_chest_withdraw_gold,
  move_item_avatar_to_inventory, move_item_inventory_to_avatar, move_item_cos_to_inventory,
  move_item_inventory_to_cos, update_slots_inventory_cos, pick_item_cos, no_change,
}
use hyperbot.Packet.{Field, number, ascii}
use hyperbot.Packet.Items.{RentInfo}
use hyperbot.Packet.Items.Encoding.{SameClass, fill, generic_fields, counted}

pub data ShiftKind : Type 0 where
  in_inventory take_off put_on : ShiftKind

-- A movement of a quantity between two slots of the character.
pub record Shift : Type 0 where
  pub kind : ShiftKind
  pub src : ℕ
  pub dest : ℕ
  pub quantity : ℕ

abbrev pub shift_number : ShiftKind → ℕ
shift_number in_inventory = 0
shift_number take_off = 35
shift_number put_on = 36

abbrev pub shift_movement : ShiftKind → ℕ → ℕ → ℕ → ItemMovement
shift_movement in_inventory src dest quantity = update_slots_inventory src dest quantity
shift_movement take_off src dest quantity = move_item_avatar_to_inventory src dest
shift_movement put_on src dest quantity = move_item_inventory_to_avatar src dest

abbrev pub shift_meaning : Shift → ItemMovement
shift_meaning s = shift_movement s.kind s.src s.dest s.quantity

abbrev pub shift_fields : Shift → List Field → List Field
shift_fields s rest =
    number 1 (shift_number s.kind) ∷ number 1 s.src ∷ number 1 s.dest ∷ number 2 s.quantity ∷ rest

module _ (fresh : Fresh) (blank_job : CosJob) (item_data : ℕ → Option ItemInfo) where
  -- An item that the data know, with the fields of its class, and its rent.
  pub record SentItem : Type 0 where
    pub ref : ℕ
    pub info : ItemInfo
    pub blank : Item
    pub rent : RentInfo
    pub fields : Fields
    pub known : item_data ref ≡ some info
    pub made : new_item_by_type_data fresh info ≡ some blank
    pub same : SameClass blank.fields fields

  abbrev pub sent_item : SentItem → Item
  sent_item it = record it.blank { fields = fill blank_job it.blank.fields it.fields }

  abbrev pub sent_fields : SentItem → List Field → List Field
  sent_fields it rest = generic_fields it.rent it.ref it.fields rest

  pub data Report : Type 0 where
    shifted : Shift → List Shift → Report
    shifted_in_chest shifted_in_guild_chest : ℕ → ℕ → ℕ → Report
    deposited withdrawn guild_deposited guild_withdrawn : ℕ → ℕ → Report
    gold_dropped gold_withdrawn gold_deposited gold_exchanged : ℕ → Report
    guild_gold_withdrawn guild_gold_deposited : ℕ → Report
    gold_picked : ℕ → Report
    item_picked : (dest : ℕ) → (dest == 0xFE) ≡ false → SentItem → Report
    item_dropped : ℕ → Report
    item_added : ℕ → ℕ → SentItem → Report
    item_removed : ℕ → ℕ → Report
    item_sold : ℕ → ℕ → ℕ → ℕ → Report
    item_bought_back : ℕ → ℕ → ℕ → Report
    from_pet to_pet : ℕ → ℕ → ℕ → Report
    shifted_in_pet : ℕ → ℕ → ℕ → ℕ → Report
    picked_by_pet : ℕ → (dest : ℕ) → (dest == 0xFE) ≡ false → SentItem → List ℕ → Report
    gold_picked_by_other : ℕ → ℕ → Report
    item_picked_by_other : ℕ → (dest : ℕ) → (dest == 0xFE) ≡ false → SentItem → Report

  abbrev pub meaning : Report → List ItemMovement
  meaning (shifted s others) = shift_meaning s ∷ map shift_meaning others
  meaning (shifted_in_chest src dest q) = update_slots_chest src dest q ∷ []
  meaning (shifted_in_guild_chest src dest q) = update_slots_guild_chest src dest q ∷ []
  meaning (deposited src dest) = chest_deposit_item src dest ∷ []
  meaning (withdrawn src dest) = chest_withdraw_item src dest ∷ []
  meaning (guild_deposited src dest) = guild_chest_deposit_item src dest ∷ []
  meaning (guild_withdrawn src dest) = guild_chest_withdraw_item src dest ∷ []
  meaning (gold_dropped amount) = no_change ∷ []
  meaning (gold_withdrawn amount) = chest_withdraw_gold amount ∷ []
  meaning (gold_deposited amount) = chest_deposit_gold amount ∷ []
  meaning (gold_exchanged amount) = no_change ∷ []
  meaning (guild_gold_withdrawn amount) = guild_chest_withdraw_gold amount ∷ []
  meaning (guild_gold_deposited amount) = guild_chest_deposit_gold amount ∷ []
  meaning (gold_picked amount) = pick_item 0xFE none ∷ []
  meaning (item_picked dest _ it) = pick_item dest (some (sent_item it)) ∷ []
  meaning (item_dropped src) = drop_item src ∷ []
  meaning (item_added dest _ it) = add_item_by_server dest (some (sent_item it)) ∷ []
  meaning (item_removed src _) = remove_item_by_server src ∷ []
  meaning (item_sold src q _ _) = sell_item src q ∷ []
  meaning (item_bought_back src dest q) = buyback_item src dest q ∷ []
  meaning (from_pet id src dest) = move_item_cos_to_inventory id src dest ∷ []
  meaning (to_pet id src dest) = move_item_inventory_to_cos id src dest ∷ []
  meaning (shifted_in_pet id src dest q) = update_slots_inventory_cos id src dest q ∷ []
  meaning (picked_by_pet id dest _ it _) = pick_item_cos id dest (some (sent_item it)) ∷ []
  meaning (gold_picked_by_other _ _) = no_change ∷ []
  meaning (item_picked_by_other _ _ _ _) = no_change ∷ []

  abbrev pub report_fields : Report → List Field → List Field
  report_fields (shifted s others) rest = shift_fields s (counted shift_fields others rest)
  report_fields (shifted_in_chest src dest q) rest =
      number 1 1 ∷ number 1 src ∷ number 1 dest ∷ number 2 q ∷ rest
  report_fields (shifted_in_guild_chest src dest q) rest =
      number 1 29 ∷ number 1 src ∷ number 1 dest ∷ number 2 q ∷ rest
  report_fields (deposited src dest) rest = number 1 2 ∷ number 1 src ∷ number 1 dest ∷ rest
  report_fields (withdrawn src dest) rest = number 1 3 ∷ number 1 src ∷ number 1 dest ∷ rest
  report_fields (guild_deposited src dest) rest = number 1 30 ∷ number 1 src ∷ number 1 dest ∷ rest
  report_fields (guild_withdrawn src dest) rest = number 1 31 ∷ number 1 src ∷ number 1 dest ∷ rest
  report_fields (gold_dropped amount) rest = number 1 10 ∷ number 8 amount ∷ rest
  report_fields (gold_withdrawn amount) rest = number 1 11 ∷ number 8 amount ∷ rest
  report_fields (gold_deposited amount) rest = number 1 12 ∷ number 8 amount ∷ rest
  report_fields (gold_exchanged amount) rest = number 1 13 ∷ number 8 amount ∷ rest
  report_fields (guild_gold_withdrawn amount) rest = number 1 32 ∷ number 8 amount ∷ rest
  report_fields (guild_gold_deposited amount) rest = number 1 33 ∷ number 8 amount ∷ rest
  report_fields (gold_picked amount) rest = number 1 6 ∷ number 1 0xFE ∷ number 4 amount ∷ rest
  report_fields (item_picked dest _ it) rest = number 1 6 ∷ number 1 dest ∷ sent_fields it rest
  report_fields (item_dropped src) rest = number 1 7 ∷ number 1 src ∷ rest
  report_fields (item_added dest reason it) rest =
      number 1 14 ∷ number 1 dest ∷ number 1 reason ∷ sent_fields it rest
  report_fields (item_removed src reason) rest = number 1 15 ∷ number 1 src ∷ number 1 reason ∷ rest
  report_fields (item_sold src q npc size) rest =
      number 1 9 ∷ number 1 src ∷ number 2 q ∷ number 4 npc ∷ number 1 size ∷ rest
  report_fields (item_bought_back src dest q) rest =
      number 1 34 ∷ number 1 dest ∷ number 1 src ∷ number 2 q ∷ rest
  report_fields (from_pet id src dest) rest =
      number 1 26 ∷ number 4 id ∷ number 1 src ∷ number 1 dest ∷ rest
  report_fields (to_pet id src dest) rest =
      number 1 27 ∷ number 4 id ∷ number 1 src ∷ number 1 dest ∷ rest
  report_fields (shifted_in_pet id src dest q) rest =
      number 1 16 ∷ number 4 id ∷ number 1 src ∷ number 1 dest ∷ number 2 q ∷ rest
  report_fields (picked_by_pet id dest _ it owner) rest =
      number 1 17
      ∷ number 4 id
      ∷ number 1 dest
      ∷ sent_fields it (number 2 (length owner) ∷ ascii owner ∷ rest)
  report_fields (gold_picked_by_other id amount) rest =
      number 1 28 ∷ number 4 id ∷ number 1 0xFE ∷ number 4 amount ∷ rest
  report_fields (item_picked_by_other id dest _ it) rest =
      number 1 28 ∷ number 4 id ∷ number 1 dest ∷ sent_fields it rest
