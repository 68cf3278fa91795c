-- ===== src/Packet/Items/Building.antt =====
-- bot/src/packet/building/commonBuilding.cpp, writeGenericItem, and its call in
-- bot/src/packet/building/serverAgentInventoryOperationResponse.cpp. Only plain expendables are written;
-- for other classes of items it throws.
use hyperbot.Prelude.{
  ◌∙◌, arith, ℕ, Bool, ◌&&◌, ◌||◌, ◌≡◌, refl, ap, none, some, List, [], ◌∷◌, ◌==◌, if◌then◌else◌,
  Result, ok, err,
}
use hyperbot.Item.{CosJob, Item, ItemInfo, as_expendable, Fields, Fresh, new_fields}
use hyperbot.Packet.{Field, number, Streams, written, PacketContainer}
use hyperbot.Packet.Items.{RentInfo}
use hyperbot.Packet.Items.Encoding.{
  fill, class_fields, generic_fields, SameClass, same_equipment, same_growth, same_ability,
  same_capsule, same_cube, same_expendable, same_stone, same_pop,
}

pub data BuildError : Type 0 where
  no_item_info not_implemented not_expendable : BuildError

abbrev is_stone : ItemInfo → Bool
is_stone info = info.type_id4 == 1 || info.type_id4 == 2

-- What the builder does after the quantity of the stack.
unfoldable pub write_after_quantity : ItemInfo → List Field → Result BuildError (List Field)
write_after_quantity info rest =
    if info.type_id3 == 11
    then if is_stone info then err not_implemented else ok rest
    else if info.type_id3 == 14 && info.type_id4 == 2
    then err not_implemented
    else ok rest

unfoldable pub write_expendable : ItemInfo → Item → List Field → Result BuildError (List Field)
unfolding write_after_quantity
write_expendable info item rest = elim (as_expendable item) [
  | none ↦ err not_expendable
  | some q ↦ elim (write_after_quantity info rest) [
    | err e ↦ err e
    | ok fields ↦ ok (number 2 q ∷ fields)
  ]
]

unfoldable pub write_class : ItemInfo → Item → List Field → Result BuildError (List Field)
unfolding write_expendable
write_class info item rest =
    if info.type_id1 == 3
    then if info.type_id2 == 1
      then err not_implemented
      else if info.type_id2 == 2
      then err not_implemented
      else if info.type_id2 == 3
      then write_expendable info item rest
      else ok rest
    else ok rest

unfoldable pub write_generic_item : Item → List Field → Result BuildError (List Field)
unfolding write_class
write_generic_item item rest = elim item.item_info [
  | none ↦ err no_item_info
  | some info ↦ elim (write_class info item rest) [
    | err e ↦ err e
    | ok fields ↦ ok (number 4 0 ∷ number 4 item.ref_item_id ∷ fields)
  ]
]

module _ (S : Streams) where
  -- Opcode::kServerAgentInventoryOperationResponse
  unfoldable pub add_item_by_server_packet : ℕ → Item → Result BuildError (PacketContainer S)
  unfolding write_generic_item
  add_item_by_server_packet slot item = elim (write_generic_item item []) [
    | err e ↦ err e
    | ok fields ↦ ok (record {
      opcode = 0xB034;
      data_stream = written S (number 1 1 ∷ number 1 14 ∷ number 1 slot ∷ number 1 0 ∷ fields);
      encrypted = 0;
      massive = 0;
    })
  ]

abbrev pub no_rent : RentInfo
no_rent = record {
  rent_type = 0;
  can_delete = 0;
  period_begin_time = 0;
  period_end_time = 0;
  can_recharge = 0;
  meter_rate_time = 0;
  packing_time = 0;
}

-- Of the classes, the builder writes plain expendables only.
write_class-class_fields :
    (fresh : Fresh) (blank_job : CosJob) (info : ItemInfo) (ref : ℕ) {blank f : Fields}
    (rest fields : List Field)
    → SameClass blank f
    → new_fields fresh info ≡ some blank
    → write_class info (record { ref_item_id = ref; item_info = some info; fields = f }) rest
      ≡ ok fields
    → (fields ≡ class_fields f rest) × (fill blank_job blank f ≡ f)
unfolding new_fields write_class write_expendable write_after_quantity as_expendable
write_class-class_fields fresh blank_job info ref rest fields same_equipment made done =
    ground arith
write_class-class_fields fresh blank_job info ref rest fields same_growth made done = ground arith
write_class-class_fields fresh blank_job info ref rest fields same_ability made done = ground arith
write_class-class_fields fresh blank_job info ref rest fields same_capsule made done = ground arith
write_class-class_fields fresh blank_job info ref rest fields same_cube made done = ground arith
write_class-class_fields fresh blank_job info ref rest fields same_expendable made done =
    ground arith
write_class-class_fields fresh blank_job info ref rest fields same_stone made done = ground arith
write_class-class_fields fresh blank_job info ref rest fields same_pop made done = ground arith

written_after :
    (result : Result BuildError (List Field)) (ref : ℕ) (fields : List Field)
    → elim result [ err e ↦ err e | ok fields' ↦ ok (number 4 0 ∷ number 4 ref ∷ fields') ]
      ≡ ok fields
    → (fields' : List Field) × (result ≡ ok fields')
      × (fields ≡ number 4 0 ∷ number 4 ref ∷ fields')
written_after (err e) ref fields h = ground arith
written_after (ok fields') ref fields h = (fields', refl, ground arith)

-- What the builder writes are the fields of the item, without a rent, and all that there are.
pub write_generic_item-generic_fields :
    (fresh : Fresh) (blank_job : CosJob) (info : ItemInfo) (ref : ℕ) {blank f : Fields}
    (rest fields : List Field)
    → SameClass blank f
    → new_fields fresh info ≡ some blank
    → write_generic_item (record { ref_item_id = ref; item_info = some info; fields = f }) rest
      ≡ ok fields
    → (fields ≡ generic_fields no_rent ref f rest) × (fill blank_job blank f ≡ f)
unfolding write_generic_item
write_generic_item-generic_fields fresh blank_job info ref {f} rest fields same made done =
    let item : Item = record { ref_item_id = ref; item_info = some info; fields = f } in
    let (fields', written', e) = written_after (write_class info item rest) ref fields done in
    let (e', filled) =
      write_class-class_fields fresh blank_job info ref rest fields' same made written' in
    (e ∙ ap (λ x. number 4 0 ∷ number 4 ref ∷ x) e', filled)
