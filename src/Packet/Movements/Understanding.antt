-- ===== src/Packet/Movements/Understanding.antt =====
-- The parser of movements reads every report of the server, and the handler understands it.
use hyperbot.Prelude.{ℕ, ◌≡◌, refl, ap, Option, none, some, List, [], ◌∷◌, map}
use hyperbot.Item.{ItemInfo, CosJob, Fresh}
use hyperbot.PacketProcessor.{ItemMovement, pick_item}
use hyperbot.Packet.{Field, number, Streams, IsFifo, Parser}
use hyperbot.Packet.Decoding.{Decodes, Decodes->>=, Decodes-pure, read->>=, repeat-map}
use hyperbot.Packet.Items.{RentInfo}
use hyperbot.Packet.Movements.{
  Movement, format, slots_and_others, parse_slots, parse_slots_quantity, parse_gold_or_item,
  parse_sale, parse_one, parse_others, parse_movements, place_first,
}
use hyperbot.Packet.Movements.Handling.{handled, handled_all}
use hyperbot.Packet.Movements.Reports.{
  Shift, ShiftKind, in_inventory, take_off, put_on, shift_number, Report, meaning, report_fields,
  shifted, shifted_in_chest, shifted_in_guild_chest, deposited, withdrawn, guild_deposited,
  guild_withdrawn, gold_dropped, gold_withdrawn, gold_deposited, gold_exchanged,
  guild_gold_withdrawn, guild_gold_deposited, gold_picked, item_picked, item_dropped, item_added,
  item_removed, item_sold, item_bought_back, from_pet, to_pet, shifted_in_pet, picked_by_pet,
  gold_picked_by_other, item_picked_by_other,
}
use hyperbot.Packet.Movements.Slots.{
  filled_shift, placed-handled, shift-Decodes, new_item-Decodes, picked-Decodes, pet_picked-Decodes,
}

module _ (S : Streams) (fifo : IsFifo S) (fresh : Fresh) (blank_rent : RentInfo)
    (blank_job : CosJob) (item_data : ℕ → Option ItemInfo) (blank : Movement) where
  abbrev movements_parser : Parser S.Stream (List Movement)
  movements_parser = parse_movements S fresh blank_rent blank_job item_data blank

  -- One movement, which no others follow.
  pub one-Decodes :
      (type : ℕ) {fields rest : List Field} {m : Movement}
      → Decodes S
          (parse_one S fresh blank_rent blank_job item_data
            (format type)
            (record blank { type = type }))
          fields
          m
          rest
      → Decodes S
          (parse_others S fresh blank_rent blank_job item_data (format type) blank)
          rest
          []
          rest
      → Decodes S movements_parser (number 1 type ∷ fields) (m ∷ []) rest
  unfolding parse_movements
  one-Decodes type h none_follow =
      read->>= S fifo _ (Decodes->>= S _ h (Decodes->>= S _ none_follow (Decodes-pure S)))

  kind_format : (kind : ShiftKind) → format (shift_number kind) ≡ slots_and_others
  unfolding format
  kind_format in_inventory = refl
  kind_format take_off = refl
  kind_format put_on = refl

  shifted-Decodes :
      (s : Shift) (others : List Shift) (rest : List Field)
      → Decodes S movements_parser
          (report_fields fresh blank_job item_data (shifted s others) rest)
          (place_first (filled_shift blank s) (map (filled_shift blank) others))
          rest
  unfolding parse_movements parse_one parse_slots_quantity parse_others
  shifted-Decodes s others rest = read->>= S fifo _ (
      rw (kind_format s.kind) (
        Decodes->>= S _
          (read->>= S fifo _
            (read->>= S fifo _ (read->>= S fifo _ (Decodes-pure S {a = filled_shift blank s}))))
          (Decodes->>= S _
            (read->>= S fifo _ (
              repeat-map S (filled_shift blank)
                (shift-Decodes S fifo fresh blank_rent blank_job item_data blank) others))
            (Decodes-pure S))))

  -- The parser reads movements off the fields that the handler understands so.
  pub record Understood (fields : List Field) (xs : List ItemMovement) (rest : List Field)
      : Type 0 where
    pub movements : List Movement
    pub reads : Decodes S movements_parser fields movements rest
    pub handles : handled_all movements ≡ some xs

  understood :
      {fields rest : List Field} {ms : List Movement} {xs : List ItemMovement}
      → Decodes S movements_parser fields ms rest
      → handled_all ms ≡ some xs
      → Understood fields xs rest
  understood {ms} h k = record { movements = ms; reads = h; handles = k }

  pub report-Understood :
      (r : Report fresh blank_job item_data) (rest : List Field)
      → blank.new_item ≡ none
      → Understood
          (report_fields fresh blank_job item_data r rest)
          (meaning fresh blank_job item_data r)
          rest
  unfolding format parse_one parse_others parse_slots handled handled_all parse_slots_quantity
      parse_gold_or_item parse_sale
  report-Understood (shifted s others) rest null =
      understood (shifted-Decodes s others rest) (placed-handled blank s others)
  report-Understood (shifted_in_chest src dest q) rest null =
      understood
        (one-Decodes 1 (read->>= S fifo _ (read->>= S fifo _ (read->>= S fifo _ (Decodes-pure S))))
          (Decodes-pure S))
        refl
  report-Understood (shifted_in_guild_chest src dest q) rest null =
      understood
        (one-Decodes 29 (read->>= S fifo _ (read->>= S fifo _ (read->>= S fifo _ (Decodes-pure S))))
          (Decodes-pure S))
        refl
  report-Understood (deposited src dest) rest null =
      understood
        (one-Decodes 2 (read->>= S fifo _ (read->>= S fifo _ (Decodes-pure S))) (Decodes-pure S))
        refl
  report-Understood (withdrawn src dest) rest null =
      understood
        (one-Decodes 3 (read->>= S fifo _ (read->>= S fifo _ (Decodes-pure S))) (Decodes-pure S))
        refl
  report-Understood (guild_deposited src dest) rest null =
      understood
        (one-Decodes 30 (read->>= S fifo _ (read->>= S fifo _ (Decodes-pure S))) (Decodes-pure S))
        refl
  report-Understood (guild_withdrawn src dest) rest null =
      understood
        (one-Decodes 31 (read->>= S fifo _ (read->>= S fifo _ (Decodes-pure S))) (Decodes-pure S))
        refl
  report-Understood (gold_dropped gold) rest null =
      understood (one-Decodes 10 (read->>= S fifo _ (Decodes-pure S)) (Decodes-pure S)) refl
  report-Understood (gold_withdrawn gold) rest null =
      understood (one-Decodes 11 (read->>= S fifo _ (Decodes-pure S)) (Decodes-pure S)) refl
  report-Understood (gold_deposited gold) rest null =
      understood (one-Decodes 12 (read->>= S fifo _ (Decodes-pure S)) (Decodes-pure S)) refl
  report-Understood (gold_exchanged gold) rest null =
      understood (one-Decodes 13 (read->>= S fifo _ (Decodes-pure S)) (Decodes-pure S)) refl
  report-Understood (guild_gold_withdrawn gold) rest null =
      understood (one-Decodes 32 (read->>= S fifo _ (Decodes-pure S)) (Decodes-pure S)) refl
  report-Understood (guild_gold_deposited gold) rest null =
      understood (one-Decodes 33 (read->>= S fifo _ (Decodes-pure S)) (Decodes-pure S)) refl
  report-Understood (item_dropped src) rest null =
      understood (one-Decodes 7 (read->>= S fifo _ (Decodes-pure S)) (Decodes-pure S)) refl
  report-Understood (item_removed src reason) rest null =
      understood
        (one-Decodes 15 (read->>= S fifo _ (read->>= S fifo _ (Decodes-pure S))) (Decodes-pure S))
        refl
  report-Understood (item_sold src q npc size) rest null =
      understood
        (one-Decodes 9
          (read->>= S fifo _
            (read->>= S fifo _ (read->>= S fifo _ (read->>= S fifo _ (Decodes-pure S)))))
          (Decodes-pure S))
        refl
  report-Understood (item_bought_back src dest q) rest null =
      understood
        (one-Decodes 34 (read->>= S fifo _ (read->>= S fifo _ (read->>= S fifo _ (Decodes-pure S))))
          (Decodes-pure S))
        refl
  report-Understood (from_pet id src dest) rest null =
      understood
        (one-Decodes 26 (read->>= S fifo _ (read->>= S fifo _ (read->>= S fifo _ (Decodes-pure S))))
          (Decodes-pure S))
        refl
  report-Understood (to_pet id src dest) rest null =
      understood
        (one-Decodes 27 (read->>= S fifo _ (read->>= S fifo _ (read->>= S fifo _ (Decodes-pure S))))
          (Decodes-pure S))
        refl
  report-Understood (shifted_in_pet id src dest q) rest null =
      understood
        (one-Decodes 16
          (read->>= S fifo _
            (read->>= S fifo _ (read->>= S fifo _ (read->>= S fifo _ (Decodes-pure S)))))
          (Decodes-pure S))
        refl
  report-Understood (gold_picked_by_other id gold) rest null =
      understood
        (one-Decodes 28 (read->>= S fifo _ (read->>= S fifo _ (read->>= S fifo _ (Decodes-pure S))))
          (Decodes-pure S))
        refl
  report-Understood (gold_picked gold) rest null =
      understood
        (one-Decodes 6 (read->>= S fifo _ (read->>= S fifo _ (Decodes-pure S))) (Decodes-pure S))
        (ap (λ item. some (pick_item 0xFE item ∷ [])) null)
  report-Understood (item_picked dest no_gold it) rest null =
      understood
        (one-Decodes 6
          (read->>= S fifo _ (
            picked-Decodes S fifo fresh blank_rent blank_job item_data (record blank { type = 6 })
              dest it rest no_gold))
          (Decodes-pure S))
        refl
  report-Understood (item_added dest reason it) rest null =
      understood
        (one-Decodes 14
          (read->>= S fifo _ (
            read->>= S fifo _ (
              new_item-Decodes S fifo fresh blank_rent blank_job item_data
                (record blank { type = 14; dest_slot = dest }) it rest)))
          (Decodes-pure S))
        refl
  report-Understood (picked_by_pet id dest no_gold it owner) rest null =
      understood
        (one-Decodes 17
          (read->>= S fifo _ (
            read->>= S fifo _ (
              pet_picked-Decodes S fifo fresh blank_rent blank_job item_data
                (record blank { type = 17; global_id = id }) dest it owner rest no_gold)))
          (Decodes-pure S))
        refl
  report-Understood (item_picked_by_other id dest no_gold it) rest null =
      understood
        (one-Decodes 28
          (read->>= S fifo _ (
            read->>= S fifo _ (
              picked-Decodes S fifo fresh blank_rent blank_job item_data
                (record blank { type = 28; global_id = id }) dest it rest no_gold)))
          (Decodes-pure S))
        refl
