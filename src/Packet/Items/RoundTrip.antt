-- ===== src/Packet/Items/RoundTrip.antt =====
-- The parsers of items read the fields of an item.
use hyperbot.Prelude.{
  ℕ, Bool, true, false, ◌≡◌, Option, none, some, List, [], ◌==◌, if◌then◌else◌, ok,
}
use hyperbot.Item.{Item, ItemInfo, CosJob, Fields, Fresh, new_item_by_type_data}
use hyperbot.Packet.{Field, Fits, Streams, written, IsFifo, ◌>>=◌, pure, read}
use hyperbot.Packet.Decoding.{Decodes, Decodes->>=, Decodes-pure, read->>=}
use hyperbot.Packet.Items.{RentInfo, parse_rent_info, parse_fields, parse_item, parse_generic_item}
use hyperbot.Packet.Items.Encoding.{
  rent_type_fields, rent_fields, class_fields, generic_fields, SameClass, same_equipment,
  same_growth, same_ability, same_capsule, same_cube, same_expendable, same_stone, same_pop, fill,
  fill_rent_type, fill_rent,
}
use hyperbot.Packet.Items.Equipment.{magic_param-Decodes, counted-Decodes, equipment-Decodes}
use hyperbot.Packet.Items.Summoners.{neither, both, cos-Decodes}

module _ (S : Streams) (fifo : IsFifo S) where
  fields-Decodes :
      (blank_job : CosJob) {blank f : Fields} (rest : List Field)
      → SameClass blank f
      → Decodes S
          (parse_fields S blank_job blank)
          (class_fields f rest)
          (fill blank_job blank f)
          rest
  unfolding parse_fields
  fields-Decodes blank_job rest (same_equipment {e} {e'}) =
      Decodes->>= S _ (equipment-Decodes S fifo e e' rest) (Decodes-pure S)
  fields-Decodes blank_job rest (same_growth {c} {c'}) =
      cos-Decodes S fifo blank_job c c' none none rest neither
  fields-Decodes blank_job rest (same_ability {c} {c'} {s} {s'}) =
      cos-Decodes S fifo blank_job c c' (some s) (some s') rest both
  fields-Decodes blank_job rest same_capsule = read->>= S fifo _ (Decodes-pure S)
  fields-Decodes blank_job rest same_cube = read->>= S fifo _ (Decodes-pure S)
  fields-Decodes blank_job rest same_expendable = read->>= S fifo _ (Decodes-pure S)
  fields-Decodes blank_job rest same_stone = read->>= S fifo _ (read->>= S fifo _ (Decodes-pure S))
  fields-Decodes blank_job rest (same_pop {ps' = ps}) =
      read->>= S fifo _
        (Decodes->>= S _ (counted-Decodes S fifo (magic_param-Decodes S fifo) ps) (Decodes-pure S))

  rent_if :
      (days hours packed : Bool) (blank r : RentInfo) (rest : List Field)
      → Decodes S
          (if days
            then (read S 2 >>= λ can_delete. read S 4 >>= λ begin. read S 4 >>= λ end.
                pure (record blank {
                  rent_type = r.rent_type;
                  can_delete = can_delete;
                  period_begin_time = begin;
                  period_end_time = end;
                }))
            else if hours
            then (read S 2 >>= λ can_delete. read S 2 >>= λ can_recharge. read S 4 >>= λ meter.
                pure (record blank {
                  rent_type = r.rent_type;
                  can_delete = can_delete;
                  can_recharge = can_recharge;
                  meter_rate_time = meter;
                }))
            else if packed
            then (read S 2 >>= λ can_delete. read S 2 >>= λ can_recharge. read S 4 >>= λ begin.
                read S 4 >>= λ end. read S 4 >>= λ packing. pure (record blank {
                  rent_type = r.rent_type;
                  can_delete = can_delete;
                  can_recharge = can_recharge;
                  period_begin_time = begin;
                  period_end_time = end;
                  packing_time = packing;
                }))
            else pure (record blank { rent_type = r.rent_type }))
          (rent_type_fields days hours packed r rest)
          (fill_rent_type days hours packed blank r)
          rest
  rent_if true hours packed blank r rest =
      read->>= S fifo _ (read->>= S fifo _ (read->>= S fifo _ (Decodes-pure S)))
  rent_if false true packed blank r rest =
      read->>= S fifo _ (read->>= S fifo _ (read->>= S fifo _ (Decodes-pure S)))
  rent_if false false true blank r rest = read->>= S fifo _ (
      read->>= S fifo _
        (read->>= S fifo _ (read->>= S fifo _ (read->>= S fifo _ (Decodes-pure S)))))
  rent_if false false false blank r rest = Decodes-pure S

  pub rent-Decodes :
      (blank r : RentInfo) (rest : List Field)
      → Decodes S (parse_rent_info S blank) (rent_fields r rest) (fill_rent blank r) rest
  unfolding parse_rent_info
  rent-Decodes blank r rest =
      read->>= S fifo _
        (rent_if (r.rent_type == 1) (r.rent_type == 2) (r.rent_type == 3) blank r rest)

  module _ (fresh : Fresh) (blank_rent : RentInfo) (blank_job : CosJob)
      (item_data : ℕ → Option ItemInfo) where
    pub generic-Decodes :
        (ref : ℕ) (info : ItemInfo) (blank : Item) (rent : RentInfo) {f : Fields}
        (rest : List Field)
        → item_data ref ≡ some info
        → new_item_by_type_data fresh info ≡ some blank
        → SameClass blank.fields f
        → Decodes S
            (parse_generic_item S fresh blank_rent blank_job item_data)
            (generic_fields rent ref f rest)
            (record blank { fields = fill blank_job blank.fields f })
            rest
    unfolding parse_generic_item parse_item
    generic-Decodes ref info blank rent rest known made same =
        Decodes->>= S _ (rent-Decodes blank_rent rent _) (
          read->>= S fifo _ (
            rw (known, made)
              (Decodes->>= S _ (fields-Decodes blank_job rest same) (Decodes-pure S))))

    -- Let the stream be first in, first out, let the item data know the id of an item, and let the item be
    -- of the class that its type data call for. Then the parser reads the item's fields, with any
    -- rent, to the end, if they fit. The result is the new object of the class with all that was sent.
    pub parse_generic_item-written :
        (ref : ℕ) (info : ItemInfo) (blank : Item) (rent : RentInfo) (f : Fields)
        → item_data ref ≡ some info
        → new_item_by_type_data fresh info ≡ some blank
        → SameClass blank.fields f
        → Fits (generic_fields rent ref f [])
        → parse_generic_item S fresh blank_rent blank_job item_data
            (written S (generic_fields rent ref f []))
          ≡ ok (record blank { fields = fill blank_job blank.fields f }, written S [])
    parse_generic_item-written ref info blank rent f known made same fits =
        (generic-Decodes ref info blank rent [] known made same).reads fits
