-- ===== src/Packet/Items/Equipment.antt =====
-- The parsers of the lists of an item and of equipment read their fields.
use hyperbot.Prelude.{List, ◌++◌}
use hyperbot.Item.{ItemMagicParam, SocketOptionData, AdvancedElixirOptionData, EquipmentFields}
use hyperbot.Packet.{Field, Streams, IsFifo, Parser}
use hyperbot.Packet.Decoding.{Decodes, Decodes->>=, Decodes-pure, read->>=, repeat-Decodes}
use hyperbot.Packet.Items.{
  parse_magic_param, parse_socket_option, parse_elixir_option, parse_counted, parse_equipment,
}
use hyperbot.Packet.Items.Encoding.{
  magic_param_fields, socket_option_fields, elixir_option_fields, counted, equipment_fields,
}

module _ (S : Streams) (fifo : IsFifo S) where
  pub magic_param-Decodes :
      (p : ItemMagicParam) (rest : List Field)
      → Decodes S (parse_magic_param S) (magic_param_fields p rest) p rest
  unfolding parse_magic_param
  magic_param-Decodes p rest = read->>= S fifo _ (read->>= S fifo _ (Decodes-pure S))

  socket_option-Decodes :
      (o : SocketOptionData) (rest : List Field)
      → Decodes S (parse_socket_option S) (socket_option_fields o rest) o rest
  unfolding parse_socket_option
  socket_option-Decodes o rest =
      read->>= S fifo _ (read->>= S fifo _ (read->>= S fifo _ (Decodes-pure S)))

  elixir_option-Decodes :
      (o : AdvancedElixirOptionData) (rest : List Field)
      → Decodes S (parse_elixir_option S) (elixir_option_fields o rest) o rest
  unfolding parse_elixir_option
  elixir_option-Decodes o rest =
      read->>= S fifo _ (read->>= S fifo _ (read->>= S fifo _ (Decodes-pure S)))

  pub counted-Decodes :
      {A : Type 0} {p : Parser S.Stream A} {encode : A → List Field → List Field}
      {rest : List Field}
      → ((x : A) (after : List Field) → Decodes S p (encode x after) x after)
      → (xs : List A) → Decodes S (parse_counted S p) (counted encode xs rest) xs rest
  unfolding parse_counted
  counted-Decodes one xs = read->>= S fifo _ (repeat-Decodes S one xs)

  pub equipment-Decodes :
      (blank e : EquipmentFields) (rest : List Field)
      → Decodes S
          (parse_equipment S blank)
          (equipment_fields e rest)
          (record e {
            magic_params = blank.magic_params ++ e.magic_params;
            socket_options = blank.socket_options ++ e.socket_options;
            advanced_elixir_options = blank.advanced_elixir_options ++ e.advanced_elixir_options;
          })
          rest
  unfolding parse_equipment
  equipment-Decodes blank e rest = read->>= S fifo _ (
      read->>= S fifo _ (
        read->>= S fifo _ (
          Decodes->>= S _ (counted-Decodes magic_param-Decodes e.magic_params) (
            read->>= S fifo _ (
              Decodes->>= S _ (counted-Decodes socket_option-Decodes e.socket_options) (
                read->>= S fifo _ (
                  Decodes->>= S _ (counted-Decodes elixir_option-Decodes e.advanced_elixir_options)
                    (Decodes-pure S))))))))
