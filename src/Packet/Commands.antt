-- ===== src/Packet/Commands.antt =====
-- Requests of the client: bot/src/packet/building/clientAgentActionCommandRequest.cpp,
-- ClientAgentInventoryItemUseRequest.cpp, ClientAgentActionSelectRequest.cpp,
-- ClientAgentActionTalkRequest.cpp, ClientAgentActionDeselectRequest.cpp, and their parsers of the same
-- names. An enumerator is its number, a float is its 32 bits.
pub mod RoundTrip
use hyperbot.Prelude.{ℕ, Bool, true, false, ◌||◌, List, [], ◌∷◌, ◌++◌, ◌==◌, if◌then◌else◌, ok}
use hyperbot.Packet.Positions.{Location, Offsets, normalize_position}
use hyperbot.Packet.{Field, number, Streams, written, Parser, ◌>>=◌, pure, read, PacketContainer}

-- CommandType::kExecute and kCancel
abbrev pub execute : ℕ
execute = 1

abbrev pub cancel_command : ℕ
cancel_command = 2

-- ActionType
abbrev pub attack_action : ℕ
attack_action = 1

abbrev pub pickup_action : ℕ
pickup_action = 2

abbrev pub trace_action : ℕ
trace_action = 3

abbrev pub cast_action : ℕ
cast_action = 4

abbrev pub dispel_action : ℕ
dispel_action = 5

-- TargetType
abbrev pub no_target : ℕ
no_target = 0

abbrev pub entity_target : ℕ
entity_target = 1

abbrev pub land_target : ℕ
land_target = 2

-- structures::ActionCommand
pub record ActionCommand : Type 0 where
  pub command_type : ℕ
  pub action_type : ℕ
  pub ref_skill_id : ℕ
  pub target_type : ℕ
  pub target_global_id : ℕ
  pub position : Location

abbrev pub needs_skill : ℕ → Bool
needs_skill action = action == cast_action || action == dispel_action

-- writePosition
unfoldable pub write_position : Location → List Field → List Field
write_position p rest =
    number 2 p.region_id ∷ number 4 p.x_offset ∷ number 4 p.y_offset ∷ number 4 p.z_offset ∷ rest

-- What ClientAgentActionCommandRequest::command writes.
unfoldable pub target_fields : ActionCommand → List Field → List Field
unfolding write_position
target_fields c rest =
    if c.target_type == entity_target
    then number 4 c.target_global_id ∷ rest
    else if c.target_type == land_target
    then write_position c.position rest
    else rest

unfoldable pub skill_fields : ActionCommand → List Field → List Field
skill_fields c rest = if needs_skill c.action_type then number 4 c.ref_skill_id ∷ rest else rest

unfoldable pub command_fields : ActionCommand → List Field → List Field
unfolding target_fields skill_fields
command_fields c rest =
    number 1 c.command_type
    ∷ (if c.command_type == execute
        then number 1 c.action_type ∷ skill_fields c (number 1 c.target_type ∷ target_fields c rest)
        else rest)

module _ (S : Streams) where
  abbrev pub packet : ℕ → List Field → PacketContainer S
  packet opcode fields = record {
    opcode = opcode;
    data_stream = written S fields;
    encrypted = 0;
    massive = 0;
  }

  -- Opcode::kClientAgentActionCommandRequest
  abbrev command_packet : List Field → PacketContainer S
  command_packet = packet 0x7074

  unfoldable pub command : ActionCommand → PacketContainer S
  unfolding command_fields
  command c = command_packet (command_fields c [])

  unfoldable pub cancel : PacketContainer S
  cancel = command_packet (number 1 cancel_command ∷ [])

  abbrev on_entity : ℕ → ℕ → PacketContainer S
  on_entity action target =
      command_packet
        (number 1 execute ∷ number 1 action ∷ number 1 entity_target ∷ number 4 target ∷ [])

  unfoldable pub attack : ℕ → PacketContainer S
  attack target = on_entity attack_action target

  unfoldable pub pickup : ℕ → PacketContainer S
  pickup target = on_entity pickup_action target

  unfoldable pub trace : ℕ → PacketContainer S
  trace target = on_entity trace_action target

  unfoldable pub cast : ℕ → PacketContainer S
  cast skill =
      command_packet
        (number 1 execute ∷ number 1 cast_action ∷ number 4 skill ∷ number 1 no_target ∷ [])

  unfoldable pub cast_at : ℕ → ℕ → PacketContainer S
  cast_at skill target = command_packet (
      number 1 execute
      ∷ number 1 cast_action
      ∷ number 4 skill
      ∷ number 1 entity_target
      ∷ number 4 target
      ∷ [])

  unfoldable pub dispel : ℕ → PacketContainer S
  dispel skill =
      command_packet
        (number 1 execute ∷ number 1 dispel_action ∷ number 4 skill ∷ number 1 no_target ∷ [])

  -- parsePosition, with the constructor of the position that it returns.
  unfoldable pub parse_position : Offsets → Parser S.Stream Location
  unfolding read normalize_position
  parse_position o = do
    region_id ← read S 2
    x ← read S 4
    y ← read S 4
    z ← read S 4
    pure (
        normalize_position o
          (record { region_id = region_id; x_offset = x; y_offset = y; z_offset = z }))

  -- The constructor ClientAgentActionCommandRequest: what it does not read keeps what was there.
  unfoldable pub parse_skill : ActionCommand → Parser S.Stream ActionCommand
  parse_skill c =
      if needs_skill c.action_type
      then (read S 4 >>= λ skill. pure (record c { ref_skill_id = skill }))
      else pure c

  unfoldable pub parse_target : Offsets → ActionCommand → Parser S.Stream ActionCommand
  unfolding parse_position
  parse_target o c =
      if c.target_type == entity_target
      then (read S 4 >>= λ target. pure (record c { target_global_id = target }))
      else if c.target_type == land_target
      then (parse_position o >>= λ p. pure (record c { position = p }))
      else pure c

  unfoldable pub parse_execute : Offsets → ActionCommand → Parser S.Stream ActionCommand
  unfolding parse_skill parse_target
  parse_execute o old = do
    action ← read S 1
    c ← parse_skill (record old { action_type = action })
    target ← read S 1
    parse_target o (record c { target_type = target })

  unfoldable pub parse_command : Offsets → ActionCommand → Parser S.Stream ActionCommand
  unfolding parse_execute
  parse_command o old = read S 1 >>= λ type.
      if type == execute
      then parse_execute o (record old { command_type = type })
      else pure (record old { command_type = type })

  -- Opcode::kClientAgentInventoryItemUseRequest
  unfoldable pub item_use : ℕ → ℕ → PacketContainer S
  item_use slot type_id = record (packet 0x704C (number 1 slot ∷ number 2 type_id ∷ [])) {
    encrypted = 1;
  }

  unfoldable pub parse_item_use : Parser S.Stream (ℕ × ℕ)
  unfolding read
  parse_item_use = do slot ← read S 1; type_id ← read S 2; pure (slot, type_id)

  -- Opcode::kClientAgentActionSelectRequest, kClientAgentActionDeselectRequest and
  -- kClientAgentActionTalkRequest
  unfoldable pub select_entity : ℕ → PacketContainer S
  select_entity target = packet 0x7045 (number 4 target ∷ [])

  unfoldable pub deselect_entity : ℕ → PacketContainer S
  deselect_entity target = packet 0x704B (number 4 target ∷ [])

  unfoldable pub parse_select : Parser S.Stream ℕ
  unfolding read
  parse_select = read S 4

  unfoldable pub parse_deselect : Parser S.Stream ℕ
  unfolding read
  parse_deselect = read S 4

  unfoldable pub talk : ℕ → ℕ → PacketContainer S
  talk target option = packet 0x7046 (number 4 target ∷ number 1 option ∷ [])

  unfoldable pub parse_talk : Parser S.Stream (ℕ × ℕ)
  unfolding read
  parse_talk = do target ← read S 4; option ← read S 1; pure (target, option)
