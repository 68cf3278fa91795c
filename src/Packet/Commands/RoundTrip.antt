-- ===== src/Packet/Commands/RoundTrip.antt =====
-- The parsers of requests read what the builders wrote.
use hyperbot.Prelude.{ℕ, ◌≡◌, Bool, true, false, List, [], ◌∷◌, ◌==◌, if◌then◌else◌, ok}
use hyperbot.Packet.{Field, number, Fits, Streams, written, IsFifo, ◌>>=◌, pure, read}
use hyperbot.Packet.Decoding.{Decodes, Decodes->>=, Decodes-pure, read->>=, read-Decodes}
use hyperbot.Packet.Positions.{Location, Offsets, normalize_position}
use hyperbot.Packet.Commands.{
  ActionCommand, execute, entity_target, land_target, needs_skill, write_position, target_fields,
  skill_fields, command_fields, command, parse_position, parse_skill, parse_target, parse_execute,
  parse_command, item_use, parse_item_use, select_entity, deselect_entity, parse_select,
  parse_deselect, talk, parse_talk,
}

-- What a command says: the parts that its kind has are its own, a place as its constructor
-- normalizes it, the others are those of `old`.
abbrev pub with_skill : ActionCommand → ActionCommand → ActionCommand
with_skill old c =
    if needs_skill c.action_type then record old { ref_skill_id = c.ref_skill_id } else old

abbrev pub with_target : Offsets → ActionCommand → ActionCommand → ActionCommand
with_target o old c =
    if c.target_type == entity_target
    then record old { target_global_id = c.target_global_id }
    else if c.target_type == land_target
    then record old { position = normalize_position o c.position }
    else old

abbrev pub executed : Offsets → ActionCommand → ActionCommand → ActionCommand
executed o old c =
    with_target o
      (record (with_skill (record old { action_type = c.action_type }) c) {
        target_type = c.target_type;
      })
      c

abbrev pub overlay : Offsets → ActionCommand → ActionCommand → ActionCommand
overlay o old c =
    if c.command_type == execute
    then executed o (record old { command_type = c.command_type }) c
    else record old { command_type = c.command_type }

module _ (S : Streams) (fifo : IsFifo S) (o : Offsets) where
  pub position-Decodes :
      (p : Location) (rest : List Field)
      → Decodes S (parse_position S o) (write_position p rest) (normalize_position o p) rest
  unfolding parse_position write_position
  position-Decodes p rest =
      read->>= S fifo _ (read->>= S fifo _ (read->>= S fifo _ (read->>= S fifo _ (Decodes-pure S))))

  skill_if :
      (b : Bool) (c : ActionCommand) (skill : ℕ) (rest : List Field)
      → Decodes S
          (if b then (read S 4 >>= λ s. pure (record c { ref_skill_id = s })) else pure c)
          (if b then number 4 skill ∷ rest else rest)
          (if b then record c { ref_skill_id = skill } else c)
          rest
  skill_if true c skill rest = read->>= S fifo _ (Decodes-pure S)
  skill_if false c skill rest = Decodes-pure S

  target_if :
      (entity land : Bool) (c d : ActionCommand) (rest : List Field)
      → Decodes S
          (if entity
            then (read S 4 >>= λ t. pure (record c { target_global_id = t }))
            else if land
            then (parse_position S o >>= λ p. pure (record c { position = p }))
            else pure c)
          (if entity
            then number 4 d.target_global_id ∷ rest
            else if land
            then write_position d.position rest
            else rest)
          (if entity
            then record c { target_global_id = d.target_global_id }
            else if land
            then record c { position = normalize_position o d.position }
            else c)
          rest
  target_if true land c d rest = read->>= S fifo _ (Decodes-pure S)
  target_if false true c d rest =
      Decodes->>= S _ (position-Decodes d.position rest) (Decodes-pure S)
  target_if false false c d rest = Decodes-pure S

  skill-Decodes :
      (old d : ActionCommand) (rest : List Field)
      → Decodes S
          (parse_skill S (record old { action_type = d.action_type }))
          (skill_fields d rest)
          (with_skill (record old { action_type = d.action_type }) d)
          rest
  unfolding parse_skill skill_fields
  skill-Decodes old d rest =
      skill_if (needs_skill d.action_type) (record old { action_type = d.action_type })
        d.ref_skill_id rest

  target-Decodes :
      (c d : ActionCommand) (rest : List Field)
      → Decodes S
          (parse_target S o (record c { target_type = d.target_type }))
          (target_fields d rest)
          (with_target o (record c { target_type = d.target_type }) d)
          rest
  unfolding parse_target target_fields
  target-Decodes c d rest =
      target_if (d.target_type == entity_target) (d.target_type == land_target)
        (record c { target_type = d.target_type }) d rest

  command_if :
      (b : Bool) (old d : ActionCommand) (rest : List Field)
      → Decodes S
          (if b then parse_execute S o old else pure old)
          (if b
            then number 1 d.action_type
              ∷ skill_fields d (number 1 d.target_type ∷ target_fields d rest)
            else rest)
          (if b then executed o old d else old)
          rest
  unfolding parse_execute
  command_if true old d rest = read->>= S fifo _ (
      Decodes->>= S _ (skill-Decodes old d _) (
        read->>= S fifo _
          (target-Decodes (with_skill (record old { action_type = d.action_type }) d) d rest)))
  command_if false old d rest = Decodes-pure S

  command-Decodes :
      (old c : ActionCommand) (rest : List Field)
      → Decodes S (parse_command S o old) (command_fields c rest) (overlay o old c) rest
  unfolding parse_command command_fields
  command-Decodes old c rest =
      read->>= S fifo _ (
        command_if (c.command_type == execute) (record old { command_type = c.command_type }) c
          rest)

  -- Let the stream be first in, first out, and let the fields of a command fit. Then the parser reads the
  -- packet that `command` builds to its end, and takes over from it the kind, the action, the skill
  -- of a cast or dispel, and the target that the command has, a place as the constructor of Position
  -- normalizes it; what the command lacks stays as it was.
  pub parse_command-command :
      (old c : ActionCommand)
      → Fits (command_fields c [])
      → parse_command S o old (command S c).data_stream ≡ ok (overlay o old c, written S [])
  unfolding command
  parse_command-command old c fits = (command-Decodes old c []).reads fits

module _ (S : Streams) (fifo : IsFifo S) where
  -- Let the stream be first in, first out, and let the numbers of the request fit. Then the parsers of
  -- the requests to use an item, to select, to deselect and to talk to an entity read what was asked.
  pub parse_request-request :
      (slot type_id target option : ℕ)
      → Fits (number 1 slot ∷ number 2 type_id ∷ number 4 target ∷ number 1 option ∷ [])
      → (parse_item_use S (item_use S slot type_id).data_stream
          ≡ ok ((slot, type_id), written S []))
        × (parse_select S (select_entity S target).data_stream ≡ ok (target, written S []))
        × (parse_deselect S (deselect_entity S target).data_stream ≡ ok (target, written S []))
        × (parse_talk S (talk S target option).data_stream ≡ ok ((target, option), written S []))
  unfolding parse_item_use item_use parse_select select_entity parse_deselect deselect_entity
      parse_talk talk
  parse_request-request slot type_id target option
        (slot_fits, (type_fits, (target_fits, (option_fits, end)))) =
      (
        (two.reads (slot_fits, (type_fits, end))),
        one.reads (target_fits, end),
        one.reads (target_fits, end),
        two.reads (target_fits, (option_fits, end)),
      )
    where
      two :
          {v w x y : ℕ}
          → Decodes S {A = ℕ × ℕ}
              (read S v >>= λ a. read S w >>= λ b. pure (a, b))
              (number v x ∷ number w y ∷ [])
              (x, y)
              []
      two = read->>= S fifo _ (read->>= S fifo _ (Decodes-pure S))

      one : {x : ℕ} → Decodes S (read S 4) (number 4 x ∷ []) x []
      one = read-Decodes S fifo
