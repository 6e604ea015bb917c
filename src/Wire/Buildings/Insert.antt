-- ===== src/Wire/Buildings/Insert.antt =====
-- src/iag/stellaris/execution/packet/autonomous_commands.py: the insertion of a building request at the end
-- of a packet and before a live command, where later commands are not translated. The checks that the
-- bytes around the insertion are the packet's cannot fail and are left out.
use imperial_auto_governor.Common.{
  ℕ, ◌+◌, ◌-◌, not, ◌||◌, Option, none, some, List, [], ◌∷◌, ◌++◌, ltb, leb, ◌==◌, if◌then◌else◌,
  length, take, drop, ◌%◌,
}
use imperial_auto_governor.Common.Int.{ℤ, pos}
use imperial_auto_governor.Stream.{
  Bytes, modulus, header_length, slice, read_uint24, is_reliable_packet,
}
use imperial_auto_governor.Stream.Commands.{CommandRecord, find_command_records}
use imperial_auto_governor.Wire.{Outcome, fail, done, ◌>>=◌, actor_origin, serial_u32, validate_u32}
use imperial_auto_governor.Wire.Buildings.{BuildingTarget, build_building_record}

pub record BoundaryInjection : Type 0 where
  pub payload : Bytes
  pub injection_offset : ℕ
  pub injected_serial : ℕ
  pub carrier_offset : ℕ

abbrev appended : Bytes → ℕ → ℕ → Bytes → Outcome (Option BoundaryInjection)
appended payload limit serial command =
    if ltb limit (length payload + length command)
    then done none
    else done (
        some (record {
          payload = payload ++ command;
          injection_offset = (read_uint24 payload 6 + (length payload - header_length)) % modulus;
          injected_serial = serial;
          carrier_offset = length payload - header_length;
        }))

-- `inject_at_stream_boundary_without_translation`
unfoldable pub inject_at_stream_boundary :
    ℤ → ℤ → BuildingTarget → ℕ → Bytes → Outcome (Option BoundaryInjection)
unfolding is_reliable_packet build_building_record read_uint24
inject_at_stream_boundary serial actor target limit payload =
    if not (is_reliable_packet payload) then done none else do
      command ← build_building_record serial actor (pos 0) target
      s ← validate_u32 serial
      appended payload limit s command

pub record LiveInsertion : Type 0 where
  pub payload : Bytes
  pub injection_offset : ℕ
  pub serial : ℕ
  pub carrier_offset : ℕ
  pub carrier_length : ℕ

-- The serial of a command of the actor, unless it is zero or a field is missing.
unfoldable pub carrier_serial : ℕ → Bytes → Option ℕ
unfolding actor_origin serial_u32
carrier_serial actor bytes = elim (actor_origin bytes) [
  | fail f ↦ none
  | done (observed, origin) ↦ elim (serial_u32 bytes) [
    | fail f ↦ none
    | done serial ↦ if not (observed == actor) || serial == 0 then none else some serial
  ]
]

-- The packet with a command before the carrier, where it fits.
unfoldable pub inserted : ℕ → Bytes → CommandRecord → ℕ → Bytes → Option LiveInsertion
unfolding read_uint24
inserted limit payload carrier serial command =
    let application = drop header_length payload in
    let rewritten =
      take header_length payload
      ++ (take carrier.offset application ++ (command ++ drop carrier.offset application)) in
    if ltb limit (length rewritten)
    then none
    else some (record {
      payload = rewritten;
      injection_offset = (read_uint24 payload 6 + carrier.offset) % modulus;
      serial = serial;
      carrier_offset = carrier.offset;
      carrier_length = carrier.size;
    })

-- The loop over the records; a builder that raises ends it.
unfoldable pub insert_before :
    ℕ → BuildingTarget → ℕ → Bytes → List CommandRecord → Outcome (Option LiveInsertion)
unfolding carrier_serial build_building_record inserted
insert_before actor target limit payload [] = done none
insert_before actor target limit payload (c ∷ cs) =
    let application = drop header_length payload in
    let later = insert_before actor target limit payload cs in
    elim (carrier_serial actor (slice c.offset (c.offset + c.size) application)) [
      | none ↦ later
      | some serial ↦ elim (build_building_record (pos serial) (pos actor) (pos 0) target) [
        | fail f ↦ fail f
        | done command ↦ elim (inserted limit payload c serial command) [
          | none ↦ later
          | some i ↦ done (some i)
        ]
      ]
    ]

-- `inject_before_live_command_without_translation`
unfoldable pub inject_before_live : ℕ → BuildingTarget → ℕ → Bytes → Outcome (Option LiveInsertion)
unfolding insert_before is_reliable_packet find_command_records
inject_before_live actor target limit payload =
    if not (is_reliable_packet payload) || leb (length payload) header_length
    then done none
    else insert_before actor target limit payload
        (find_command_records (drop header_length payload))
