-- ===== src/Wire/Boundary.antt =====
-- src/iag/stellaris/execution/session_proxy.py and packet/ship_commands.py: a request, its record with the
-- application prefix, and its insertion at a pure acknowledgement, in fragments that fit a datagram.
pub mod Fragments
pub mod Pages
pub mod Prefix
use imperial_auto_governor.Common.{
  ℕ, zero, suc, ◌+◌, ◌-◌, ◌/◌, ◌%◌, ◌≡◌, Bool, true, false, not, ◌&&◌, ◌||◌, Option, none, some,
  List, [], ◌∷◌, ◌++◌, ltb, leb, ◌==◌, if◌then◌else◌, length, take, drop,
}
use imperial_auto_governor.Common.Int.{ℤ}
use imperial_auto_governor.Stream.{
  Bytes, header_length, envelope_type, slice, byte_at, same_bytes, read_uint24, write_uint24,
  is_reliable_packet,
}
use imperial_auto_governor.Wire.{Failure, value_error, Outcome, fail, done, ◌>>=◌, ◌>>◌, raise_if}
use imperial_auto_governor.Wire.Buildings.{BuildingTarget, build_building_record}
use imperial_auto_governor.Wire.Coordinates.{
  FleetCoordinateTarget, fleet_coordinate_record, build_fleet_coordinate_record,
}
use imperial_auto_governor.Wire.Moves.{FleetMoveTarget, build_fleet_move_record}
use imperial_auto_governor.Wire.Research.{ResearchAction, ResearchTarget, build_research_record}

-- What a request asks for. The records of the other actions are built by other modules: the last
-- constructor holds the builder, of the serial, the actor and the origin, and the test of a response.
pub data Asked : Type 0 where
  building : BuildingTarget → Asked
  move_to : FleetMoveTarget → Bytes → Asked
  move_by : FleetCoordinateTarget → Bytes → Asked
  research : ResearchAction → ResearchTarget → Asked
  other_action : (ℤ → ℤ → ℤ → Outcome Bytes) → (Bytes → Outcome Bool) → Asked

pub record ArmRequest : Type 0 where
  pub source_actor : ℤ
  pub request_origin : ℤ
  pub asked : Asked

-- `template_record or FLEET_COORDINATE_RECORD`
abbrev pub coordinate_template : Bytes → Bytes
coordinate_template [] = fleet_coordinate_record
coordinate_template (b ∷ bs) = b ∷ bs

unfoldable pub build_asked : ℤ → ℤ → ℤ → Asked → Outcome Bytes
unfolding build_building_record build_fleet_move_record build_fleet_coordinate_record
    build_research_record
build_asked serial actor origin (building target) = build_building_record serial actor origin target
build_asked serial actor origin (move_to target template) =
    build_fleet_move_record serial actor origin target template
build_asked serial actor origin (move_by target template) =
    build_fleet_coordinate_record serial actor origin target (coordinate_template template)
build_asked serial actor origin (research action target) =
    build_research_record action serial actor origin target
build_asked serial actor origin (other_action builder reader) = builder serial actor origin

-- `_build_request_record`
unfoldable pub build_request_record : ArmRequest → ℤ → Outcome Bytes
unfolding build_asked
build_request_record q serial = build_asked serial q.source_actor q.request_origin q.asked

-- `application_prefix_for_record`
unfoldable pub application_prefix : Bytes → Outcome Bytes
unfolding same_bytes byte_at
application_prefix bytes =
    let declared = length bytes - 1 in
    if ltb (length bytes) 7 || not (same_bytes (slice 1 6 bytes) (0 ∷ envelope_type))
    then fail value_error
    else if not (byte_at 0 bytes == declared % 256)
    then fail value_error
    else if ltb 255 (declared / 256)
    then fail value_error
    else done (0 ∷ 0 ∷ declared / 256 ∷ [])

-- The datagrams for what is left of the application, which begins at an offset of the stream. Each takes
-- at least one byte, so the fuel is the number of bytes.
unfoldable pub fragments : ℕ → ℕ → Bytes → ℕ → Bytes → List Bytes
unfolding write_uint24
fragments fuel capacity payload offset [] = []
fragments zero capacity payload offset (b ∷ rest) = []
fragments (suc fuel) capacity payload offset (b ∷ rest) =
    (write_uint24 payload 6 offset ++ take capacity (b ∷ rest))
    ∷ fragments fuel capacity payload (offset + capacity) (drop capacity (b ∷ rest))

pub record Injection : Type 0 where
  pub payload : Bytes
  pub wire_payloads : List Bytes
  pub injection_offset : ℕ
  pub serial : ℤ
  pub command_length : ℕ
  pub inserted_length : ℕ

-- A command and its prefix at the end of a pure acknowledgement.
unfoldable pub injection : Bytes → ℤ → ℕ → Bytes → Bytes → Injection
unfolding fragments read_uint24
injection payload serial limit prefix command =
    let application = prefix ++ command in
    record {
      payload = payload ++ application;
      wire_payloads =
          fragments (length application) (limit - header_length) payload (read_uint24 payload 6)
            application;
      injection_offset = read_uint24 payload 6;
      serial = serial;
      command_length = length command;
      inserted_length = length application;
    }

unfoldable pub injected_request : ArmRequest → ℤ → ℕ → Bytes → Outcome Injection
unfolding build_request_record application_prefix injection
injected_request q serial limit payload = do
  command ← build_request_record q serial
  prefix ← application_prefix command
  raise_if (leb limit header_length) value_error
  done (injection payload serial limit prefix command)

-- `inject_at_packet_boundary`
unfoldable pub inject_at_packet_boundary : ArmRequest → ℤ → ℕ → Bytes → Outcome (Option Injection)
unfolding injected_request is_reliable_packet
inject_at_packet_boundary q serial limit payload =
    if not (is_reliable_packet payload) || not (length payload == header_length)
    then done none
    else do i ← injected_request q serial limit payload; done (some i)
