-- ===== src/Wire/Responses.antt =====
-- src/iag/stellaris/execution/session_proxy.py and packet/autonomous_commands.py: the host's response to a
-- request, found among the records of a packet and given the host's actor. The response to a ship design
-- is found by another routine.
pub mod Places
pub mod Retagged
mod Tests
use imperial_auto_governor.Common.{
  ℕ, ◌+◌, Bool, true, false, not, ◌&&◌, Option, none, some, List, [], ◌∷◌, ◌++◌, ◌==◌,
  if◌then◌else◌, length, take, drop,
}
use imperial_auto_governor.Common.Int.{ℤ, pos, eqb_ℤ}
use imperial_auto_governor.Stream.{Bytes, header_length, slice, same_bytes, is_reliable_packet}
use imperial_auto_governor.Stream.Commands.{CommandRecord, find_command_records}
use imperial_auto_governor.Wire.{
  value_error, runtime_error, Outcome, fail, done, ◌>>=◌, ◌>>◌, raise_if, to_little, put_bytes,
  actor_tag, value_offset, validate_u32, actor_origin, serial_u32,
}
use imperial_auto_governor.Wire.Boundary.{
  Asked, building, move_to, move_by, research, other_action, ArmRequest,
}
use imperial_auto_governor.Wire.Buildings.{BuildingTarget, record_target}
use imperial_auto_governor.Wire.Coordinates.{parse_fleet_coordinates, is_coordinates}
use imperial_auto_governor.Wire.Moves.{parse_fleet_move, is_move}
use imperial_auto_governor.Wire.Research.{parse_research, is_research, research_action, is_action}

-- `==` of two targets.
abbrev pub same_building : BuildingTarget → BuildingTarget → Bool
same_building a b =
    eqb_ℤ a.context b.context
    && (eqb_ℤ a.build_queue b.build_queue
        && (eqb_ℤ a.colony b.colony && (eqb_ℤ a.zone b.zone && same_bytes a.building b.building)))

abbrev is_building : BuildingTarget → Option BuildingTarget → Bool
is_building target none = false
is_building target (some t) = same_building t target

-- Whether a record asks for what the request asks for.
unfoldable pub asks_same : Asked → Bytes → Outcome Bool
unfolding record_target parse_fleet_move is_move parse_fleet_coordinates is_coordinates
    research_action parse_research is_research
asks_same (building target) bytes = done (is_building target (record_target bytes))
asks_same (move_to target template) bytes = do
  found ← parse_fleet_move bytes
  done (is_move target found)
asks_same (move_by target template) bytes = do
  found ← parse_fleet_coordinates bytes
  done (is_coordinates target found)
asks_same (research action target) bytes =
    if not (is_action action (research_action bytes))
    then done false
    else do found ← parse_research bytes; done (is_research target found)
asks_same (other_action builder reader) bytes = reader bytes

-- `except ValueError: continue`
abbrev pub skip_value_error : Outcome Bool → Outcome Bool
skip_value_error (fail value_error) = done false
skip_value_error o = o

-- Whether a record is the response: of the same target, of the source actor and with origin 0.
unfoldable pub is_response : ArmRequest → Bytes → Outcome Bool
unfolding asks_same actor_origin
is_response q bytes = skip_value_error (do
  same ← asks_same q.asked bytes
  sender ← actor_origin bytes
  done (same && (eqb_ℤ (pos sender.0) q.source_actor && sender.1 == 0)))

pub record Match : Type 0 where
  pub command : CommandRecord
  pub actor_offset : ℕ
  pub serial : ℕ

abbrev pub record_of : Bytes → CommandRecord → Bytes
record_of application c = slice c.offset (c.offset + c.size) application

unfoldable pub match_of : Bytes → CommandRecord → Bool → Outcome (List Match)
unfolding value_offset serial_u32
match_of application c false = done []
match_of application c true = do
  at ← value_offset actor_tag 4 (record_of application c)
  number ← serial_u32 (record_of application c)
  done (record { command = c; actor_offset = at; serial = number } ∷ [])

unfoldable pub matches : ArmRequest → Bytes → List CommandRecord → Outcome (List Match)
unfolding is_response match_of
matches q application [] = done []
matches q application (c ∷ cs) = do
  same ← is_response q (record_of application c)
  first ← match_of application c same
  rest ← matches q application cs
  done (first ++ rest)

pub record Response : Type 0 where
  pub payload : Bytes
  pub carrier : Match

-- Only the response to a building is read again.
unfoldable pub check_serial : Asked → Bytes → ℕ → Outcome (Unit {0})
unfolding serial_u32
check_serial (building target) bytes serial = do
  again ← serial_u32 bytes
  raise_if (not (again == serial)) runtime_error
check_serial _ bytes serial = done tt

-- The payload with other bytes in the place of a record.
unfoldable pub with_record : Bytes → CommandRecord → Bytes → Bytes
with_record payload c bytes =
    let application = drop header_length payload in
    take header_length payload
    ++ (take c.offset application ++ (bytes ++ drop (c.offset + c.size) application))

-- What is given back for the rewritten record.
unfoldable pub checked_response : Asked → Bytes → Match → Bytes → Outcome Response
unfolding with_record check_serial
checked_response asked payload m bytes = do
  raise_if (not (length (with_record payload m.command bytes) == length payload)) runtime_error
  check_serial asked bytes m.serial
  done (record { payload = with_record payload m.command bytes; carrier = m })

unfoldable pub retag : Asked → ℤ → Bytes → Match → Outcome Response
unfolding validate_u32 put_bytes to_little checked_response
retag asked host payload m = do
  actor ← validate_u32 host
  checked_response asked payload m (
      put_bytes m.actor_offset (to_little 4 actor)
        (record_of (drop header_length payload) m.command))

unfoldable pub only_match : Asked → ℤ → Bytes → List Match → Outcome (Option Response)
unfolding retag
only_match asked host payload [] = done none
only_match asked host payload (m ∷ []) = do r ← retag asked host payload m; done (some r)
only_match asked host payload (m ∷ n ∷ rest) = fail value_error

-- `retag_matching_response`, and `retag_matching_host_response` for a building.
unfoldable pub retag_matching_response : ArmRequest → ℤ → Bytes → Outcome (Option Response)
unfolding is_reliable_packet find_command_records matches only_match
retag_matching_response q host payload =
    let application = drop header_length payload in
    if not (is_reliable_packet payload) then done none else do
      found ← matches q application (find_command_records application)
      only_match q.asked host payload found
