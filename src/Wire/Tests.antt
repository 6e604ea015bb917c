-- ===== src/Wire/Tests.antt =====
-- A fleet move that is built, injected, seen and translated, and a building whose identifier is too long.
use imperial_auto_governor.Common.{
  true, length, All, drop, ℕ, ◌+◌, ◌≡◌, ◌<◌, ◌≤◌, refl, List, [], ◌∷◌, ◌++◌, arith, replicate, In,
}
use imperial_auto_governor.Common.Int.{pos, negsuc}
use imperial_auto_governor.Flow.{outbound}
use imperial_auto_governor.Stream.{
  command_marker, starts_with, header_length, Bytes, is_reliable_packet,
}
use imperial_auto_governor.Stream.Commands.{find_command_records}
use imperial_auto_governor.Wire.{Outcome, fail, done, value_error}
use imperial_auto_governor.Wire.Boundary.{
  ArmRequest, move_to, move_by, build_request_record, application_prefix,
}
use imperial_auto_governor.Wire.Boundary.Fragments.{Carries, inject_at_packet_boundary-Carries}
use imperial_auto_governor.Wire.Boundary.Pages.{build_building_record-application_prefix}
use imperial_auto_governor.Wire.Boundary.Prefix.{behind_prefix, application_prefix-In}
use imperial_auto_governor.Wire.Serials.Apart.{IsApart, find_command_records-IsApart}
use imperial_auto_governor.Wire.Buildings.{BuildingTarget, building_prefix, build_building_record}
use imperial_auto_governor.Wire.Moves.{FleetMoveTarget, build_fleet_move_record}
use imperial_auto_governor.Wire.Filled.{IsFilled, build_fleet_move_record-IsFilled}
use imperial_auto_governor.Wire.Serials.{
  Sender, Serials, Observed, Shifted, next_actor_serial, observe_command_serials, outbound_serials,
  translate_commands,
}
use imperial_auto_governor.Wire.Serials.Fresh.{next_actor_serial_fresh}
use imperial_auto_governor.Wire.Serials.Shift.{IsRewrite}
use imperial_auto_governor.Wire.Serials.Written.{IsWritten, translate_commands-IsWritten}

evaluated : Unit {0}
unfolding starts_with build_request_record application_prefix is_reliable_packet
    observe_command_serials next_actor_serial translate_commands outbound_serials
    build_building_record
evaluated = tt

abbrev move : FleetMoveTarget
move = record { source_fleet = pos 3; destination_tag = "0c3a01001400"; destination = pos 77000 }

abbrev request : ArmRequest
request = record { source_actor = pos 2; request_origin = pos 0; asked = move_to move [] }

abbrev bytes_of : Outcome Bytes → Bytes
bytes_of (fail f) = []
bytes_of (done b) = b

abbrev command : Bytes
command = bytes_of (build_request_record request (pos 41))

command_built : build_request_record request (pos 41) ≡ done command
unfolding evaluated
command_built = refl

-- A coordinate that is negative, and a technology.
moved_by :
    bytes_of (
        build_request_record
          (record request {
            asked =
                move_by
                  (record {
                    source_fleet = pos 3;
                    x_fixed = pos 70000;
                    y_fixed = negsuc 4;
                    system_origin = pos 9;
                  })
                  [];
          })
          (pos 41))
      ≡ []
    → ⊥
unfolding evaluated
moved_by h = ground arith

abbrev acknowledgement : Bytes
acknowledgement = 1 ∷ 0 ∷ 0 ∷ 0 ∷ 0 ∷ 0 ∷ 0 ∷ 1 ∷ 2 ∷ replicate 16 0

prefix_known : application_prefix command ≡ done (0 ∷ 0 ∷ 0 ∷ [])
unfolding evaluated
prefix_known = refl

move_built : build_fleet_move_record (pos 41) (pos 2) (pos 0) move [] ≡ done command
unfolding evaluated
move_built = refl

build_fleet_move_record-IsFilled_example : IsFilled (pos 41) (pos 2) (pos 0) move command
build_fleet_move_record-IsFilled_example =
    build_fleet_move_record-IsFilled (pos 41) (pos 2) (pos 0) move command move_built

inject_at_packet_boundary-Carries_example :
    Carries request (pos 41) 100 acknowledgement command (0 ∷ 0 ∷ 0 ∷ [])
unfolding evaluated
inject_at_packet_boundary-Carries_example =
    inject_at_packet_boundary-Carries request (pos 41) 100 acknowledgement command (0 ∷ 0 ∷ 0 ∷ [])
      refl refl command_built prefix_known (omega arith)

command_size : length command ≡ 116
unfolding evaluated
command_size = refl

marked : starts_with command_marker (drop 12 command) ≡ true
unfolding evaluated
marked = refl

application_prefix-In_example :
    In (behind_prefix command) (find_command_records (0 ∷ 0 ∷ 0 ∷ command))
application_prefix-In_example =
    application_prefix-In command (0 ∷ 0 ∷ 0 ∷ []) prefix_known (omega (arith, command_size)) marked

find_command_records-IsApart_example :
    IsApart 0 (find_command_records (0 ∷ 0 ∷ 0 ∷ (command ++ 0 ∷ 0 ∷ 0 ∷ command)))
find_command_records-IsApart_example =
    find_command_records-IsApart (0 ∷ 0 ∷ 0 ∷ (command ++ 0 ∷ 0 ∷ 0 ∷ command))

-- A packet that carries the command.
abbrev packet : Bytes
packet = acknowledgement ++ (0 ∷ 0 ∷ 0 ∷ command)

abbrev seen : Observed
seen = record { actor = 2; origin = 0; serial = 41; size = 116 }

abbrev known : Serials
known = (record { direction = outbound; actor = 2; origin = 0 }, 41) ∷ []

packet_seen : observe_command_serials packet outbound [] ≡ (seen ∷ [], known)
unfolding evaluated
packet_seen = refl

next_known : next_actor_serial known 2 7 5 40 ≡ done 47
unfolding evaluated
next_known = refl

next_actor_serial_fresh_example :
    ((s : Sender) (m : ℕ) → In (s, m) known → s.direction ≡ outbound → s.actor ≡ 2 → m + 5 < 47)
    × (7 < 47)
    × (40 < 47)
    × (47 ≤ 0xffffffff)
next_actor_serial_fresh_example = next_actor_serial_fresh known 2 7 5 40 47 next_known

abbrev shifted : Outcome (Bytes × List Shifted)
shifted = translate_commands 2 3 packet

abbrev pair_of : Outcome (Bytes × List Shifted) → Bytes × List Shifted
pair_of (fail f) = ([], [])
pair_of (done p) = p

translate_known : translate_commands 2 3 packet ≡ done (pair_of shifted)
unfolding evaluated
translate_known = refl

one_shift : (pair_of shifted).1 ≡ record { observed = seen; translated = 44 } ∷ []
unfolding evaluated
one_shift = refl

translate_commands-IsWritten_example :
    IsRewrite 2 3 packet (pair_of shifted).0 (pair_of shifted).1
    × All (IsWritten (drop header_length packet) (pair_of shifted).0) (pair_of shifted).1
translate_commands-IsWritten_example =
    translate_commands-IsWritten 2 3 packet (pair_of shifted).0 (pair_of shifted).1 translate_known

-- 127 bytes.
abbrev long_target : BuildingTarget
long_target = record {
  context = pos 1;
  build_queue = pos 2;
  colony = pos 3;
  zone = pos 4;
  building = building_prefix ++ replicate 118 97;
}

abbrev long_record : Bytes
long_record = bytes_of (build_building_record (pos 41) (pos 2) (pos 0) long_target)

long_built : build_building_record (pos 41) (pos 2) (pos 0) long_target ≡ done long_record
unfolding evaluated
long_built = refl

build_building_record-application_prefix_example : application_prefix long_record ≡ fail value_error
build_building_record-application_prefix_example =
    build_building_record-application_prefix (pos 41) (pos 2) (pos 0) long_target long_record
      long_built (omega arith)
