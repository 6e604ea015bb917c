-- ===== src/Wire/Coordinates.antt =====
-- src/iag/stellaris/execution/session_proxy.py: the requests that move a fleet to coordinates, which are
-- signed 64-bit integers.
use imperial_auto_governor.Common.{
  ℕ, ◌+◌, ◌-◌, Bool, true, false, not, ◌&&◌, ◌||◌, Option, none, some, [], ◌∷◌, ltb, ◌==◌,
  if◌then◌else◌, length, drop,
}
use imperial_auto_governor.Common.Int.{ℤ, pos, negsuc, eqb_ℤ}
use imperial_auto_governor.Stream.{Bytes, slice, from_little, byte_at, same_bytes}
use imperial_auto_governor.Wire.{
  value_error, runtime_error, Outcome, fail, done, ◌>>=◌, ◌>>◌, raise_if, to_little, put_bytes,
  value_offset, validate_u32, stamp,
}
use imperial_auto_governor.Wire.Moves.{fleet_source_tag}

abbrev pub fleet_coordinate_family : Bytes
fleet_coordinate_family = 0x4f ∷ 0x2c ∷ 0x01 ∷ 0x00 ∷ 0x03 ∷ 0x00 ∷ []

abbrev pub fleet_x_tag : Bytes
fleet_x_tag = 0x20 ∷ 0x00 ∷ 0x01 ∷ 0x00 ∷ 0x14 ∷ 0x04 ∷ []

abbrev pub fleet_y_tag : Bytes
fleet_y_tag = 0x21 ∷ 0x00 ∷ 0x01 ∷ 0x00 ∷ 0x14 ∷ 0x04 ∷ []

abbrev pub fleet_system_tag : Bytes
fleet_system_tag = 0xa7 ∷ 0x2c ∷ 0x01 ∷ 0x00 ∷ 0x14 ∷ 0x00 ∷ []

abbrev pub fleet_flag_6340_tag : Bytes
fleet_flag_6340_tag = 0x63 ∷ 0x40 ∷ 0x01 ∷ 0x00 ∷ 0x0e ∷ 0x00 ∷ []

abbrev pub fleet_flag_de35_tag : Bytes
fleet_flag_de35_tag = 0xde ∷ 0x35 ∷ 0x01 ∷ 0x00 ∷ 0x0e ∷ 0x00 ∷ []

abbrev pub command_trailer : Bytes
command_trailer = 0x04 ∷ 0x00 ∷ 0x04 ∷ 0x00 ∷ []

abbrev pub fleet_coordinate_record : Bytes
fleet_coordinate_record =
    0x8f ∷ 0x00 ∷ 0x04 ∷ 0x00 ∷ 0x00 ∷ 0x00 ∷ 0x4f ∷ 0x2c ∷ 0x01 ∷ 0x00 ∷ 0x03 ∷ 0x00 ∷ 0xf3 ∷ 0x01
    ∷ 0x01 ∷ 0x00 ∷ 0x03 ∷ 0x00 ∷ 0x40 ∷ 0x02 ∷ 0x01 ∷ 0x00 ∷ 0x0c ∷ 0x00 ∷ 0x02 ∷ 0x00 ∷ 0x00
    ∷ 0x00 ∷ 0xc7 ∷ 0x00 ∷ 0x01 ∷ 0x00 ∷ 0x0c ∷ 0x00 ∷ 0xff ∷ 0x7f ∷ 0x00 ∷ 0x00 ∷ 0xcc ∷ 0x00
    ∷ 0x01 ∷ 0x00 ∷ 0x0e ∷ 0x00 ∷ 0x00 ∷ 0x13 ∷ 0x04 ∷ 0x01 ∷ 0x00 ∷ 0x0e ∷ 0x00 ∷ 0x00 ∷ 0xdb
    ∷ 0x00 ∷ 0x01 ∷ 0x00 ∷ 0x14 ∷ 0x00 ∷ 0x1a ∷ 0x00 ∷ 0x00 ∷ 0x00 ∷ 0x04 ∷ 0x00 ∷ 0x41 ∷ 0x00
    ∷ 0x01 ∷ 0x00 ∷ 0x03 ∷ 0x00 ∷ 0x50 ∷ 0x2c ∷ 0x01 ∷ 0x00 ∷ 0x14 ∷ 0x00 ∷ 0x03 ∷ 0x00 ∷ 0x00
    ∷ 0x00 ∷ 0x6b ∷ 0x00 ∷ 0x01 ∷ 0x00 ∷ 0x03 ∷ 0x00 ∷ 0x20 ∷ 0x00 ∷ 0x01 ∷ 0x00 ∷ 0x14 ∷ 0x04
    ∷ 0x1c ∷ 0xc4 ∷ 0x04 ∷ 0x00 ∷ 0x00 ∷ 0x00 ∷ 0x00 ∷ 0x00 ∷ 0x21 ∷ 0x00 ∷ 0x01 ∷ 0x00 ∷ 0x14
    ∷ 0x04 ∷ 0x3a ∷ 0x27 ∷ 0x46 ∷ 0xfe ∷ 0xff ∷ 0xff ∷ 0xff ∷ 0xff ∷ 0xa7 ∷ 0x2c ∷ 0x01 ∷ 0x00
    ∷ 0x14 ∷ 0x00 ∷ 0x81 ∷ 0x01 ∷ 0x00 ∷ 0x00 ∷ 0x04 ∷ 0x00 ∷ 0x63 ∷ 0x40 ∷ 0x01 ∷ 0x00 ∷ 0x0e
    ∷ 0x00 ∷ 0x00 ∷ 0xde ∷ 0x35 ∷ 0x01 ∷ 0x00 ∷ 0x0e ∷ 0x00 ∷ 0x00 ∷ 0x04 ∷ 0x00 ∷ 0x04 ∷ 0x00 ∷ []

pub record FleetCoordinateTarget : Type 0 where
  pub source_fleet : ℤ
  pub x_fixed : ℤ
  pub y_fixed : ℤ
  pub system_origin : ℤ

abbrev pub same_coordinates : FleetCoordinateTarget → FleetCoordinateTarget → Bool
same_coordinates a b =
    eqb_ℤ a.source_fleet b.source_fleet
    && (eqb_ℤ a.x_fixed b.x_fixed
        && (eqb_ℤ a.y_fixed b.y_fixed && eqb_ℤ a.system_origin b.system_origin))

-- `_validate_i64`, as the unsigned number of the same eight bytes.
unfoldable pub validate_i64 : ℤ → Outcome ℕ
validate_i64 (pos v) = if ltb v 0x8000000000000000 then done v else fail value_error
validate_i64 (negsuc v) =
    if ltb v 0x8000000000000000 then done (0xffffffffffffffff - v) else fail value_error

-- The signed integer of eight bytes.
unfoldable pub signed_i64 : ℕ → ℤ
signed_i64 v = if ltb v 0x8000000000000000 then pos v else negsuc (0xffffffffffffffff - v)

unfoldable pub read_coordinates : Bytes → Outcome (Option FleetCoordinateTarget)
unfolding value_offset from_little byte_at signed_i64
read_coordinates bytes = do
  source ← value_offset fleet_source_tag 4 bytes
  x ← value_offset fleet_x_tag 8 bytes
  y ← value_offset fleet_y_tag 8 bytes
  system ← value_offset fleet_system_tag 4 bytes
  flag_6340 ← value_offset fleet_flag_6340_tag 1 bytes
  flag_de35 ← value_offset fleet_flag_de35_tag 1 bytes
  raise_if (not (byte_at flag_6340 bytes == 0 && byte_at flag_de35 bytes == 0)) value_error
  done (
      some (record {
        source_fleet = pos (from_little (slice source (source + 4) bytes));
        x_fixed = signed_i64 (from_little (slice x (x + 8) bytes));
        y_fixed = signed_i64 (from_little (slice y (y + 8) bytes));
        system_origin = pos (from_little (slice system (system + 4) bytes));
      }))

-- `_parse_fleet_coordinate_target`
unfoldable pub parse_fleet_coordinates : Bytes → Outcome (Option FleetCoordinateTarget)
unfolding read_coordinates same_bytes from_little
parse_fleet_coordinates bytes =
    if ltb (length bytes) 12 || not (same_bytes (slice 6 12 bytes) fleet_coordinate_family)
    then done none
    else do
      raise_if (not (length bytes == 144 && from_little (slice 0 2 bytes) + 1 == 144)) value_error
      raise_if (not (same_bytes (drop (length bytes - 4) bytes) command_trailer)) value_error
      read_coordinates bytes

unfoldable pub is_coordinates : FleetCoordinateTarget → Option FleetCoordinateTarget → Bool
is_coordinates target none = false
is_coordinates target (some t) = same_coordinates t target

abbrev pub is_some : Option FleetCoordinateTarget → Bool
is_some none = false
is_some (some t) = true

unfoldable pub checked_coordinates : FleetCoordinateTarget → Bytes → Outcome Bytes
unfolding parse_fleet_coordinates is_coordinates
checked_coordinates target bytes = do
  found ← parse_fleet_coordinates bytes
  raise_if (not (is_coordinates target found)) runtime_error
  done bytes

-- `build_fleet_coordinate_record`
unfoldable pub build_fleet_coordinate_record :
    ℤ → ℤ → ℤ → FleetCoordinateTarget → Bytes → Outcome Bytes
unfolding parse_fleet_coordinates value_offset stamp validate_u32 validate_i64 put_bytes to_little
    checked_coordinates
build_fleet_coordinate_record serial actor origin target template = do
  found ← parse_fleet_coordinates template
  raise_if (not (is_some found)) value_error
  source_at ← value_offset fleet_source_tag 4 template
  x_at ← value_offset fleet_x_tag 8 template
  y_at ← value_offset fleet_y_tag 8 template
  system_at ← value_offset fleet_system_tag 4 template
  stamped ← stamp serial actor origin template
  source ← validate_u32 target.source_fleet
  x ← validate_i64 target.x_fixed
  y ← validate_i64 target.y_fixed
  system ← validate_u32 target.system_origin
  checked_coordinates target (
      put_bytes system_at (to_little 4 system) (
        put_bytes y_at (to_little 8 y)
          (put_bytes x_at (to_little 8 x) (put_bytes source_at (to_little 4 source) stamped))))
