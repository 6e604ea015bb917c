-- ===== src/Wire/Moves.antt =====
-- src/iag/stellaris/execution/session_proxy.py: the requests that move a fleet to an object.
use imperial_auto_governor.Common.{
  ℕ, ◌+◌, String, str_eq, Bool, false, not, ◌&&◌, ◌||◌, Option, none, some, List, [], ◌∷◌, ◌++◌,
  ltb, if◌then◌else◌, length,
}
use imperial_auto_governor.Common.Int.{ℤ, pos, eqb_ℤ}
use imperial_auto_governor.Stream.{Bytes, slice, from_little, same_bytes}
use imperial_auto_governor.Stream.Commands.{offsets_of}
use imperial_auto_governor.Wire.{
  value_error, runtime_error, key_error, Outcome, fail, done, ◌>>=◌, ◌>>◌, raise_if, to_little,
  put_bytes, value_offset, validate_u32, stamp, is_declared,
}

abbrev pub fleet_move_family : Bytes
fleet_move_family = 0xd3 ∷ 0x2c ∷ []

abbrev pub fleet_source_tag : Bytes
fleet_source_tag = 0x50 ∷ 0x2c ∷ 0x01 ∷ 0x00 ∷ 0x14 ∷ 0x00 ∷ []

abbrev pub object_tag : Bytes
object_tag = 0x0c ∷ 0x3a ∷ 0x01 ∷ 0x00 ∷ 0x14 ∷ 0x00 ∷ []

abbrev pub planet_tag : Bytes
planet_tag = 0x13 ∷ 0x2a ∷ 0x01 ∷ 0x00 ∷ 0x14 ∷ 0x00 ∷ []

-- FLEET_MOVE_RECORDS["0c3a01001400"]
abbrev pub object_move_record : Bytes
object_move_record =
    0x73 ∷ 0x00 ∷ 0x04 ∷ 0x00 ∷ 0x00 ∷ 0x00 ∷ 0xd3 ∷ 0x2c ∷ 0x01 ∷ 0x00 ∷ 0x03 ∷ 0x00 ∷ 0xf3 ∷ 0x01
    ∷ 0x01 ∷ 0x00 ∷ 0x03 ∷ 0x00 ∷ 0x40 ∷ 0x02 ∷ 0x01 ∷ 0x00 ∷ 0x0c ∷ 0x00 ∷ 0x01 ∷ 0x00 ∷ 0x00
    ∷ 0x00 ∷ 0xc7 ∷ 0x00 ∷ 0x01 ∷ 0x00 ∷ 0x0c ∷ 0x00 ∷ 0xff ∷ 0x7f ∷ 0x00 ∷ 0x00 ∷ 0xcc ∷ 0x00
    ∷ 0x01 ∷ 0x00 ∷ 0x0e ∷ 0x00 ∷ 0x00 ∷ 0x13 ∷ 0x04 ∷ 0x01 ∷ 0x00 ∷ 0x0e ∷ 0x00 ∷ 0x00 ∷ 0xdb
    ∷ 0x00 ∷ 0x01 ∷ 0x00 ∷ 0x14 ∷ 0x00 ∷ 0x6e ∷ 0x16 ∷ 0x00 ∷ 0x00 ∷ 0x04 ∷ 0x00 ∷ 0x41 ∷ 0x00
    ∷ 0x01 ∷ 0x00 ∷ 0x03 ∷ 0x00 ∷ 0x50 ∷ 0x2c ∷ 0x01 ∷ 0x00 ∷ 0x14 ∷ 0x00 ∷ 0x03 ∷ 0x00 ∷ 0x00
    ∷ 0x00 ∷ 0x63 ∷ 0x40 ∷ 0x01 ∷ 0x00 ∷ 0x0e ∷ 0x00 ∷ 0x00 ∷ 0xde ∷ 0x35 ∷ 0x01 ∷ 0x00 ∷ 0x0e
    ∷ 0x00 ∷ 0x00 ∷ 0x8b ∷ 0x3d ∷ 0x01 ∷ 0x00 ∷ 0x03 ∷ 0x00 ∷ 0x0c ∷ 0x3a ∷ 0x01 ∷ 0x00 ∷ 0x14
    ∷ 0x00 ∷ 0x00 ∷ 0x00 ∷ 0x00 ∷ 0x00 ∷ 0x04 ∷ 0x00 ∷ 0x04 ∷ 0x00 ∷ 0x04 ∷ 0x00 ∷ []

-- FLEET_MOVE_RECORDS["132a01001400"]
abbrev pub planet_move_record : Bytes
planet_move_record =
    0x73 ∷ 0x00 ∷ 0x04 ∷ 0x00 ∷ 0x00 ∷ 0x00 ∷ 0xd3 ∷ 0x2c ∷ 0x01 ∷ 0x00 ∷ 0x03 ∷ 0x00 ∷ 0xf3 ∷ 0x01
    ∷ 0x01 ∷ 0x00 ∷ 0x03 ∷ 0x00 ∷ 0x40 ∷ 0x02 ∷ 0x01 ∷ 0x00 ∷ 0x0c ∷ 0x00 ∷ 0x01 ∷ 0x00 ∷ 0x00
    ∷ 0x00 ∷ 0xc7 ∷ 0x00 ∷ 0x01 ∷ 0x00 ∷ 0x0c ∷ 0x00 ∷ 0xff ∷ 0x7f ∷ 0x00 ∷ 0x00 ∷ 0xcc ∷ 0x00
    ∷ 0x01 ∷ 0x00 ∷ 0x0e ∷ 0x00 ∷ 0x00 ∷ 0x13 ∷ 0x04 ∷ 0x01 ∷ 0x00 ∷ 0x0e ∷ 0x00 ∷ 0x00 ∷ 0xdb
    ∷ 0x00 ∷ 0x01 ∷ 0x00 ∷ 0x14 ∷ 0x00 ∷ 0xdd ∷ 0x02 ∷ 0x00 ∷ 0x00 ∷ 0x04 ∷ 0x00 ∷ 0x41 ∷ 0x00
    ∷ 0x01 ∷ 0x00 ∷ 0x03 ∷ 0x00 ∷ 0x50 ∷ 0x2c ∷ 0x01 ∷ 0x00 ∷ 0x14 ∷ 0x00 ∷ 0x03 ∷ 0x00 ∷ 0x00
    ∷ 0x00 ∷ 0x63 ∷ 0x40 ∷ 0x01 ∷ 0x00 ∷ 0x0e ∷ 0x00 ∷ 0x00 ∷ 0xde ∷ 0x35 ∷ 0x01 ∷ 0x00 ∷ 0x0e
    ∷ 0x00 ∷ 0x00 ∷ 0x8b ∷ 0x3d ∷ 0x01 ∷ 0x00 ∷ 0x03 ∷ 0x00 ∷ 0x13 ∷ 0x2a ∷ 0x01 ∷ 0x00 ∷ 0x14
    ∷ 0x00 ∷ 0x04 ∷ 0x01 ∷ 0x00 ∷ 0x00 ∷ 0x04 ∷ 0x00 ∷ 0x04 ∷ 0x00 ∷ 0x04 ∷ 0x00 ∷ []

pub record FleetMoveTarget : Type 0 where
  pub source_fleet : ℤ
  pub destination_tag : String
  pub destination : ℤ

abbrev pub same_move : FleetMoveTarget → FleetMoveTarget → Bool
same_move a b =
    eqb_ℤ a.source_fleet b.source_fleet
    && (str_eq a.destination_tag b.destination_tag && eqb_ℤ a.destination b.destination)

-- The value of one destination tag, if the tag is there.
unfoldable pub destination_at : String → Bytes → List ℕ → Outcome (List (String × ℕ))
unfolding from_little
destination_at tag bytes [] = done []
destination_at tag bytes (o ∷ []) =
    if ltb (length bytes) (o + 6 + 4)
    then fail value_error
    else done ((tag, from_little (slice (o + 6) (o + 6 + 4) bytes)) ∷ [])
destination_at tag bytes (o ∷ p ∷ rest) = fail value_error

unfoldable pub move_target : ℕ → List (String × ℕ) → Outcome (Option FleetMoveTarget)
move_target source ((tag, object) ∷ []) =
    done
      (some (record { source_fleet = pos source; destination_tag = tag; destination = pos object }))
move_target source _ = fail value_error

unfoldable pub read_move : Bytes → Outcome (Option FleetMoveTarget)
unfolding destination_at move_target value_offset from_little offsets_of
read_move bytes = do
  source ← value_offset fleet_source_tag 4 bytes
  objects ← destination_at "0c3a01001400" bytes (offsets_of object_tag 0 bytes)
  planets ← destination_at "132a01001400" bytes (offsets_of planet_tag 0 bytes)
  move_target (from_little (slice source (source + 4) bytes)) (objects ++ planets)

-- `_parse_fleet_move_target`
unfoldable pub parse_fleet_move : Bytes → Outcome (Option FleetMoveTarget)
unfolding read_move same_bytes
parse_fleet_move bytes =
    if ltb (length bytes) 60 || not (same_bytes (slice 6 8 bytes) fleet_move_family)
    then done none
    else read_move bytes

-- `FLEET_MOVE_RECORDS[tag]`
unfoldable pub move_record : String → Outcome Bytes
move_record tag =
    if str_eq tag "0c3a01001400"
    then done object_move_record
    else if str_eq tag "132a01001400"
    then done planet_move_record
    else fail key_error

-- `bytes.fromhex(tag)` of a tag that has a fixture.
abbrev pub tag_bytes : String → Bytes
tag_bytes tag = if str_eq tag "0c3a01001400" then object_tag else planet_tag

unfoldable pub fits_template : FleetMoveTarget → Option FleetMoveTarget → Bool
fits_template target none = false
fits_template target (some t) = str_eq t.destination_tag target.destination_tag

unfoldable pub is_move : FleetMoveTarget → Option FleetMoveTarget → Bool
is_move target none = false
is_move target (some t) = same_move t target

-- The checks of the record that is returned.
unfoldable pub checked_move : FleetMoveTarget → Bytes → Outcome Bytes
unfolding parse_fleet_move is_move is_declared
checked_move target bytes = do
  raise_if (not (is_declared bytes)) runtime_error
  found ← parse_fleet_move bytes
  raise_if (not (is_move target found)) runtime_error
  done bytes

-- `template_record or FLEET_MOVE_RECORDS[tag]`, where no template is the empty one.
unfoldable pub template_or : String → Bytes → Outcome Bytes
unfolding move_record
template_or tag [] = move_record tag
template_or tag (b ∷ bs) = done (b ∷ bs)

-- `build_fleet_move_record`
unfoldable pub build_fleet_move_record : ℤ → ℤ → ℤ → FleetMoveTarget → Bytes → Outcome Bytes
unfolding template_or parse_fleet_move fits_template value_offset stamp validate_u32 put_bytes
    to_little checked_move
build_fleet_move_record serial actor origin target template_bytes = do
  template ← template_or target.destination_tag template_bytes
  found ← parse_fleet_move template
  raise_if (not (fits_template target found)) value_error
  source_at ← value_offset fleet_source_tag 4 template
  destination_offset ← value_offset (tag_bytes target.destination_tag) 4 template
  stamped ← stamp serial actor origin template
  source ← validate_u32 target.source_fleet
  destination ← validate_u32 target.destination
  checked_move target (
      put_bytes destination_offset (to_little 4 destination)
        (put_bytes source_at (to_little 4 source) stamped))
