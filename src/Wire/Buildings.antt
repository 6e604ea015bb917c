-- ===== src/Wire/Buildings.antt =====
-- src/iag/stellaris/execution/packet/autonomous_commands.py: the building request.
pub mod Insert
pub mod Sizes
use imperial_auto_governor.Common.{
  ℕ, ◌+◌, ◌-◌, ◌≡◌, refl, Bool, true, false, not, ◌&&◌, ◌||◌, Option, none, some, List, [], ◌∷◌,
  ◌++◌, ltb, leb, ◌==◌, if◌then◌else◌, length, take, drop, ◌%◌,
}
use imperial_auto_governor.Common.Int.{ℤ, pos, negsuc, eqb_ℤ}
use imperial_auto_governor.Stream.{
  Bytes, modulus, header_length, serial_offset, slice, from_little, same_bytes, starts_with,
  read_uint24, is_reliable_packet,
}
use imperial_auto_governor.Stream.Commands.{CommandRecord, find_command_records}
use imperial_auto_governor.Wire.{
  Failure, value_error, runtime_error, Outcome, fail, done, ◌>>=◌, ◌>>◌, raise_if, context_tag,
  build_queue_tag, building_tag, colony_tag, zone_tag, command_family, to_little, put_bytes,
  value_offset, u32, actor_origin, serial_u32, set_tagged_u32, stamp, is_declared, ascii,
  validate_u32,
}

-- RESEARCH_LAB_RECORD_TEMPLATE
abbrev pub research_lab_record : Bytes
research_lab_record =
    0x98 ∷ 0x00 ∷ 0x04 ∷ 0x00 ∷ 0x00 ∷ 0x00 ∷ 0xb4 ∷ 0x3d ∷ 0x01 ∷ 0x00 ∷ 0x03 ∷ 0x00 ∷ 0xf3 ∷ 0x01
    ∷ 0x01 ∷ 0x00 ∷ 0x03 ∷ 0x00 ∷ 0x40 ∷ 0x02 ∷ 0x01 ∷ 0x00 ∷ 0x0c ∷ 0x00 ∷ 0x02 ∷ 0x00 ∷ 0x00
    ∷ 0x00 ∷ 0xc7 ∷ 0x00 ∷ 0x01 ∷ 0x00 ∷ 0x0c ∷ 0x00 ∷ 0xff ∷ 0x7f ∷ 0x00 ∷ 0x00 ∷ 0xcc ∷ 0x00
    ∷ 0x01 ∷ 0x00 ∷ 0x0e ∷ 0x00 ∷ 0x00 ∷ 0x13 ∷ 0x04 ∷ 0x01 ∷ 0x00 ∷ 0x0e ∷ 0x00 ∷ 0x00 ∷ 0xdb
    ∷ 0x00 ∷ 0x01 ∷ 0x00 ∷ 0x14 ∷ 0x00 ∷ 0x5b ∷ 0x00 ∷ 0x00 ∷ 0x00 ∷ 0x04 ∷ 0x00 ∷ 0x41 ∷ 0x00
    ∷ 0x01 ∷ 0x00 ∷ 0x03 ∷ 0x00 ∷ 0x82 ∷ 0x2c ∷ 0x01 ∷ 0x00 ∷ 0x14 ∷ 0x00 ∷ 0x00 ∷ 0x00 ∷ 0x00
    ∷ 0x00 ∷ 0x63 ∷ 0x40 ∷ 0x01 ∷ 0x00 ∷ 0x14 ∷ 0x00 ∷ 0x1d ∷ 0x01 ∷ 0x00 ∷ 0x00 ∷ 0xb2 ∷ 0x3d
    ∷ 0x01 ∷ 0x00 ∷ 0x03 ∷ 0x00 ∷ 0xb2 ∷ 0x2b ∷ 0x01 ∷ 0x00 ∷ 0x0f ∷ 0x00 ∷ 0x17 ∷ 0x00 ∷ 0x62
    ∷ 0x75 ∷ 0x69 ∷ 0x6c ∷ 0x64 ∷ 0x69 ∷ 0x6e ∷ 0x67 ∷ 0x5f ∷ 0x72 ∷ 0x65 ∷ 0x73 ∷ 0x65 ∷ 0x61
    ∷ 0x72 ∷ 0x63 ∷ 0x68 ∷ 0x5f ∷ 0x6c ∷ 0x61 ∷ 0x62 ∷ 0x5f ∷ 0x31 ∷ 0x13 ∷ 0x2a ∷ 0x01 ∷ 0x00
    ∷ 0x14 ∷ 0x00 ∷ 0x50 ∷ 0x00 ∷ 0x00 ∷ 0x00 ∷ 0xb3 ∷ 0x2b ∷ 0x01 ∷ 0x00 ∷ 0x14 ∷ 0x00 ∷ 0xd4
    ∷ 0x00 ∷ 0x00 ∷ 0x00 ∷ 0x04 ∷ 0x00 ∷ 0x04 ∷ 0x00 ∷ 0x04 ∷ 0x00 ∷ []

pub record BuildingTarget : Type 0 where
  pub context : ℤ
  pub build_queue : ℤ
  pub colony : ℤ
  pub zone : ℤ
  pub building : List ℕ

-- "building_"
abbrev pub building_prefix : List ℕ
building_prefix = 98 ∷ 117 ∷ 105 ∷ 108 ∷ 100 ∷ 105 ∷ 110 ∷ 103 ∷ 95 ∷ []

-- The text of a length that stands before it.
unfoldable pub sized_text : Bytes → ℕ → Outcome (List ℕ)
unfolding from_little ascii
sized_text bytes offset =
    let size = from_little (slice offset (offset + 2) bytes) in
    let value = slice (offset + 2) (offset + 2 + size) bytes in
    if length value == size then ascii value else fail value_error

-- `_building_id`
unfoldable pub building_id : Bytes → Outcome (List ℕ)
unfolding value_offset sized_text
building_id bytes = do o ← value_offset building_tag 2 bytes; sized_text bytes o

-- The fixture with another identifier, and with its declared length.
unfoldable pub resized_at : Bytes → Bytes → ℕ → Bytes
unfolding from_little to_little put_bytes
resized_at fixture encoded o =
    let end = o + 2 + from_little (slice o (o + 2) fixture) in
    let bytes = take o fixture ++ (to_little 2 (length encoded) ++ (encoded ++ drop end fixture)) in
    put_bytes 0 (to_little 2 (length bytes - 1)) bytes

unfoldable pub resized : Bytes → Outcome Bytes
unfolding value_offset resized_at
resized encoded = do
  o ← value_offset building_tag 2 research_lab_record
  done (resized_at research_lab_record encoded o)

-- The fields of the target.
unfoldable pub fill_target : BuildingTarget → Bytes → Outcome Bytes
unfolding set_tagged_u32
fill_target target bytes = do
  b₁ ← set_tagged_u32 context_tag target.context bytes
  b₂ ← set_tagged_u32 build_queue_tag target.build_queue b₁
  b₃ ← set_tagged_u32 colony_tag target.colony b₂
  set_tagged_u32 zone_tag target.zone b₃

-- The checks of the record that is returned.
unfoldable pub checked_building : BuildingTarget → Bytes → Outcome Bytes
unfolding building_id same_bytes is_declared
checked_building target bytes = do
  id ← building_id bytes
  raise_if (not (same_bytes id target.building)) runtime_error
  raise_if (not (is_declared bytes)) runtime_error
  done bytes

-- The identifier in ASCII, if it is a building's and has 1 to 255 bytes.
unfoldable pub encoded_building : ℤ → List ℕ → Outcome Bytes
unfolding ascii starts_with
encoded_building origin building = do
  raise_if (not (eqb_ℤ origin (pos 0) || eqb_ℤ origin (pos 1))) value_error
  encoded ← ascii building
  raise_if (not (starts_with building_prefix building)) value_error
  raise_if (not (leb 1 (length encoded) && leb (length encoded) 255)) value_error
  done encoded

-- The checks of the fixture.
unfoldable pub fixture_checks : Bytes → Outcome Bytes
unfolding same_bytes is_declared
fixture_checks fixture = do
  raise_if (not (same_bytes (slice 6 12 fixture) command_family)) runtime_error
  raise_if (not (is_declared fixture)) runtime_error
  done fixture

unfoldable pub checked_fixture : Bytes → Outcome Bytes
unfolding resized fixture_checks
checked_fixture encoded = resized encoded >>= fixture_checks

unfoldable pub filled_building : ℤ → ℤ → ℤ → BuildingTarget → Bytes → Outcome Bytes
unfolding stamp fill_target checked_building
filled_building serial actor origin target fixture = do
  stamped ← stamp serial actor origin fixture
  filled ← fill_target target stamped
  checked_building target filled

-- `build_building_record`
unfoldable pub build_building_record : ℤ → ℤ → ℤ → BuildingTarget → Outcome Bytes
unfolding encoded_building checked_fixture filled_building
build_building_record serial actor origin target = do
  encoded ← encoded_building origin target.building
  fixture ← checked_fixture encoded
  filled_building serial actor origin target fixture

-- The four fields in the order of `_record_target`.
unfoldable pub read_target : Bytes → Outcome BuildingTarget
unfolding building_id u32
read_target bytes = do
  id ← building_id bytes
  context ← u32 context_tag bytes
  queue ← u32 build_queue_tag bytes
  colony ← u32 colony_tag bytes
  zone ← u32 zone_tag bytes
  done (record {
    context = pos context;
    build_queue = pos queue;
    colony = pos colony;
    zone = pos zone;
    building = id;
  })

-- `_record_target`
unfoldable pub record_target : Bytes → Option BuildingTarget
unfolding read_target same_bytes
record_target bytes =
    if not (same_bytes (slice 6 12 bytes) command_family)
    then none
    else elim (read_target bytes) [ fail f ↦ none | done t ↦ some t ]
