-- ===== src/Stream/Commands.antt =====
-- src/iag/stellaris/execution/packet/iag_stream_command_injector.py: command records of a byte range, the
-- shift of later serials, and the insertion of a command. A loop over `find` visits every offset at
-- which the marker stands, in order. The builder of a command is a parameter, as in the source.
pub mod Found
pub mod Lengths
use imperial_auto_governor.Common.{
  ℕ, zero, suc, ◌+◌, ◌-◌, ◌*◌, ◌/◌, ◌%◌, Bool, true, false, not, ◌&&◌, ◌||◌, Option, none, some,
  List, [], ◌∷◌, ◌++◌, leb, ◌==◌, if◌then◌else◌, length, take, drop, select,
}
use imperial_auto_governor.Stream.{
  Bytes, modulus, header_length, command_marker, envelope_type, serial_offset, slice, from_little,
  byte_at, same_bytes, starts_with, read_uint24, is_reliable_packet,
}

-- The offsets of a marker, counted from `offset`.
unfoldable pub offsets_of : Bytes → ℕ → Bytes → List ℕ
unfolding starts_with
offsets_of marker offset [] = []
offsets_of marker offset (b ∷ bs) =
    let rest = offsets_of marker (suc offset) bs in
    if starts_with marker (b ∷ bs) then offset ∷ rest else rest

pub record CommandRecord : Type 0 where
  pub offset : ℕ
  pub size : ℕ
  pub serial : ℕ

-- The page of a long record stands in a prefix `00 00 PP` before it.
unfoldable pub prefix_page : Bytes → ℕ → ℕ
unfolding same_bytes byte_at
prefix_page bytes offset =
    if leb 3 offset && same_bytes (slice (offset - 3) (offset - 1) bytes) (0 ∷ 0 ∷ [])
    then byte_at (offset - 1) bytes
    else 0

unfoldable pub has_envelope : Bytes → ℕ → Bool
unfolding same_bytes
has_envelope bytes offset = same_bytes (slice (offset + 2) (offset + 6) bytes) envelope_type

-- The record whose marker stands at an offset.
unfoldable pub record_at : Bytes → ℕ → Option CommandRecord
unfolding prefix_page has_envelope byte_at from_little
record_at bytes marker =
    let offset = marker - 12 in
    let size = prefix_page bytes offset * 256 + byte_at offset bytes + 1 in
    if (leb 12 marker && leb (offset + 60) (length bytes))
      && (leb 60 size
          && (leb size 65536 && (leb (offset + size) (length bytes) && has_envelope bytes offset)))
    then some (record {
      offset = offset;
      size = size;
      serial = from_little (slice (offset + serial_offset) (offset + serial_offset + 2) bytes);
    })
    else none

abbrev pub added : Option CommandRecord → List CommandRecord → List CommandRecord
added none rest = rest
added (some r) rest = r ∷ rest

unfoldable pub records_at : Bytes → List ℕ → List CommandRecord
unfolding record_at
records_at bytes [] = []
records_at bytes (m ∷ ms) = added (record_at bytes m) (records_at bytes ms)

unfoldable pub find_command_records : Bytes → List CommandRecord
unfolding records_at offsets_of
find_command_records bytes = records_at bytes (offsets_of command_marker 0 bytes)

-- The shift is not negative.
pub record SerialTranslator : Type 0 where
  pub delta : ℕ
  pub previous_tail : Bytes
  pub previous_end : Option ℕ

abbrev pub fresh_translator : ℕ → SerialTranslator
fresh_translator delta = record { delta = delta; previous_tail = []; previous_end = none }

-- `output[offset : offset + 2] = value.to_bytes(2, "little")` within the bytes.
unfoldable pub put_serial : ℕ → ℕ → Bytes → Bytes
put_serial offset value bytes =
    take offset bytes ++ ((value % 256 ∷ value / 256 % 256 ∷ []) ++ drop (offset + 2) bytes)

pub record Rewritten : Type 0 where
  pub output : Bytes
  pub changes : List (ℕ × ℕ)

-- The guard for the marker at an offset of the combined bytes, of which `start` precede the packet's own.
unfoldable pub is_shifted : Bytes → ℕ → ℕ → Bytes → Bool
unfolding has_envelope from_little
is_shifted combined start marker output =
    let at = marker - 12 + serial_offset in
    leb 12 marker
    && (leb start at
        && (leb (at - start + 2) (length output)
            && (has_envelope combined (marker - 12)
                && not (from_little (slice at (at + 2) combined) == 0))))

unfoldable pub shift_at : ℕ → Bytes → ℕ → ℕ → Rewritten → Rewritten
unfolding put_serial is_shifted from_little
shift_at delta combined start marker r =
    let at = marker - 12 + serial_offset in
    let serial = from_little (slice at (at + 2) combined) in
    let translated = (serial + delta) % 65536 in
    if is_shifted combined start marker r.output
    then record {
      output = put_serial (at - start) translated r.output;
      changes = r.changes ++ (serial, translated) ∷ [];
    }
    else r

unfoldable pub shift_all : ℕ → Bytes → ℕ → List ℕ → Rewritten → Rewritten
unfolding shift_at
shift_all delta combined start [] r = r
shift_all delta combined start (m ∷ ms) r =
    shift_all delta combined start ms (shift_at delta combined start m r)

-- The tail of the packet before, where this one follows on it.
abbrev pub kept_tail : SerialTranslator → ℕ → Bytes
kept_tail t sender = elim t.previous_end [
  | none ↦ []
  | some e ↦ if e == sender then t.previous_tail else []
]

-- `CommandSerialTranslator.rewrite`
unfoldable pub rewrite : SerialTranslator → Bytes → ℕ → Rewritten × SerialTranslator
unfolding shift_all offsets_of
rewrite t application sender =
    let combined = kept_tail t sender ++ application in
    (
      shift_all t.delta combined (length (kept_tail t sender))
          (offsets_of command_marker 0 combined) (record { output = application; changes = [] }),
      record t {
        previous_tail = drop (length combined - 64) combined;
        previous_end = some ((sender + length application) % modulus);
      },
    )

pub record LiveInjection : Type 0 where
  pub payload : Bytes
  pub injection_offset : ℕ
  pub command_serial : ℕ
  pub translated_serials : List (ℕ × ℕ)

pub data Carried : Type 0 where
  no_carrier not_translated : Carried
  injected : LiveInjection → Carried

-- The first change is that of the carrier's own serial.
abbrev carrier_moved : ℕ → List (ℕ × ℕ) → Bool
carrier_moved serial [] = false
carrier_moved serial ((old, new) ∷ rest) = old == serial && new == (serial + 1) % 65536

-- Before the record `first`.
unfoldable pub inject_before : (ℕ → Bytes) → Bytes → CommandRecord → Carried
unfolding rewrite read_uint24
inject_before builder payload first =
    let application = drop header_length payload in
    let suffix = (rewrite (fresh_translator 1) (drop first.offset application) 0).0 in
    if not (carrier_moved first.serial suffix.changes)
    then not_translated
    else injected (record {
      payload =
          take header_length payload
          ++ (take first.offset application ++ (builder first.serial ++ suffix.output));
      injection_offset = (read_uint24 payload 6 + first.offset) % modulus;
      command_serial = first.serial;
      translated_serials = suffix.changes;
    })

unfoldable pub inject_before_live_command : (ℕ → Bytes) → Bytes → Carried
unfolding inject_before find_command_records is_reliable_packet
inject_before_live_command builder payload =
    let records =
      select (λ (r : CommandRecord). not (r.serial == 0))
        (find_command_records (drop header_length payload)) in
    if not (is_reliable_packet payload) || leb (length payload) header_length
    then no_carrier
    else elim records [ [] ↦ no_carrier | first ∷ rest ↦ inject_before builder payload first ]

pub data AckCarried : Type 0 where
  unsupported not_pure_ack : AckCarried
  acknowledged : Bytes → ℕ → AckCarried

unfoldable pub inject_into_ack : Bytes → Bytes → AckCarried
unfolding is_reliable_packet read_uint24
inject_into_ack payload command =
    if not (is_reliable_packet payload)
    then unsupported
    else if not (length payload == header_length)
    then not_pure_ack
    else acknowledged (payload ++ command) (read_uint24 payload 6)
