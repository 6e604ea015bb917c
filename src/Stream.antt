-- ===== src/Stream.antt =====
-- src/iag/stellaris/execution/packet/iag_stream_command_injector.py: the offsets of the reliable stream,
-- the translator of them, the command records of a byte range and the shift of their serials. A byte is
-- a number below 256; a stream offset is a number modulo 2 ^ 24.
pub mod Bytes
pub mod Commands
pub mod Translator
mod Tests
use imperial_auto_governor.Common.{
  ℕ, zero, suc, ◌+◌, ◌-◌, ◌*◌, ◌/◌, ◌%◌, ◌^◌, ◌≡◌, Bool, true, false, not, ◌&&◌, ◌||◌, Option, none,
  some, List, [], ◌∷◌, ◌++◌, ltb, leb, ◌==◌, if◌then◌else◌, length, take, drop, select,
}

abbrev pub Bytes : Type 0
Bytes = List ℕ

abbrev pub modulus : ℕ
modulus = 16777216

abbrev pub half_range : ℕ
half_range = 8388608

abbrev pub header_length : ℕ
header_length = 25

abbrev pub reliable_marker : Bytes
reliable_marker = 0x01 ∷ 0 ∷ 0 ∷ 0 ∷ 0 ∷ []

abbrev pub command_marker : Bytes
command_marker =
    0xf3 ∷ 0x01 ∷ 0x01 ∷ 0x00 ∷ 0x03 ∷ 0x00 ∷ 0x40 ∷ 0x02 ∷ 0x01 ∷ 0x00 ∷ 0x0c ∷ 0x00 ∷ []

abbrev pub envelope_type : Bytes
envelope_type = 0x04 ∷ 0 ∷ 0 ∷ 0 ∷ []

abbrev pub serial_offset : ℕ
serial_offset = 58

-- `data[first : last]`
abbrev pub slice : ℕ → ℕ → Bytes → Bytes
slice first last bytes = take (last - first) (drop first bytes)

-- `int.from_bytes(data, "big")` and `int.from_bytes(data, "little")`
unfoldable pub from_big : ℕ → Bytes → ℕ
from_big n [] = n
from_big n (b ∷ bs) = from_big (n * 256 + b) bs

unfoldable pub from_little : Bytes → ℕ
from_little [] = 0
from_little (b ∷ bs) = b + 256 * from_little bs

-- `data[i]`, where `i` is in range.
unfoldable pub byte_at : ℕ → Bytes → ℕ
byte_at i [] = 0
byte_at zero (b ∷ bs) = b
byte_at (suc i) (b ∷ bs) = byte_at i bs

unfoldable pub same_bytes : Bytes → Bytes → Bool
same_bytes [] [] = true
same_bytes [] (b ∷ bs) = false
same_bytes (a ∷ as') [] = false
same_bytes (a ∷ as') (b ∷ bs) = a == b && same_bytes as' bs

-- `data.startswith(prefix)`
unfoldable pub starts_with : Bytes → Bytes → Bool
starts_with [] bytes = true
starts_with (p ∷ ps) [] = false
starts_with (p ∷ ps) (b ∷ bs) = p == b && starts_with ps bs

unfoldable pub read_uint24 : Bytes → ℕ → ℕ
unfolding from_big
read_uint24 bytes offset = from_big 0 (slice offset (offset + 3) bytes)

-- `value.to_bytes(3, "big")` of a value below 2 ^ 24.
abbrev pub to_bytes : ℕ → Bytes
to_bytes v = v / 65536 % 256 ∷ v / 256 % 256 ∷ v % 256 ∷ []

unfoldable pub write_uint24 : Bytes → ℕ → ℕ → Bytes
write_uint24 bytes offset value =
    take offset bytes ++ (to_bytes (value % modulus) ++ drop (offset + 3) bytes)

-- `(a - b) % UINT24_MODULUS` of Python, which is never negative.
unfoldable pub minus_uint24 : ℕ → ℕ → ℕ
minus_uint24 a b = (a + (modulus - b % modulus)) % modulus

unfoldable pub forward_distance : ℕ → ℕ → ℕ
unfolding minus_uint24
forward_distance value origin = minus_uint24 value origin

unfoldable pub is_at_or_after : ℕ → ℕ → Bool
unfolding forward_distance
is_at_or_after value origin = ltb (forward_distance value origin) half_range

unfoldable pub is_reliable_packet : Bytes → Bool
unfolding starts_with
is_reliable_packet payload =
    leb header_length (length payload) && starts_with reliable_marker payload

pub record StreamTranslator : Type 0 where
  pub injection_offset : ℕ
  pub inserted_length : ℕ

-- The sender offset that `translate_outbound` writes, for the one it reads.
unfoldable pub outbound_offset : StreamTranslator → ℕ → ℕ
unfolding is_at_or_after
outbound_offset t sender =
    if is_at_or_after sender t.injection_offset
    then (sender + t.inserted_length) % modulus
    else sender

unfoldable pub translate_outbound : StreamTranslator → Bytes → Bytes
unfolding is_reliable_packet read_uint24 write_uint24 is_at_or_after
translate_outbound t payload =
    let sender = read_uint24 payload 6 in
    if not (is_reliable_packet payload)
    then payload
    else if is_at_or_after sender t.injection_offset
    then write_uint24 payload 6 (sender + t.inserted_length)
    else payload

-- The acknowledgement that `translate_inbound` writes, for the one it reads.
unfoldable pub inbound_ack : StreamTranslator → ℕ → ℕ
unfolding forward_distance minus_uint24
inbound_ack t ack =
    let distance = forward_distance ack t.injection_offset in
    if distance == 0 || leb half_range distance
    then ack
    else if ltb distance t.inserted_length
    then t.injection_offset % modulus
    else minus_uint24 ack t.inserted_length

unfoldable pub translate_inbound : StreamTranslator → Bytes → Bytes
unfolding is_reliable_packet read_uint24 write_uint24 forward_distance minus_uint24
translate_inbound t payload =
    let ack = read_uint24 payload 10 in
    let distance = forward_distance ack t.injection_offset in
    if not (is_reliable_packet payload)
    then payload
    else if distance == 0 || leb half_range distance
    then payload
    else if ltb distance t.inserted_length
    then write_uint24 payload 10 t.injection_offset
    else write_uint24 payload 10 (minus_uint24 ack t.inserted_length)
