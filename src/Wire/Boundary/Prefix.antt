-- ===== src/Wire/Boundary/Prefix.antt =====
-- The application prefix: the page of the declared length, as the search for records reads it.
use imperial_auto_governor.Common.{
  sym, In, none, some, drop, leb, ◌&&◌, subst, ℕ, ◌+◌, ◌-◌, ◌*◌, ◌/◌, ◌%◌, ◌≤◌, ◌≡◌, refl, ap, ◌∙◌,
  Bool, true, false, not, ◌||◌, [], ◌∷◌, ◌++◌, arith, length, ltb, ◌==◌, if◌then◌else◌,
}
use imperial_auto_governor.Stream.{
  Bytes, command_marker, serial_offset, starts_with, from_little, envelope_type, slice, byte_at,
  same_bytes,
}
use imperial_auto_governor.Stream.Commands.Found.{offsets_of-In, records_at-In}
use imperial_auto_governor.Stream.Commands.{
  prefix_page, CommandRecord, record_at, offsets_of, has_envelope, find_command_records,
}
use imperial_auto_governor.Wire.{fail, done, value_error}
use imperial_auto_governor.Wire.Boundary.{application_prefix}

prefix_if :
    (a b c : Bool) (value prefix : Bytes)
    → (if a
        then fail value_error
        else if b
        then fail value_error
        else if c
        then fail value_error
        else done value)
      ≡ done prefix
    → (prefix ≡ value) × (a ≡ false) × (b ≡ false) × (c ≡ false)
prefix_if true b c value prefix h = absurd (ground arith)
prefix_if false true c value prefix h = absurd (ground arith)
prefix_if false false true value prefix h = absurd (ground arith)
prefix_if false false false value prefix h = (cc, refl, refl, refl)

prefix_long : (bytes prefix : Bytes) → application_prefix bytes ≡ done prefix → 1 ≤ length bytes
unfolding application_prefix
prefix_long [] prefix h = absurd (ground arith)
prefix_long (b ∷ bytes) prefix h = omega arith

-- What the search for records reads behind a prefix of a page.
page_and_byte :
    (page : ℕ) (bytes : Bytes)
    → prefix_page (0 ∷ 0 ∷ page ∷ bytes) 3 * 256 + byte_at 3 (0 ∷ 0 ∷ page ∷ bytes)
      ≡ page * 256 + byte_at 0 bytes
unfolding prefix_page same_bytes byte_at
page_and_byte page bytes = refl

size_of_page :
    (b n : ℕ) → not (b == (n - 1) % 256) ≡ false → 1 ≤ n → (n - 1) / 256 * 256 + b + 1 ≡ n
size_of_page b n h long = ground arith

-- The page and the first byte, plus one, are the length of the record.
application_prefix-roundtrip :
    (bytes prefix : Bytes)
    → application_prefix bytes ≡ done prefix
    → (prefix ≡ 0 ∷ 0 ∷ (length bytes - 1) / 256 ∷ [])
      × (prefix_page (prefix ++ bytes) 3 * 256 + byte_at 3 (prefix ++ bytes) + 1 ≡ length bytes)
unfolding application_prefix
application_prefix-roundtrip bytes prefix h =
    let declared = length bytes - 1 in
    let long = prefix_long bytes prefix h in
    let (same, envelope, low, page) =
      prefix_if (ltb (length bytes) 7 || not (same_bytes (slice 1 6 bytes) (0 ∷ envelope_type)))
        (not (byte_at 0 bytes == declared % 256)) (ltb 255 (declared / 256))
        (0 ∷ 0 ∷ declared / 256 ∷ []) prefix h in
    (
      same,
      ap (λ (p : Bytes). prefix_page (p ++ bytes) 3 * 256 + byte_at 3 (p ++ bytes) + 1) same
          ∙ (ap (λ n. n + 1) (page_and_byte (declared / 256) bytes)
              ∙ size_of_page (byte_at 0 bytes) (length bytes) low long),
    )

-- The envelope of a record that stands behind a prefix.
envelope_behind :
    (page : ℕ) (bytes : Bytes)
    → same_bytes (slice 1 6 bytes) (0 ∷ envelope_type) ≡ true
    → has_envelope (0 ∷ 0 ∷ page ∷ bytes) 3 ≡ true
unfolding has_envelope same_bytes
envelope_behind page [] h = absurd cc
envelope_behind page (a ∷ []) h = absurd cc
envelope_behind page (a ∷ b ∷ rest) h = ground arith

-- A record as it stands behind a prefix.
abbrev pub behind_prefix : Bytes → CommandRecord
behind_prefix bytes = record {
  offset = 3;
  size = length bytes;
  serial = from_little (slice serial_offset (serial_offset + 2) bytes);
}

-- The tests of the search on a record that fits.
found_if :
    (a b c d e : Bool) (r : CommandRecord)
    → (a ≡ true) × (b ≡ true) × (c ≡ true) × (d ≡ true) × (e ≡ true)
    → (if a && (b && (c && (d && e))) then some r else none) ≡ some r
found_if a b c d e r (h, i, j, k, l) = rw (h, i, j, k, l) refl

record_at-prefix :
    (page : ℕ) (bytes : Bytes)
    → page * 256 + byte_at 0 bytes + 1 ≡ length bytes
    → length bytes ≤ 65536
    → 60 ≤ length bytes
    → has_envelope (0 ∷ 0 ∷ page ∷ bytes) 3 ≡ true
    → record_at (0 ∷ 0 ∷ page ∷ bytes) 15 ≡ some (behind_prefix bytes)
unfolding record_at
record_at-prefix page bytes size short long envelope = rw size (
    found_if (leb 63 (length (0 ∷ 0 ∷ page ∷ bytes))) (leb 60 (length bytes))
      (leb (length bytes) 65536) (leb (3 + length bytes) (length (0 ∷ 0 ∷ page ∷ bytes)))
      (has_envelope (0 ∷ 0 ∷ page ∷ bytes) 3) (behind_prefix bytes)
      (ground arith, ground arith, ground arith, ground arith, envelope))

short_record : (n : ℕ) → ltb 255 ((n - 1) / 256) ≡ false → n ≤ 65536
short_record n h = ground arith

-- A record of at least 60 bytes whose marker stands at its offset 12, and which has an application prefix,
-- is found behind the prefix: `find_command_records` of the two finds a record at offset 3, of the length
-- of the record and with its serial. So the page of the prefix and the first byte of the record are read
-- as the length that they were made for.
pub application_prefix-In :
    (bytes prefix : Bytes)
    → application_prefix bytes ≡ done prefix
    → 60 ≤ length bytes
    → starts_with command_marker (drop 12 bytes) ≡ true
    → In (behind_prefix bytes) (find_command_records (prefix ++ bytes))
unfolding application_prefix find_command_records
application_prefix-In bytes prefix h long marked =
    let declared = length bytes - 1 in
    let (value, size) = application_prefix-roundtrip bytes prefix h in
    let (same, envelope, low, page) =
      prefix_if (ltb (length bytes) 7 || not (same_bytes (slice 1 6 bytes) (0 ∷ envelope_type)))
        (not (byte_at 0 bytes == declared % 256)) (ltb 255 (declared / 256))
        (0 ∷ 0 ∷ declared / 256 ∷ []) prefix h in
    let behind = envelope_behind (declared / 256) bytes (ground arith) in
    let found =
      record_at-prefix (declared / 256) bytes
        (size_of_page (byte_at 0 bytes) (length bytes) low (omega arith))
        (short_record (length bytes) page) long behind in
    subst (λ (p : Bytes). In (behind_prefix bytes) (find_command_records (p ++ bytes))) (sym value)
      (records_at-In (0 ∷ 0 ∷ declared / 256 ∷ bytes)
        (offsets_of command_marker 0 (0 ∷ 0 ∷ declared / 256 ∷ bytes)) 15 (behind_prefix bytes)
        (offsets_of-In 0xf3 (drop 1 command_marker) 15 0 (0 ∷ 0 ∷ declared / 256 ∷ bytes) marked)
        found)
