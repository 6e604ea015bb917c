-- ===== src/Wire/Sizes.antt =====
-- The builders' writes keep the length of a record.
use imperial_auto_governor.Common.{ℕ, ◌+◌, ◌≤◌, ◌≡◌, sym, ap, ◌∙◌, List, [], ◌∷◌, arith, length}
use imperial_auto_governor.Common.Int.{ℤ}
use imperial_auto_governor.Stream.{Bytes, serial_offset}
use imperial_auto_governor.Stream.Commands.{offsets_of}
use imperial_auto_governor.Wire.{
  Outcome, done, >>=-eq-done, actor_tag, origin_tag, to_little, put_bytes, only_offset,
  value_offset, validate_u32, validate_byte, set_tagged_u32, stamp,
}
use imperial_auto_governor.Wire.Puts.{length-put_bytes, length-to_little}

only_offset_within :
    (tag_length width size : ℕ) (offsets : List ℕ) (o : ℕ)
    → only_offset tag_length width size offsets ≡ done o
    → o + width ≤ size
unfolding only_offset
only_offset_within tag_length width size [] o h = absurd (ground arith)
only_offset_within tag_length width size (a ∷ []) o h = ground arith
only_offset_within tag_length width size (a ∷ b ∷ rest) o h = absurd (ground arith)

-- A value that is found lies within the record.
pub value_offset_within :
    (tag : Bytes) (width : ℕ) (bytes : Bytes) (o : ℕ)
    → value_offset tag width bytes ≡ done o
    → o + width ≤ length bytes
unfolding value_offset
value_offset_within tag width bytes o h =
    only_offset_within (length tag) width (length bytes) (offsets_of tag 0 bytes) o h

bytes-eq : (a b : Bytes) → ◌≡◌ {A = Outcome Bytes} (done a) (done b) → a ≡ b
bytes-eq a b h = cc

-- A value of four bytes, at an offset at which a tag's value stands.
pub length-put_u32 :
    (o value : ℕ) (bytes : Bytes)
    → o + 4 ≤ length bytes
    → length (put_bytes o (to_little 4 value) bytes) ≡ length bytes
length-put_u32 o value bytes h =
    length-put_bytes o (to_little 4 value) bytes (rw (length-to_little 4 value) h)

pub length-set_tagged_u32 :
    (tag : Bytes) (value : ℤ) (bytes after : Bytes)
    → set_tagged_u32 tag value bytes ≡ done after
    → length after ≡ length bytes
unfolding set_tagged_u32
length-set_tagged_u32 tag value bytes after h =
    let (o, found, rest) = >>=-eq-done (value_offset tag 4 bytes) _ h in
    let (v, valid, last) = >>=-eq-done (validate_u32 value) _ rest in
    ap length (sym (bytes-eq _ after last))
    ∙ length-put_u32 o v bytes (value_offset_within tag 4 bytes o found)

pub length-stamp :
    (serial actor origin : ℤ) (bytes after : Bytes)
    → stamp serial actor origin bytes ≡ done after
    → 62 ≤ length bytes
    → length after ≡ length bytes
unfolding stamp
length-stamp serial actor origin bytes after h long =
    let (i, actor_found, h₁) = >>=-eq-done (value_offset actor_tag 4 bytes) _ h in
    let (j, origin_found, h₂) = >>=-eq-done (value_offset origin_tag 1 bytes) _ h₁ in
    let (a, valid_actor, h₃) = >>=-eq-done (validate_u32 actor) _ h₂ in
    let (o, valid_origin, h₄) = >>=-eq-done (validate_byte origin) _ h₃ in
    let (s, valid_serial, last) = >>=-eq-done (validate_u32 serial) _ h₄ in
    let first = length-put_u32 i a bytes (value_offset_within actor_tag 4 bytes i actor_found) in
    let one = put_bytes i (to_little 4 a) bytes in
    let second =
      length-put_bytes j (o ∷ []) one
        (rw first (value_offset_within origin_tag 1 bytes j origin_found)) in
    let two = put_bytes j (o ∷ []) one in
    let third = length-put_u32 serial_offset s two (rw (second, first) long) in
    ap length (sym (bytes-eq _ after last)) ∙ (third ∙ (second ∙ first))
