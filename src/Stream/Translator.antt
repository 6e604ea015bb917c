-- ===== src/Stream/Translator.antt =====
-- The two directions of the stream translator.
use imperial_auto_governor.Common.{
  ℕ, ◌+◌, ◌≤◌, ◌<◌, ◌≡◌, refl, ap, ◌∙◌, Bool-cases, ◌⊎◌, inl, inr, true, ◌||◌, ltb, leb, ◌==◌,
  arith, length,
}
use imperial_auto_governor.Stream.{
  Bytes, modulus, half_range, StreamTranslator, minus_uint24, forward_distance, is_at_or_after,
  outbound_offset, inbound_ack, read_uint24, is_reliable_packet, translate_outbound,
  translate_inbound,
}
use imperial_auto_governor.Stream.Bytes.{IsBytes, read-write_uint24, read_uint24-bound}

module _ (t : StreamTranslator) (origin : t.injection_offset < modulus)
    (small : t.inserted_length < half_range) where
  -- The acknowledgement of an offset that the translator sent out is given to the game as the offset
  -- that the game sent, where the offset lies within half the range, less the insertion, of the
  -- injection, or before it.
  inbound-outbound :
      (sender : ℕ)
      → sender < modulus
      → (forward_distance sender t.injection_offset + t.inserted_length < half_range)
        ⊎ (half_range ≤ forward_distance sender t.injection_offset)
      → inbound_ack t (outbound_offset t sender) ≡ sender
  unfolding inbound_ack outbound_offset is_at_or_after forward_distance minus_uint24
  inbound-outbound sender in_range near = ground arith

  -- An acknowledgement of a byte inside the insertion is given to the game as the injection's offset.
  inbound-inserted :
      (ack : ℕ)
      → ack < modulus
      → forward_distance ack t.injection_offset < t.inserted_length
      → inbound_ack t ack ≡ t.injection_offset
  unfolding inbound_ack forward_distance minus_uint24
  inbound-inserted ack in_range inside = ground arith

reliable-length : (payload : Bytes) → is_reliable_packet payload ≡ true → 25 ≤ length payload
unfolding is_reliable_packet
reliable-length payload h = ground arith

read-translate_outbound :
    (t : StreamTranslator) (payload : Bytes)
    → is_reliable_packet payload ≡ true
    → read_uint24 (translate_outbound t payload) 6 ≡ outbound_offset t (read_uint24 payload 6)
unfolding translate_outbound outbound_offset
read-translate_outbound t payload h =
    let long = reliable-length payload h in
    let sender = read_uint24 payload 6 in
    elim (Bool-cases (is_at_or_after sender t.injection_offset)) [
      | inl e ↦ rw (h, e) (read-write_uint24 payload 6 (sender + t.inserted_length) (ground arith))
      | inr e ↦ rw (h, e) refl
    ]

read-translate_inbound :
    (t : StreamTranslator) (payload : Bytes)
    → is_reliable_packet payload ≡ true
    → read_uint24 (translate_inbound t payload) 10 ≡ inbound_ack t (read_uint24 payload 10)
unfolding translate_inbound inbound_ack minus_uint24
read-translate_inbound t payload h =
    let long = reliable-length payload h in
    let ack = read_uint24 payload 10 in
    let distance = forward_distance ack t.injection_offset in
    elim (Bool-cases (distance == 0 || leb half_range distance)) [
      | inl e ↦ rw (h, e) refl
      | inr e ↦ elim (Bool-cases (ltb distance t.inserted_length)) [
        | inl f ↦ rw (h, e, f) (read-write_uint24 payload 10 t.injection_offset (ground arith))
        | inr f ↦
            rw (h, e, f)
              (read-write_uint24 payload 10 (minus_uint24 ack t.inserted_length) (ground arith)
                ∙ omega arith)
      ]
    ]

-- Let the game send the packet `sent`, and let the host answer with `answer`, which acknowledges the
-- sender offset that the translator gave `sent`. Then the game receives the acknowledgement of the
-- offset that it sent, where that offset lies within half the range, less the insertion, after the
-- injection, or before it.
pub translate-roundtrip :
    (t : StreamTranslator) (sent answer : Bytes)
    → t.injection_offset < modulus
    → t.inserted_length < half_range
    → IsBytes sent
    → is_reliable_packet sent ≡ true
    → is_reliable_packet answer ≡ true
    → (forward_distance (read_uint24 sent 6) t.injection_offset + t.inserted_length < half_range)
      ⊎ (half_range ≤ forward_distance (read_uint24 sent 6) t.injection_offset)
    → read_uint24 answer 10 ≡ read_uint24 (translate_outbound t sent) 6
    → read_uint24 (translate_inbound t answer) 10 ≡ read_uint24 sent 6
translate-roundtrip t sent answer origin small bytes reliable reliable' near same =
    read-translate_inbound t answer reliable'
    ∙ (ap (inbound_ack t) (same ∙ read-translate_outbound t sent reliable)
        ∙ inbound-outbound t origin small (read_uint24 sent 6) (read_uint24-bound sent 6 bytes)
            near)

-- An acknowledgement of a byte of the insertion reaches the game as one of the injection's offset.
pub translate_inbound-hides :
    (t : StreamTranslator) (answer : Bytes)
    → t.injection_offset < modulus
    → t.inserted_length < half_range
    → IsBytes answer
    → is_reliable_packet answer ≡ true
    → forward_distance (read_uint24 answer 10) t.injection_offset < t.inserted_length
    → read_uint24 (translate_inbound t answer) 10 ≡ t.injection_offset
translate_inbound-hides t answer origin small bytes reliable inside =
    read-translate_inbound t answer reliable
    ∙ inbound-inserted t origin small (read_uint24 answer 10) (read_uint24-bound answer 10 bytes)
        inside
