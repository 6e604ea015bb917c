-- ===== src/Stream/Tests.antt =====
-- Packets at an injection near the end of the 24-bit range.
use imperial_auto_governor.Common.{
  ℕ, ◌+◌, length, take, ◌≡◌, refl, [], ◌∷◌, ◌++◌, replicate, inl, arith,
}
use imperial_auto_governor.Stream.{
  Bytes, header_length, reliable_marker, envelope_type, command_marker, StreamTranslator,
  read_uint24, is_reliable_packet, translate_outbound, translate_inbound, minus_uint24,
}
use imperial_auto_governor.Stream.Bytes.{IsBytes}
use imperial_auto_governor.Stream.Translator.{translate-roundtrip, translate_inbound-hides}
use imperial_auto_governor.Stream.Commands.{
  CommandRecord, LiveInjection, injected, inject_before_live_command, find_command_records,
  offsets_of,
}
use imperial_auto_governor.Stream.Commands.Lengths.{inject-length}

evaluated : Unit {0}
unfolding read_uint24 is_reliable_packet translate_outbound translate_inbound minus_uint24
evaluated = tt

-- 153 bytes were inserted 16 bytes before the range ends.
abbrev near_end : StreamTranslator
near_end = record { injection_offset = 16777200; inserted_length = 153 }

-- A packet with a sender offset and an acknowledgement.
abbrev packet : Bytes → Bytes → Bytes
packet sender ack = (1 ∷ 0 ∷ 0 ∷ 0 ∷ 0 ∷ 7 ∷ []) ++ (sender ++ (0 ∷ (ack ++ replicate 12 0)))

abbrev sent : Bytes
sent = packet (255 ∷ 255 ∷ 250 ∷ []) (0 ∷ 0 ∷ 0 ∷ [])

abbrev answer : Bytes
answer = packet (0 ∷ 0 ∷ 0 ∷ []) (0 ∷ 0 ∷ 147 ∷ [])

abbrev inside : Bytes
inside = packet (0 ∷ 0 ∷ 0 ∷ []) (0 ∷ 0 ∷ 9 ∷ [])

sent_wraps : read_uint24 (translate_outbound near_end sent) 6 ≡ 147
unfolding evaluated
sent_wraps = refl

sent-IsBytes : IsBytes sent
unfolding IsBytes
sent-IsBytes = ground arith

translate-roundtrip_example :
    read_uint24 (translate_inbound near_end answer) 10 ≡ read_uint24 sent 6
unfolding evaluated
translate-roundtrip_example =
    translate-roundtrip near_end sent answer (omega arith) (omega arith) sent-IsBytes refl refl
      (inl (omega arith)) refl

inside-IsBytes : IsBytes inside
unfolding IsBytes
inside-IsBytes = ground arith

inbound_hidden : read_uint24 (translate_inbound near_end inside) 10 ≡ 16777200
unfolding evaluated
inbound_hidden =
    translate_inbound-hides near_end inside (omega arith) (omega arith) inside-IsBytes refl
      (omega arith)

-- A record of 60 bytes with the serial 7 behind a reliable header.
abbrev carrier : Bytes
carrier =
    reliable_marker
    ++ (replicate 20 0
        ++ ((59 ∷ 0 ∷ envelope_type)
            ++ (replicate 6 0 ++ (command_marker ++ (replicate 34 0 ++ (7 ∷ 0 ∷ []))))))

-- A command of two bytes.
abbrev two_bytes : ℕ → Bytes
two_bytes serial = serial ∷ 0 ∷ []

abbrev carried : LiveInjection
carried = elim (inject_before_live_command two_bytes carrier) [
  | injected i ↦ i
  | _ ↦ record { payload = []; injection_offset = 0; command_serial = 0; translated_serials = [] }
]

commands_evaluated : Unit {0}
unfolding evaluated inject_before_live_command find_command_records offsets_of
commands_evaluated = tt

carries : inject_before_live_command two_bytes carrier ≡ injected carried
unfolding commands_evaluated
carries = refl

shifts_serial : carried.translated_serials ≡ (7, 8) ∷ []
unfolding commands_evaluated
shifts_serial = refl

inject-length_example :
    (take header_length carried.payload ≡ take header_length carrier)
    × (length carried.payload ≡ length carrier + length (two_bytes carried.command_serial))
inject-length_example = inject-length two_bytes carrier carried carries

abbrev seen : CommandRecord
seen = record { offset = 25; size = 60; serial = 7 }

found_in_carrier : find_command_records carrier ≡ seen ∷ []
unfolding commands_evaluated
found_in_carrier = refl
