-- ===== src/Wire/Serials/Written.antt =====
-- The serials that the translation reports stand in the packet that it gives back.
use imperial_auto_governor.Common.{
  ℕ, ◌+◌, ◌≤◌, ◌≡◌, refl, sym, subst, ap, ◌∙◌, Bool, true, false, not, ◌||◌, Option, none, some,
  List, [], ◌∷◌, ◌++◌, arith, All, In, length, drop, length-drop, Bool-cases, Option-cases, inl,
  inr, ◌==◌, if◌then◌else◌, ltb,
}
use imperial_auto_governor.Stream.{
  Bytes, header_length, serial_offset, slice, from_little, is_reliable_packet,
}
use imperial_auto_governor.Stream.Commands.{CommandRecord, find_command_records}
use imperial_auto_governor.Wire.{
  Outcome, fail, done, Outcome-cases, value_error, to_little, put_bytes,
}
use imperial_auto_governor.Wire.Puts.{
  length-put_bytes, length-to_little, slice-put_bytes, slice_before, from_little-to_little,
}
use imperial_auto_governor.Wire.Serials.{
  Observed, Shifted, command_serial, shift_of, shift_commands, translate_commands,
}
use imperial_auto_governor.Wire.Serials.Apart.{IsApart, IsApart-low, find_command_records-IsApart}
use imperial_auto_governor.Wire.Serials.Shift.{
  IsRewrite, shift_of-IsShift, serial_within, done-eq, nothing_shifted,
  translate_commands-IsRewrite,
}

-- The place of a record's serial in a packet.
abbrev pub serial_place : CommandRecord → ℕ
serial_place c = header_length + c.offset + serial_offset

-- A change is that of a command record of the application, with the actor, the origin and the serial
-- that the record has; its new serial stands in the packet at that record's place.
pub record IsWritten (application after : Bytes) (s : Shifted) : Type 0 where
  pub carrier : CommandRecord
  pub found : In carrier (find_command_records application)
  pub carried :
      command_serial (slice carrier.offset (carrier.offset + carrier.size) application)
      ≡ some (s.observed.actor, (s.observed.origin, s.observed.serial))
  pub written :
      from_little (slice (serial_place carrier) (serial_place carrier + 4) after) ≡ s.translated

-- And that place lies before a bound.
record IsBefore (application after : Bytes) (bound : ℕ) (s : Shifted) : Type 0 where
  it : IsWritten application after s
  before : serial_place it.carrier + 4 ≤ bound

shifted-eq :
    (s t : Shifted) → ◌≡◌ {A = Outcome (Option Shifted)} (done (some s)) (done (some t)) → s ≡ t
shifted-eq s t h = cc

fields_of :
    (own large : Bool) (o : Observed) (value : ℕ) (s : Shifted)
    → (if not own
        then done none
        else if large
        then fail value_error
        else done (some (record { observed = o; translated = value })))
      ≡ done (some s)
    → ◌≡◌ {A = Option (ℕ × (ℕ × ℕ))}
        (some (o.actor, (o.origin, o.serial)))
        (some (s.observed.actor, (s.observed.origin, s.observed.serial)))
fields_of false large o value s h = cc
fields_of true true o value s h = cc
fields_of true false o value s h =
    ap (λ (x : Shifted). some (x.observed.actor, (x.observed.origin, x.observed.serial)))
      (shifted-eq (record { observed = o; translated = value }) s h)

shifted_fields :
    (actor delta : ℕ) (c : CommandRecord) (seen origin serial : ℕ) (s : Shifted)
    → shift_of actor delta c (some (seen, (origin, serial))) ≡ done (some s)
    → ◌≡◌ {A = Option (ℕ × (ℕ × ℕ))}
        (some (seen, (origin, serial)))
        (some (s.observed.actor, (s.observed.origin, s.observed.serial)))
unfolding shift_of
shifted_fields actor delta c seen origin serial s h =
    fields_of (seen == actor) (ltb 0xffffffff (serial + delta))
      (record { actor = seen; origin = origin; serial = serial; size = c.size }) (serial + delta) s
      h

shift_of-carried :
    (actor delta : ℕ) (c : CommandRecord) (bytes : Bytes) (s : Shifted)
    → shift_of actor delta c (command_serial bytes) ≡ done (some s)
    → command_serial bytes ≡ some (s.observed.actor, (s.observed.origin, s.observed.serial))
shift_of-carried actor delta c bytes s h = elim (Option-cases (command_serial bytes)) [
  | inl e ↦ absurd (nothing_shifted actor delta c s (ap (shift_of actor delta c) (sym e) ∙ h))
  | inr ((seen, (origin, serial)), e) ↦
      e
      ∙ shifted_fields actor delta c seen origin serial s (ap (shift_of actor delta c) (sym e) ∙ h)
]

-- Writing further on keeps what was written.
kept_written :
    (application output new : Bytes) (bound at : ℕ) (changes : List Shifted)
    → bound ≤ at
    → at ≤ length output
    → All (IsBefore application output bound) changes
    → All (IsBefore application (put_bytes at new output) (at + 4)) changes
kept_written application output new bound at [] far room h = tt
kept_written application output new bound at (s ∷ changes) far room (w, h) = (
  record {
    it = record {
      carrier = w.it.carrier;
      found = w.it.found;
      carried = w.it.carried;
      written =
          ap from_little (
            slice_before (serial_place w.it.carrier) 4 at new output (omega (arith, w.before)) room)
          ∙ w.it.written;
    };
    before = omega (arith, w.before);
  },
  kept_written application output new bound at changes far room h,
)

All-snoc :
    (application after : Bytes) (bound : ℕ) (changes : List Shifted) (s : Shifted)
    → All (IsBefore application after bound) changes
    → IsBefore application after bound s
    → All (IsBefore application after bound) (changes ++ s ∷ [])
All-snoc application after bound [] s h own = (own, tt)
All-snoc application after bound (c ∷ changes) s (first, h) own =
    (first, All-snoc application after bound changes s h own)

All-IsWritten :
    (application after : Bytes) (bound : ℕ) (changes : List Shifted)
    → All (IsBefore application after bound) changes
    → All (IsWritten application after) changes
All-IsWritten application after bound [] h = tt
All-IsWritten application after bound (s ∷ changes) (own, h) =
    (own.it, All-IsWritten application after bound changes h)

slice_written :
    (at value : ℕ) (output : Bytes)
    → at ≤ length output
    → value ≤ 0xffffffff
    → from_little (slice at (at + 4) (put_bytes at (to_little 4 value) output)) ≡ value
slice_written at value output room fits =
    let width = length-to_little 4 value in
    ap (λ n. from_little (slice at (at + n) (put_bytes at (to_little 4 value) output))) (sym width)
    ∙ (ap from_little (slice-put_bytes at (to_little 4 value) output room)
        ∙ from_little-to_little value fits)

step_written :
    (actor delta : ℕ) (application output : Bytes) (c : CommandRecord) (low : ℕ)
    (changes : List Shifted) (s : Shifted)
    → In c (find_command_records application)
    → low ≤ c.offset
    → header_length + length application ≤ length output
    → shift_of actor delta c (command_serial (slice c.offset (c.offset + c.size) application))
      ≡ done (some s)
    → All (IsBefore application output (header_length + low + serial_offset)) changes
    → All
        (IsBefore application
          (put_bytes (serial_place c) (to_little 4 s.translated) output)
          (header_length + (c.offset + 4) + serial_offset))
        (changes ++ s ∷ [])
step_written actor delta application output c low changes s there far room shift h =
    let bytes = slice c.offset (c.offset + c.size) application in
    let (own, long) = shift_of-IsShift actor delta c bytes s shift in
    let inside = serial_within c application long in
    let place = serial_place c in
    let next : place + 4 ≡ header_length + (c.offset + 4) + serial_offset = omega arith in
    let fits = own.fits in
    subst
      (λ n.
        All (IsBefore application (put_bytes place (to_little 4 s.translated) output) n)
          (changes ++ s ∷ []))
      next
      (All-snoc application _ (place + 4) changes s
        (kept_written application output (to_little 4 s.translated)
          (header_length + low + serial_offset) place changes (omega arith) (omega arith) h)
        (record {
          it = record {
            carrier = c;
            found = there;
            carried = shift_of-carried actor delta c bytes s shift;
            written = slice_written place s.translated output (omega arith) fits;
          };
          before = omega arith;
        }))

four_more :
    (at value : ℕ) (output : Bytes)
    → at + 4 ≤ length output
    → at + length (to_little 4 value) ≤ length output
four_more at value output h = rw (length-to_little 4 value) h

loop-IsWritten :
    (actor delta : ℕ) (application : Bytes) (cs : List CommandRecord) (low : ℕ) (output : Bytes)
    (changes : List Shifted) (after : Bytes) (reported : List Shifted)
    → ((c : CommandRecord) → In c cs → In c (find_command_records application))
    → IsApart low cs
    → header_length + length application ≤ length output
    → All (IsBefore application output (header_length + low + serial_offset)) changes
    → shift_commands actor delta application cs output changes ≡ done (after, reported)
    → All (IsWritten application after) reported
unfolding shift_commands IsApart
loop-IsWritten actor delta application [] low output changes after reported members apart room h
      result =
    let same = done-eq (output, changes) (after, reported) result in
    rw
      (
        ap (λ (p : Bytes × List Shifted). p.0) (sym same),
        ap (λ (p : Bytes × List Shifted). p.1) (sym same),
      )
      (All-IsWritten application output (header_length + low + serial_offset) changes h)
loop-IsWritten actor delta application (c ∷ cs) low output changes after reported members
      (far, apart) room h result =
    let bytes = slice c.offset (c.offset + c.size) application in
    elim (Outcome-cases (shift_of actor delta c (command_serial bytes))) [
      | inl (f, e) ↦ absurd (ground arith)
      | inr (none, e) ↦
          loop-IsWritten actor delta application cs low output changes after reported
            (λ d there. members d (inr there))
            (IsApart-low low (c.offset + 4) cs (omega arith) apart) room h (ground arith)
      | inr (some s, e) ↦
          let (own, long) = shift_of-IsShift actor delta c bytes s e in
          let inside = serial_within c application long in
          let kept =
            length-put_bytes (serial_place c) (to_little 4 s.translated) output
              (four_more (serial_place c) s.translated output (omega arith)) in
          loop-IsWritten actor delta application cs (c.offset + 4) _ _ after reported
            (λ d there. members d (inr there)) apart
            (subst (λ n. header_length + length application ≤ n) (sym kept) room)
            (step_written actor delta application output c low changes s (members c (inl refl)) far
              room e h)
            (ground arith)
    ]

-- A packet that `translate_outbound_command_serials` gives back has the length and the reliable header of
-- the one that it was given. Every change that it reports is that of a command record of the packet, whose
-- actor is the given one and whose serial is not zero; the serial moved by the shift, within 32 bits, and
-- the packet that is given back has the moved serial at that record's place.
pub translate_commands-IsWritten :
    (actor delta : ℕ) (payload after : Bytes) (changes : List Shifted)
    → translate_commands actor delta payload ≡ done (after, changes)
    → IsRewrite actor delta payload after changes
      × All (IsWritten (drop header_length payload) after) changes
unfolding translate_commands is_reliable_packet
translate_commands-IsWritten actor delta payload after changes h =
    let application = drop header_length payload in
    (
      translate_commands-IsRewrite actor delta payload after changes h,
      elim (Bool-cases (not (is_reliable_packet payload) || delta == 0)) [
        | inl e ↦
            let same = done-eq (payload, []) (after, changes) (ground arith) in
            subst (λ (p : Bytes × List Shifted). All (IsWritten application p.0) p.1) same tt
        | inr e ↦
            loop-IsWritten actor delta application (find_command_records application) 0 payload []
              after changes (λ c there. there) (find_command_records-IsApart application)
              (ground (arith, length-drop header_length payload)) tt (ground arith)
      ],
    )
