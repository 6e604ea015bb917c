-- ===== src/Wire/Serials/Shift.antt =====
-- What the translation of serials keeps of a packet, and what it writes.
use imperial_auto_governor.Common.{
  ℕ, ◌+◌, ◌-◌, ◌≤◌, ◌<◌, ◌≡◌, refl, ap, ◌∙◌, sym, ◌≢◌, if◌then◌else◌, ltb, not, ◌||◌, none, some,
  List, [], ◌∷◌, ◌++◌, arith, All, length, take, drop, length-take, length-drop, Bool-cases,
  Option-cases, inl, inr, ◌==◌,
}
use imperial_auto_governor.Stream.{Bytes, header_length, serial_offset, slice, is_reliable_packet}
use imperial_auto_governor.Stream.Commands.{CommandRecord, find_command_records}
use imperial_auto_governor.Wire.{
  Outcome, fail, done, Outcome-cases, value_error, actor_origin, serial_u32, to_little, put_bytes,
}
use imperial_auto_governor.Wire.Puts.{length-put_bytes, take-put_bytes, length-to_little}
use imperial_auto_governor.Wire.Serials.{
  Observed, Shifted, command_serial, numbered, shift_of, shift_commands, translate_commands,
}

-- One entry of the report: a command of the actor, whose serial moved by the shift within 32 bits.
pub record IsShift (actor delta : ℕ) (s : Shifted) : Type 0 where
  pub actor_is : s.observed.actor ≡ actor
  pub moved : s.translated ≡ s.observed.serial + delta
  pub nonzero : 0 < s.observed.serial
  pub fits : s.translated ≤ 0xffffffff

pub numbered_cases :
    (sender : Outcome (ℕ × ℕ)) (number : Outcome ℕ) (actor origin serial : ℕ)
    → numbered sender number ≡ some (actor, (origin, serial))
    → (0 < serial) × (number ≡ done serial)
unfolding numbered
numbered_cases (fail f) number actor origin serial h = absurd (ground arith)
numbered_cases (done a) (fail f) actor origin serial h = absurd (ground arith)
numbered_cases (done (a, b)) (done n) actor origin serial h = ground arith

pub serial_u32-length :
    (bytes : Bytes) (serial : ℕ) → serial_u32 bytes ≡ done serial → 62 ≤ length bytes
unfolding serial_u32
serial_u32-length bytes serial h = ground arith

pub nothing_shifted :
    (actor delta : ℕ) (c : CommandRecord) (s : Shifted)
    → shift_of actor delta c none ≢ done (some s)
unfolding shift_of
nothing_shifted actor delta c s h = cc

Shifted_if :
    (actor delta seen serial : ℕ) (o : Observed) (s : Shifted)
    → o.actor ≡ seen
    → o.serial ≡ serial
    → 0 < serial
    → (if not (seen == actor)
        then done none
        else if ltb 0xffffffff (serial + delta)
        then fail value_error
        else done (some (record { observed = o; translated = serial + delta })))
      ≡ done (some s)
    → IsShift actor delta s
Shifted_if actor delta seen serial o s a n nonzero h = record {
  actor_is = ground arith;
  moved = ground arith;
  nonzero = ground arith;
  fits = ground arith;
}

pub shifted-IsShift :
    (actor delta : ℕ) (c : CommandRecord) (seen origin serial : ℕ) (s : Shifted)
    → 0 < serial
    → shift_of actor delta c (some (seen, (origin, serial))) ≡ done (some s)
    → IsShift actor delta s
unfolding shift_of
shifted-IsShift actor delta c seen origin serial s nonzero h =
    Shifted_if actor delta seen serial
      (record { actor = seen; origin = origin; serial = serial; size = c.size }) s refl refl nonzero
      h

pub shift_of-IsShift :
    (actor delta : ℕ) (c : CommandRecord) (bytes : Bytes) (s : Shifted)
    → shift_of actor delta c (command_serial bytes) ≡ done (some s)
    → IsShift actor delta s × (62 ≤ length bytes)
unfolding command_serial
shift_of-IsShift actor delta c bytes s h = elim (Option-cases (command_serial bytes)) [
  | inl e ↦ absurd (nothing_shifted actor delta c s (ap (shift_of actor delta c) (sym e) ∙ h))
  | inr ((seen, (origin, serial)), e) ↦
      let (nonzero, known) =
        numbered_cases (actor_origin bytes) (serial_u32 bytes) seen origin serial e in
      let same = ap (shift_of actor delta c) (sym e) ∙ h in
      (
        shifted-IsShift actor delta c seen origin serial s nonzero same,
        serial_u32-length bytes serial known,
      )
]

-- What the loop keeps of the output, and what it has reported.
pub record IsRewrite (actor delta : ℕ) (before after : Bytes) (changes : List Shifted)
    : Type 0 where
  pub size : length after ≡ length before
  pub header : take header_length after ≡ take header_length before
  pub shifts : All (IsShift actor delta) changes

All-append :
    (actor delta : ℕ) (changes : List Shifted) (s : Shifted)
    → All (IsShift actor delta) changes
    → IsShift actor delta s
    → All (IsShift actor delta) (changes ++ s ∷ [])
All-append actor delta [] s h own = (own, tt)
All-append actor delta (c ∷ changes) s (first, h) own =
    (first, All-append actor delta changes s h own)

pub serial_within :
    (c : CommandRecord) (application : Bytes)
    → 62 ≤ length (slice c.offset (c.offset + c.size) application)
    → c.offset + 62 ≤ length application
serial_within c application h = ground (
  arith,
  length-take (c.offset + c.size - c.offset) (drop c.offset application),
  length-drop c.offset application,
)

written-IsRewrite :
    (actor delta : ℕ) (c : CommandRecord) (application output : Bytes) (value : ℕ) (before : Bytes)
    (changes : List Shifted) (s : Shifted)
    → header_length + length application ≤ length output
    → c.offset + 62 ≤ length application
    → IsRewrite actor delta before output changes
    → IsShift actor delta s
    → IsRewrite actor delta before
        (put_bytes (header_length + c.offset + serial_offset) (to_little 4 value) output)
        (changes ++ s ∷ [])
written-IsRewrite actor delta c application output value before changes s room within kept own =
    let at = header_length + c.offset + serial_offset in
    record {
      size =
          length-put_bytes at (to_little 4 value) output (ground (arith, length-to_little 4 value))
          ∙ kept.size;
      header =
          take-put_bytes header_length at (to_little 4 value) output (omega arith) (omega arith)
          ∙ kept.header;
      shifts = All-append actor delta changes s kept.shifts own;
    }

pub done-eq :
    (a b : Bytes × List Shifted)
    → ◌≡◌ {A = Outcome (Bytes × List Shifted)} (done a) (done b)
    → a ≡ b
done-eq a b h = cc

shift_commands-IsRewrite :
    (actor delta : ℕ) (application : Bytes) (cs : List CommandRecord) (output before : Bytes)
    (changes : List Shifted) (after : Bytes) (all_changes : List Shifted)
    → header_length + length application ≤ length before
    → IsRewrite actor delta before output changes
    → shift_commands actor delta application cs output changes ≡ done (after, all_changes)
    → IsRewrite actor delta before after all_changes
unfolding shift_commands
shift_commands-IsRewrite actor delta application [] output before changes after all_changes room
      kept h =
    let same = done-eq (output, changes) (after, all_changes) h in
    rw
      (
        ap (λ (p : Bytes × List Shifted). p.0) (sym same),
        ap (λ (p : Bytes × List Shifted). p.1) (sym same),
      )
      kept
shift_commands-IsRewrite actor delta application (c ∷ cs) output before changes after all_changes
      room kept h =
    let bytes = slice c.offset (c.offset + c.size) application in
    elim (Outcome-cases (shift_of actor delta c (command_serial bytes))) [
      | inl (f, e) ↦ absurd (ground arith)
      | inr (none, e) ↦
          shift_commands-IsRewrite actor delta application cs output before changes after
            all_changes room kept (ground arith)
      | inr (some s, e) ↦
          let (own, long) = shift_of-IsShift actor delta c bytes s e in
          shift_commands-IsRewrite actor delta application cs _ before _ after all_changes room
            (written-IsRewrite actor delta c application output s.translated before changes s
              (rw kept.size room) (serial_within c application long) kept own)
            (ground arith)
    ]

-- A packet that `translate_outbound_command_serials` gives back has the length and the reliable header of
-- the one that it was given, and every change that it reports is that of a command of the actor whose
-- serial, not zero, moved by the shift within 32 bits.
pub translate_commands-IsRewrite :
    (actor delta : ℕ) (payload after : Bytes) (changes : List Shifted)
    → translate_commands actor delta payload ≡ done (after, changes)
    → IsRewrite actor delta payload after changes
unfolding translate_commands is_reliable_packet
translate_commands-IsRewrite actor delta payload after changes h =
    let start : IsRewrite actor delta payload payload [] = record {
      size = refl;
      header = refl;
      shifts = tt;
    } in
    elim (Bool-cases (not (is_reliable_packet payload) || delta == 0)) [
      | inl e ↦
          let same = done-eq (payload, []) (after, changes) (ground arith) in
          rw
            (
              ap (λ (p : Bytes × List Shifted). p.0) (sym same),
              ap (λ (p : Bytes × List Shifted). p.1) (sym same),
            )
            start
      | inr e ↦
          let application = drop header_length payload in
          shift_commands-IsRewrite actor delta application (find_command_records application)
            payload payload [] after changes (ground (arith, length-drop header_length payload))
            start (ground arith)
    ]
