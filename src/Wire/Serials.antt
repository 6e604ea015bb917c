-- ===== src/Wire/Serials.antt =====
-- src/iag/stellaris/execution/session_proxy.py: the serials that actors' commands carry. `last_serials` is
-- a dict from a direction, an actor and an origin.
pub mod Fresh
pub mod Apart
pub mod Shift
pub mod Written
use imperial_auto_governor.Common.{
  ℕ, ◌+◌, ◌≡◌, Bool, true, false, not, ◌&&◌, ◌||◌, Option, none, some, List, [], ◌∷◌, ◌++◌, leb,
  ltb, ◌==◌, if◌then◌else◌, drop, max,
}
use imperial_auto_governor.Flow.{Direction, outbound, inbound}
use imperial_auto_governor.Stream.{
  Bytes, StreamTranslator, header_length, serial_offset, slice, is_reliable_packet,
  translate_outbound,
}
use imperial_auto_governor.Stream.Commands.{CommandRecord, find_command_records}
use imperial_auto_governor.Wire.{
  Failure, value_error, Outcome, fail, done, actor_origin, serial_u32, to_little, put_bytes,
}

pub record Sender : Type 0 where
  pub direction : Direction
  pub actor : ℕ
  pub origin : ℕ

abbrev pub Serials : Type 0
Serials = List (Sender × ℕ)

abbrev pub is_outbound : Direction → Bool
is_outbound outbound = true
is_outbound inbound = false

abbrev pub same_direction : Direction → Direction → Bool
same_direction a b = if is_outbound a then is_outbound b else not (is_outbound b)

abbrev pub same_sender : Sender → Sender → Bool
same_sender a b =
    same_direction a.direction b.direction && (a.actor == b.actor && a.origin == b.origin)

-- `last_serials[sender] = serial`
unfoldable pub put_last : Sender → ℕ → Serials → Serials
put_last s n [] = (s, n) ∷ []
put_last s n ((t, m) ∷ rest) = if same_sender t s then (t, n) ∷ rest else (t, m) ∷ put_last s n rest

-- The outbound serials of an actor.
unfoldable pub outbound_serials : ℕ → Serials → List ℕ
outbound_serials actor [] = []
outbound_serials actor ((s, n) ∷ rest) =
    let later = outbound_serials actor rest in
    if is_outbound s.direction && s.actor == actor then n ∷ later else later

-- `max(serials, default=floor)`
unfoldable pub max_default : ℕ → List ℕ → ℕ
max_default floor [] = floor
max_default floor (n ∷ []) = n
max_default floor (n ∷ m ∷ rest) = max n (max_default floor (m ∷ rest))

-- What the next serial follows.
unfoldable pub previous_serial : Serials → ℕ → ℕ → ℕ → ℕ → ℕ
unfolding max_default outbound_serials
previous_serial last actor floor reserved synthetic =
    max (max_default floor (outbound_serials actor last) + reserved) (max floor synthetic)

-- `next_actor_serial`
unfoldable pub next_actor_serial : Serials → ℕ → ℕ → ℕ → ℕ → Outcome ℕ
unfolding previous_serial
next_actor_serial last actor floor reserved synthetic =
    let previous = previous_serial last actor floor reserved synthetic in
    if leb 0xffffffff previous then fail value_error else done (previous + 1)

-- A member of a set of numbers, kept in order.
unfoldable pub insert_actor : ℕ → List ℕ → List ℕ
insert_actor a [] = a ∷ []
insert_actor a (b ∷ bs) =
    let rest = insert_actor a bs in
    if a == b then b ∷ bs else if ltb a b then a ∷ b ∷ bs else b ∷ rest

-- `candidate_source_actors`
unfoldable pub candidate_source_actors : ℕ → Serials → List ℕ
unfolding insert_actor
candidate_source_actors host [] = []
candidate_source_actors host ((s, n) ∷ rest) =
    let later = candidate_source_actors host rest in
    if is_outbound s.direction && not (s.actor == 0 || s.actor == host)
    then insert_actor s.actor later
    else later

unfoldable pub numbered : Outcome (ℕ × ℕ) → Outcome ℕ → Option (ℕ × (ℕ × ℕ))
numbered (fail f) serial = none
numbered (done sender) (fail f) = none
numbered (done (actor, origin)) (done serial) =
    if serial == 0 then none else some (actor, (origin, serial))

-- The actor, the origin and the serial of a record, unless a field is missing or the serial is zero.
unfoldable pub command_serial : Bytes → Option (ℕ × (ℕ × ℕ))
unfolding numbered actor_origin serial_u32
command_serial bytes = numbered (actor_origin bytes) (serial_u32 bytes)

pub record Observed : Type 0 where
  pub actor : ℕ
  pub origin : ℕ
  pub serial : ℕ
  pub size : ℕ

unfoldable pub observed_in : Bytes → List CommandRecord → List Observed
unfolding command_serial
observed_in application [] = []
observed_in application (c ∷ cs) =
    let later = observed_in application cs in
    elim (command_serial (slice c.offset (c.offset + c.size) application)) [
      | none ↦ later
      | some (actor, (origin, serial)) ↦
          record { actor = actor; origin = origin; serial = serial; size = c.size } ∷ later
    ]

unfoldable pub put_observed : Direction → List Observed → Serials → Serials
unfolding put_last
put_observed dir [] last = last
put_observed dir (o ∷ os) last =
    put_observed dir os
      (put_last (record { direction = dir; actor = o.actor; origin = o.origin }) o.serial last)

-- `observe_command_serials`: the observations, and the dict that it leaves.
unfoldable pub observe_command_serials : Bytes → Direction → Serials → List Observed × Serials
unfolding is_reliable_packet find_command_records observed_in put_observed
observe_command_serials payload dir last =
    let application = drop header_length payload in
    let seen = observed_in application (find_command_records application) in
    if not (is_reliable_packet payload) then ([], last) else (seen, put_observed dir seen last)

pub record Shifted : Type 0 where
  pub observed : Observed
  pub translated : ℕ

-- What the loop of `translate_outbound_command_serials` does with one command: nothing unless it is of
-- the actor.
unfoldable pub shift_of : ℕ → ℕ → CommandRecord → Option (ℕ × (ℕ × ℕ)) → Outcome (Option Shifted)
shift_of actor delta c none = done none
shift_of actor delta c (some (seen, (origin, serial))) =
    if not (seen == actor)
    then done none
    else if ltb 0xffffffff (serial + delta)
    then fail value_error
    else done (
        some (record {
          observed = record { actor = seen; origin = origin; serial = serial; size = c.size };
          translated = serial + delta;
        }))

-- The loop, on the bytes that it has written so far.
unfoldable pub shift_commands :
    ℕ → ℕ → Bytes → List CommandRecord → Bytes → List Shifted → Outcome (Bytes × List Shifted)
unfolding shift_of command_serial put_bytes to_little
shift_commands actor delta application [] output changes = done (output, changes)
shift_commands actor delta application (c ∷ cs) output changes =
    elim (shift_of actor delta c
      (command_serial (slice c.offset (c.offset + c.size) application))) [
        | fail f ↦ fail f
        | done none ↦ shift_commands actor delta application cs output changes
        | done (some s) ↦
            shift_commands actor delta application cs
              (put_bytes (header_length + c.offset + serial_offset) (to_little 4 s.translated)
                output)
              (changes ++ s ∷ [])
      ]

-- `translate_outbound_command_serials` with a shift that is not negative.
unfoldable pub translate_commands : ℕ → ℕ → Bytes → Outcome (Bytes × List Shifted)
unfolding is_reliable_packet find_command_records shift_commands
translate_commands actor delta payload =
    let application = drop header_length payload in
    if not (is_reliable_packet payload) || delta == 0
    then done (payload, [])
    else shift_commands actor delta application (find_command_records application) payload []

unfoldable pub translate_each : List StreamTranslator → Bytes → Bytes
unfolding translate_outbound
translate_each [] payload = payload
translate_each (t ∷ ts) payload = translate_each ts (translate_outbound t payload)

-- `translate_existing_outbound_stream`
unfoldable pub translate_existing :
    List StreamTranslator → ℕ → ℕ → Bytes → Outcome (Bytes × List Shifted)
unfolding translate_each translate_commands
translate_existing ts actor delta payload =
    translate_commands actor delta (translate_each ts payload)
