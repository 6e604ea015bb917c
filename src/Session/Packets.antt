-- ===== src/Session/Packets.antt =====
-- src/iag/stellaris/execution/session_proxy.py: what the loop of `run` does with one packet of the locked
-- flow: the datagrams it sends and the state it leaves.
use imperial_auto_governor.Common.{
  ℕ, ◌+◌, Bool, true, false, not, ◌&&◌, Option, none, some, List, [], ◌∷◌, ◌++◌, leb, ltb,
  if◌then◌else◌, length,
}
use imperial_auto_governor.Common.Int.{ℤ, pos, negsuc}
use imperial_auto_governor.Flow.{FlowKey, Packet, Direction, outbound, inbound, packet_direction}
use imperial_auto_governor.Stream.{
  Bytes, StreamTranslator, half_range, same_bytes, read_uint24, is_reliable_packet,
  forward_distance, translate_inbound,
}
use imperial_auto_governor.Wire.{Outcome, fail, done, ◌>>=◌}
use imperial_auto_governor.Wire.Boundary.{Injection, inject_at_packet_boundary}
use imperial_auto_governor.Wire.Responses.{Response, retag_matching_response}
use imperial_auto_governor.Wire.Serials.{
  Serials, Shifted, next_actor_serial, observe_command_serials, translate_each, translate_existing,
}
use imperial_auto_governor.Session.{
  ArmFile, SessionRequest, Proxy, confirmed, carrier_timeout, response_timeout, finish_request,
  read_arm_file,
}

pub record Settings : Type 0 where
  pub flow : FlowKey
  pub max_payload : ℕ
  pub response_timeout_seconds : ℕ

-- What one packet leads to: the loop goes to its end, or a `continue` skips the timeouts.
pub data Turn : Type 0 where
  to_end continued : List Bytes → Proxy → Turn

-- `carrier_rewrites.get(payload)`
unfoldable pub find_rewrite : Bytes → List (Bytes × List Bytes) → Option (List Bytes)
unfolding same_bytes
find_rewrite payload [] = none
find_rewrite payload ((k, v) ∷ rest) =
    if same_bytes k payload then some v else find_rewrite payload rest

unfoldable pub put_rewrite :
    Bytes → List Bytes → List (Bytes × List Bytes) → List (Bytes × List Bytes)
unfolding same_bytes
put_rewrite payload wires [] = (payload, wires) ∷ []
put_rewrite payload wires ((k, v) ∷ rest) =
    if same_bytes k payload then (k, wires) ∷ rest else (k, v) ∷ put_rewrite payload wires rest

-- The commands of an actor that is not a natural number: there are none.
unfoldable pub translate_stream :
    List StreamTranslator → ℤ → ℕ → Bytes → Outcome (Bytes × List Shifted)
unfolding translate_existing translate_each
translate_stream ts (pos actor) count payload = translate_existing ts actor count payload
translate_stream ts (negsuc n) count payload = done (translate_each ts payload, [])

-- `proxy_actor or 0`
abbrev pub actor_or_zero : Option ℤ → ℤ
actor_or_zero none = pos 0
actor_or_zero (some a) = a

abbrev pub one_if : Bool → ℕ
one_if true = 1
one_if false = 0

unfoldable pub count_outbound : Bytes → Bytes × List Shifted → Proxy → Bytes × Proxy
unfolding same_bytes
count_outbound original (outgoing, changes) p = (
  outgoing,
  record p {
    sender_packets = p.sender_packets + one_if (not (same_bytes outgoing original));
    moved_serials = p.moved_serials + length changes;
  },
)

-- The translation of an outbound packet that no rewrite is kept for.
unfoldable pub translate_sent : List StreamTranslator → Bytes → Proxy → Outcome (Bytes × Proxy)
unfolding translate_stream count_outbound
translate_sent [] original p = done (original, p)
translate_sent (t ∷ ts) original p = do
  moved ← translate_stream (t ∷ ts) (actor_or_zero p.proxy_actor) p.synthetic_count original
  done (count_outbound original moved p)

-- `next_actor_serial` for an actor that may be any integer: a negative one has no serials.
unfoldable pub next_serial : Serials → ℤ → ℕ → ℕ → ℕ → Outcome ℕ
unfolding next_actor_serial
next_serial last (pos actor) floor reserved synthetic =
    next_actor_serial last actor floor reserved synthetic
next_serial last (negsuc n) floor reserved synthetic =
    next_actor_serial [] 0 floor reserved synthetic

-- The serial and the insertion for an armed request, if the packet is a carrier.
unfoldable pub injection_for :
    Settings → SessionRequest → Bytes → Proxy → Outcome (ℕ × Option Injection)
unfolding next_serial inject_at_packet_boundary
injection_for s q outgoing p = do
  serial ←
      next_serial p.last_serials q.command.source_actor q.serial_floor p.synthetic_count
        p.last_synthetic
  made ← inject_at_packet_boundary q.command (pos serial) s.max_payload outgoing
  done (serial, made)

-- What an insertion sets.
unfoldable pub inject : ℕ → Bytes → ℕ → Injection → Proxy → Proxy
unfolding put_rewrite
inject now original serial i p = record p {
  carrier_rewrites = put_rewrite original i.wire_payloads p.carrier_rewrites;
  translators =
      p.translators
      ++ record { injection_offset = i.injection_offset; inserted_length = i.inserted_length } ∷ [];
  synthetic_count = p.synthetic_count + 1;
  last_synthetic = serial;
  injected_at = some now;
  injected_serial = some serial;
  active_inserted = some i.inserted_length;
  active_command = some i.command_length;
}

abbrev pub is_some {κ} : {Value : Type κ} → Option Value → Bool
is_some none = false
is_some (some v) = true

-- The request that waits for a carrier.
unfoldable pub waiting_request : Proxy → Option SessionRequest
waiting_request p = if is_some p.injected_at then none else p.arm_request

unfoldable pub sent_or_injected : ℕ → Bytes → Bytes → Proxy → Outcome (ℕ × Option Injection) → Turn
unfolding inject
sent_or_injected now original outgoing p (fail f) = to_end (original ∷ []) p
sent_or_injected now original outgoing p (done (serial, none)) = to_end (outgoing ∷ []) p
sent_or_injected now original outgoing p (done (serial, some i)) =
    continued i.wire_payloads (inject now original serial i p)

unfoldable pub carry : Settings → ℕ → Bytes → Bytes → Proxy → Option SessionRequest → Turn
unfolding injection_for sent_or_injected
carry s now original outgoing p none = to_end (outgoing ∷ []) p
carry s now original outgoing p (some q) =
    sent_or_injected now original outgoing p (injection_for s q outgoing p)

-- What follows the translation, which may have raised.
unfoldable pub send_translated : Settings → ℕ → Bytes → Proxy → Outcome (Bytes × Proxy) → Turn
unfolding waiting_request carry
send_translated s now original before (fail f) = to_end (original ∷ []) before
send_translated s now original before (done (outgoing, p)) =
    carry s now original outgoing p (waiting_request p)

abbrev pub is_nil : List StreamTranslator → Bool
is_nil [] = true
is_nil (t ∷ ts) = false

-- A rewrite counts only once there are translators.
unfoldable pub kept_rewrite : Bytes → Proxy → Option (List Bytes)
unfolding find_rewrite
kept_rewrite original p =
    if is_nil p.translators then none else find_rewrite original p.carrier_rewrites

unfoldable pub send_or_replay : Settings → ℕ → Bytes → Proxy → Option (List Bytes) → Turn
unfolding translate_sent send_translated
send_or_replay s now original p (some wires) =
    continued wires (record p { retransmissions = p.retransmissions + 1 })
send_or_replay s now original p none =
    send_translated s now original p (translate_sent p.translators original p)

unfoldable pub send_outbound : Settings → ℕ → Bytes → Proxy → Turn
unfolding kept_rewrite send_or_replay
send_outbound s now original p = send_or_replay s now original p (kept_rewrite original p)

-- The translators from the last to the first.
unfoldable pub translate_back : List StreamTranslator → Bytes → Bytes
unfolding translate_inbound
translate_back [] payload = payload
translate_back (t ∷ ts) payload = translate_inbound t (translate_back ts payload)

abbrev pub last_offset : StreamTranslator → List StreamTranslator → ℕ
last_offset t [] = t.injection_offset
last_offset t (u ∷ ts) = last_offset u ts

-- Whether an acknowledgement is behind the bytes that are inserted.
unfoldable pub is_acknowledged : ℕ → Bytes → Option ℕ → Bool
unfolding forward_distance read_uint24
is_acknowledged offset original none = false
is_acknowledged offset original (some inserted) =
    let distance = forward_distance (read_uint24 original 10) offset in
    leb inserted distance && ltb distance half_range

unfoldable pub note_acknowledged : ℕ → Bytes → Proxy → Proxy
unfolding is_reliable_packet is_acknowledged
note_acknowledged offset original p =
    if is_reliable_packet original
      && (is_some p.injected_at
          && (not p.host_acknowledged && is_acknowledged offset original p.active_inserted))
    then record p { host_acknowledged = true }
    else p

-- The request that waits for the host's response.
unfoldable pub unanswered_request : Proxy → Option SessionRequest
unanswered_request p = if p.response_retagged then none else p.arm_request

unfoldable pub sent_or_confirmed : Bytes → Bytes → Proxy → Outcome (Option Response) → Turn
unfolding finish_request
sent_or_confirmed original outgoing p (fail f) = to_end (original ∷ []) p
sent_or_confirmed original outgoing p (done none) = to_end (outgoing ∷ []) p
sent_or_confirmed original outgoing p (done (some r)) =
    to_end (r.payload ∷ []) (finish_request confirmed (record p { response_retagged = true }))

unfoldable pub answer : Bytes → Bytes → Proxy → Option SessionRequest → Turn
unfolding retag_matching_response sent_or_confirmed
answer original outgoing p none = to_end (outgoing ∷ []) p
answer original outgoing p (some q) =
    sent_or_confirmed original outgoing p (retag_matching_response q.command q.host_actor outgoing)

-- The counters and the acknowledgement of an inbound packet.
unfoldable pub count_inbound : ℕ → Bytes → Bytes → Proxy → Proxy
unfolding note_acknowledged same_bytes
count_inbound offset original outgoing p =
    note_acknowledged offset original
      (record p { ack_packets = p.ack_packets + one_if (not (same_bytes outgoing original)) })

unfoldable pub answer_counted : Bytes → Bytes → Proxy → Turn
unfolding unanswered_request answer
answer_counted original outgoing p = answer original outgoing p (unanswered_request p)

unfoldable pub send_inbound : List StreamTranslator → Bytes → Proxy → Turn
unfolding translate_back count_inbound answer_counted
send_inbound [] original p = to_end (original ∷ []) p
send_inbound (t ∷ ts) original p =
    let outgoing = translate_back (t ∷ ts) original in
    answer_counted original outgoing (count_inbound (last_offset t ts) original outgoing p)

-- `start is not None and now - start >= limit`
abbrev pub has_passed : ℕ → ℕ → Option ℕ → Bool
has_passed limit now none = false
has_passed limit now (some start) = leb (start + limit) now

-- The timeouts at the end of the loop.
unfoldable pub check_timeouts : ℕ → ℕ → Proxy → Proxy
unfolding finish_request
check_timeouts limit now p =
    if is_some p.arm_request && (not (is_some p.injected_at) && has_passed limit now p.armed_at)
    then finish_request carrier_timeout p
    else if is_some p.injected_at
        && (not p.response_retagged && (not p.timeout_logged && has_passed limit now p.injected_at))
    then finish_request response_timeout (record p { timeout_logged = true })
    else p

unfoldable pub after_turn : ℕ → ℕ → Turn → List Bytes × Proxy
unfolding check_timeouts
after_turn limit now (to_end sent p) = (sent, check_timeouts limit now p)
after_turn limit now (continued sent p) = (sent, p)

-- What is seen before the packet is sent: the serials it carries, and the arm file.
unfoldable pub prepare : ℕ → Bytes → Direction → Proxy → Proxy
unfolding observe_command_serials read_arm_file
prepare now original dir p =
    read_arm_file now
      (record p { last_serials = (observe_command_serials original dir p.last_serials).1 })

unfoldable pub turn : Settings → ℕ → Bytes → Direction → Proxy → Turn
unfolding send_outbound send_inbound
turn s now original outbound p = send_outbound s now original p
turn s now original inbound p = send_inbound p.translators original p

unfoldable pub handle_in : Settings → ℕ → Bytes → Option Direction → Proxy → List Bytes × Proxy
unfolding prepare turn after_turn
handle_in s now original none p = (original ∷ [], p)
handle_in s now original (some dir) p =
    after_turn s.response_timeout_seconds now (turn s now original dir (prepare now original dir p))

-- One packet of the loop.
unfoldable pub handle : Settings → ℕ → Packet → Bytes → Proxy → List Bytes × Proxy
unfolding packet_direction handle_in
handle s now packet original p = handle_in s now original (packet_direction s.flow packet) p

-- A packet at a time, or a new arm file.
pub data Event : Type 0 where
  packet_seen : ℕ → Packet → Bytes → Event
  file_written : Option ArmFile → Event

unfoldable pub step : Settings → Event → Proxy → List Bytes × Proxy
unfolding handle
step s (packet_seen now packet payload) p = handle s now packet payload p
step s (file_written file) p = ([], record p { arm_file = file })

-- The states that a run goes through.
unfoldable pub run : Settings → List Event → Proxy → Proxy
unfolding step
run s [] p = p
run s (e ∷ es) p = run s es (step s e p).1
