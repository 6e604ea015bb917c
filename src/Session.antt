-- ===== src/Session.antt =====
-- src/iag/stellaris/execution/session_proxy.py: what `run` keeps after the flow is locked, the requests it
-- arms and the ones it finishes. The arm file is part of the state: what `parse_arm_request` makes of it
-- stands beside its signature. Times are whole units of the clock; logs and the status file are left out.
pub mod Insertion
pub mod Packets
pub mod Effects
pub mod Kept
pub mod Once
pub mod Reached
pub mod Replays
pub mod Rewrites
pub mod Sends
pub mod Sound
pub mod Timeouts
mod Tests
use imperial_auto_governor.Common.{
  ℕ, ◌+◌, ◌-◌, String, Bool, true, false, not, ◌&&◌, Option, none, some, List, [], ◌∷◌, ◌++◌, leb,
  ◌==◌, if◌then◌else◌, length, drop,
}
use imperial_auto_governor.Common.Int.{ℤ, pos, negsuc, eqb_ℤ}
use imperial_auto_governor.Stream.{Bytes, StreamTranslator}
use imperial_auto_governor.Wire.{value_error, Outcome, fail, done, ◌>>=◌, ◌>>◌, raise_if}
use imperial_auto_governor.Wire.Boundary.{ArmRequest}
use imperial_auto_governor.Wire.Serials.{Serials, candidate_source_actors}

-- A request from the arm file.
pub record SessionRequest : Type 0 where
  pub request_id : String
  pub action : String
  pub host_actor : ℤ
  pub serial_floor : ℕ
  pub command : ArmRequest

-- The time of the file's change, and its size.
abbrev pub Signature : Type 0
Signature = ℕ × ℕ

abbrev pub same_signature : Signature → Option Signature → Bool
same_signature (a, b) none = false
same_signature (a, b) (some (c, d)) = a == c && b == d

pub record ArmFile : Type 0 where
  pub signature : Signature
  pub parsed : Outcome SessionRequest

pub data Ending : Type 0 where
  confirmed carrier_timeout response_timeout : Ending

pub record Finished : Type 0 where
  pub request_id : String
  pub action : String
  pub outcome : Ending
  pub source_actor : ℤ
  pub serial : Option ℕ
  pub host_acknowledged : Bool
  pub response_retagged : Bool

pub record Proxy : Type 0 where
  pub arm_file : Option ArmFile
  pub arm_request : Option SessionRequest
  pub arm_error : Option Signature
  pub last_serials : Serials
  pub translators : List StreamTranslator
  pub carrier_rewrites : List (Bytes × List Bytes)
  pub proxy_actor : Option ℤ
  pub synthetic_count : ℕ
  pub last_synthetic : ℕ
  pub completed : List Finished
  pub last_request : Option Finished
  pub armed_at : Option ℕ
  pub injected_at : Option ℕ
  pub injected_serial : Option ℕ
  pub active_inserted : Option ℕ
  pub active_command : Option ℕ
  pub response_retagged : Bool
  pub timeout_logged : Bool
  pub host_acknowledged : Bool
  pub sender_packets : ℕ
  pub ack_packets : ℕ
  pub moved_serials : ℕ
  pub retransmissions : ℕ

-- What `run` starts with.
abbrev pub started : Proxy
started = record {
  arm_file = none;
  arm_request = none;
  arm_error = none;
  last_serials = [];
  translators = [];
  carrier_rewrites = [];
  proxy_actor = none;
  synthetic_count = 0;
  last_synthetic = 0;
  completed = [];
  last_request = none;
  armed_at = none;
  injected_at = none;
  injected_serial = none;
  active_inserted = none;
  active_command = none;
  response_retagged = false;
  timeout_logged = false;
  host_acknowledged = false;
  sender_packets = 0;
  ack_packets = 0;
  moved_serials = 0;
  retransmissions = 0;
}

pub data StateName : Type 0 where
  armed translating flow_locked ready_waiting_for_flow : StateName

-- `state_name`; the test says whether a flow is locked.
unfoldable pub state_name : Bool → Proxy → StateName
state_name locked p = elim p.arm_request [
  | some q ↦ armed
  | none ↦ elim p.translators [
    | t ∷ ts ↦ translating
    | [] ↦ if locked then flow_locked else ready_waiting_for_flow
  ]
]

-- `del records[:-50]`
unfoldable pub last_fifty : List Finished → List Finished
last_fifty records = drop (length records - 50) records

unfoldable pub finished : Ending → SessionRequest → Proxy → Finished
finished ending q p = record {
  request_id = q.request_id;
  action = q.action;
  outcome = ending;
  source_actor = q.command.source_actor;
  serial = elim p.injected_at [ none ↦ none | some t ↦ p.injected_serial ];
  host_acknowledged = p.host_acknowledged;
  response_retagged = p.response_retagged;
}

unfoldable pub finish_with : Ending → Option SessionRequest → Proxy → Proxy
unfolding finished last_fifty
finish_with ending none p = p
finish_with ending (some q) p = record p {
  completed = last_fifty (p.completed ++ finished ending q p ∷ []);
  last_request = some (finished ending q p);
  arm_request = none;
  arm_error = none;
  armed_at = none;
  injected_at = none;
  response_retagged = false;
  timeout_logged = false;
  host_acknowledged = false;
  arm_file = none;
}

-- `finish_request`
unfoldable pub finish_request : Ending → Proxy → Proxy
unfolding finish_with
finish_request ending p = finish_with ending p.arm_request p

-- The candidates of a host that may be any integer: 0 is never a candidate.
abbrev pub candidates_of : ℤ → Serials → List ℕ
candidates_of (pos host) last = candidate_source_actors host last
candidates_of (negsuc n) last = candidate_source_actors 0 last

-- The actor that a request names, or the only candidate.
unfoldable pub requested_actor : SessionRequest → Serials → Outcome ℤ
unfolding candidate_source_actors
requested_actor q last =
    if not (eqb_ℤ q.command.source_actor (pos 0))
    then done q.command.source_actor
    else elim (candidates_of q.host_actor last) [
      | [] ↦ fail value_error
      | a ∷ [] ↦ done (pos a)
      | a ∷ b ∷ rest ↦ fail value_error
    ]

-- `proxy_actor is not None and requested_actor != proxy_actor`
abbrev pub changes_actor : Option ℤ → ℤ → Bool
changes_actor none actor = false
changes_actor (some a) actor = not (eqb_ℤ actor a)

abbrev pub with_actor : SessionRequest → ℤ → SessionRequest
with_actor q actor = record q { command = record q.command { source_actor = actor } }

unfoldable pub accepted : Outcome SessionRequest → Proxy → Outcome SessionRequest
unfolding requested_actor
accepted parsed p = do
  q ← parsed
  actor ← requested_actor q p.last_serials
  raise_if (changes_actor p.proxy_actor actor) value_error
  done (with_actor q actor)

-- What an accepted request sets.
unfoldable pub arm : ℕ → SessionRequest → Proxy → Proxy
arm now q p = record p {
  arm_request = some q;
  proxy_actor = some q.command.source_actor;
  armed_at = some now;
  injected_serial = none;
  active_inserted = none;
  active_command = none;
  response_retagged = false;
  timeout_logged = false;
  host_acknowledged = false;
}

unfoldable pub armed_or_rejected : ℕ → Signature → Outcome SessionRequest → Proxy → Proxy
unfolding arm
armed_or_rejected now signature (fail f) p = record p {
  arm_request = none;
  arm_error = some signature;
}
armed_or_rejected now signature (done q) p = arm now q p

unfoldable pub read_file : ℕ → Option ArmFile → Proxy → Proxy
unfolding accepted armed_or_rejected
read_file now none p = p
read_file now (some file) p =
    if same_signature file.signature p.arm_error
    then p
    else armed_or_rejected now file.signature (accepted file.parsed p) p

-- The part of `run` that looks at the arm file, unless a request is armed.
unfoldable pub read_unarmed : ℕ → Option SessionRequest → Proxy → Proxy
unfolding read_file
read_unarmed now (some q) p = p
read_unarmed now none p = read_file now p.arm_file p

unfoldable pub read_arm_file : ℕ → Proxy → Proxy
unfolding read_unarmed
read_arm_file now p = read_unarmed now p.arm_request p
