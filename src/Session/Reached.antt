-- ===== src/Session/Reached.antt =====
-- The states that the loop of `run` reaches: reading the arm file, a packet, and any sequence of them.
use imperial_auto_governor.Common.{
  ℕ, ◌≡◌, refl, ap, subst, Bool, true, false, Option, none, some, List, [], ◌∷◌, if◌then◌else◌,
}
use imperial_auto_governor.Flow.{Direction}
use imperial_auto_governor.Stream.{Bytes}
use imperial_auto_governor.Wire.{Outcome, fail, done}
use imperial_auto_governor.Wire.Serials.{Serials}
use imperial_auto_governor.Session.{
  SessionRequest, Signature, ArmFile, Proxy, started, arm, accepted, armed_or_rejected,
  read_arm_file, read_unarmed, read_file, same_signature,
}
use imperial_auto_governor.Session.Effects.{turn-Effect}
use imperial_auto_governor.Session.Sound.{
  IsSound, left_by, started-IsSound, turn-IsSound, check_timeouts-IsSound,
}
use imperial_auto_governor.Session.Packets.{
  Settings, Turn, to_end, continued, Event, packet_seen, file_written, after_turn, prepare, turn,
  handle, handle_in, step, run,
}

-- A new arm file, and serials that are seen.
noticed-IsSound :
    (p : Proxy) (file : Option ArmFile) (last : Serials) (signature : Option Signature)
    → IsSound p
    → IsSound (record p { arm_file = file; last_serials = last; arm_error = signature })
noticed-IsSound p file last signature h = record {
  counted = h.counted;
  rewrites = h.rewrites;
  before_first = h.before_first;
  requested = h.requested;
  own_actor = h.own_actor;
  timed = h.timed;
  unanswered = h.unanswered;
  unlogged = h.unlogged;
  few = h.few;
}

same_request : (q r : SessionRequest) → ◌≡◌ {A = Option SessionRequest} (some q) (some r) → q ≡ r
same_request q r h = cc

arm-IsSound : (now : ℕ) (q : SessionRequest) (p : Proxy) → IsSound p → IsSound (arm now q p)
unfolding arm
arm-IsSound now q p h = record {
  counted = h.counted;
  rewrites = h.rewrites;
  before_first = h.before_first;
  requested = λ late. refl;
  own_actor = λ r e. ap (λ (q : SessionRequest). some q.command.source_actor) (same_request q r e);
  timed = λ waits. refl;
  unanswered = refl;
  unlogged = refl;
  few = h.few;
}

armed_or_rejected-IsSound :
    (now : ℕ) (signature : Signature) (parsed : Outcome SessionRequest) (p : Proxy)
    → p.arm_request ≡ none
    → IsSound p
    → IsSound (armed_or_rejected now signature parsed p)
unfolding armed_or_rejected
armed_or_rejected-IsSound now signature (fail f) p idle h =
    subst (λ waiting. IsSound (record p { arm_request = waiting; arm_error = some signature })) idle
      (noticed-IsSound p p.arm_file p.last_serials (some signature) h)
armed_or_rejected-IsSound now signature (done q) p idle h = arm-IsSound now q p h

chosen-IsSound : (b : Bool) (p p' : Proxy) → IsSound p → IsSound p' → IsSound (if b then p else p')
chosen-IsSound true p p' h h' = h
chosen-IsSound false p p' h h' = h'

read_file-IsSound :
    (now : ℕ) (found : Option ArmFile) (p : Proxy)
    → p.arm_request ≡ none
    → IsSound p
    → IsSound (read_file now found p)
unfolding read_file
read_file-IsSound now none p idle h = h
read_file-IsSound now (some file) p idle h =
    chosen-IsSound (same_signature file.signature p.arm_error) p _ h
      (armed_or_rejected-IsSound now file.signature (accepted file.parsed p) p idle h)

read_unarmed-IsSound :
    (now : ℕ) (waiting : Option SessionRequest) (p : Proxy)
    → p.arm_request ≡ waiting
    → IsSound p
    → IsSound (read_unarmed now waiting p)
unfolding read_unarmed
read_unarmed-IsSound now (some q) p e h = h
read_unarmed-IsSound now none p e h = read_file-IsSound now p.arm_file p e h

pub prepare-IsSound :
    (now : ℕ) (original : Bytes) (dir : Direction) (p : Proxy)
    → IsSound p
    → IsSound (prepare now original dir p)
unfolding prepare read_arm_file
prepare-IsSound now original dir p h =
    read_unarmed-IsSound now p.arm_request _ refl (noticed-IsSound p p.arm_file _ p.arm_error h)

after_turn-IsSound :
    (limit now : ℕ) (t : Turn) → IsSound (left_by t) → IsSound (after_turn limit now t).1
unfolding after_turn
after_turn-IsSound limit now (to_end sent p) h = check_timeouts-IsSound limit now p h
after_turn-IsSound limit now (continued sent p) h = h

handle_in-IsSound :
    (s : Settings) (now : ℕ) (original : Bytes) (dir : Option Direction) (p : Proxy)
    → IsSound p
    → IsSound (handle_in s now original dir p).1
unfolding handle_in
handle_in-IsSound s now original none p h = h
handle_in-IsSound s now original (some dir) p h =
    let before = prepare now original dir p in
    after_turn-IsSound s.response_timeout_seconds now (turn s now original dir before) (
      turn-IsSound s now original dir before _ (turn-Effect s now original dir before)
        (prepare-IsSound now original dir p h))

step-IsSound : (s : Settings) (e : Event) (p : Proxy) → IsSound p → IsSound (step s e p).1
unfolding step handle
step-IsSound s (packet_seen now packet payload) p h = handle_in-IsSound s now payload _ p h
step-IsSound s (file_written file) p h = noticed-IsSound p file p.last_serials p.arm_error h

pub run-IsSound : (s : Settings) (es : List Event) (p : Proxy) → IsSound p → IsSound (run s es p)
unfolding run
run-IsSound s [] p h = h
run-IsSound s (e ∷ es) p h = run-IsSound s es (step s e p).1 (step-IsSound s e p h)

-- Whatever packets and arm files come, every state that the loop reaches from its start has as many
-- insertions as translators, rewrites of at least one datagram and none before the first insertion, at
-- most fifty finished requests, and no response or timeout that is still to be finished; while an insertion
-- waits for its response a request is armed, and an armed request has a time and is of the actor of the
-- session.
pub run_from_start-IsSound : (s : Settings) (es : List Event) → IsSound (run s es started)
run_from_start-IsSound s es = run-IsSound s es started started-IsSound
