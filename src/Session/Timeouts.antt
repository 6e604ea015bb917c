-- ===== src/Session/Timeouts.antt =====
-- The end of a request whose carrier or response does not come.
use imperial_auto_governor.Common.{
  ℕ, ◌≡◌, refl, ◌∙◌, Bool, true, false, not, ◌&&◌, Option, none, some, List, if◌then◌else◌, arith,
  Option-cases, inl, inr,
}
use imperial_auto_governor.Flow.{Packet, Direction, inbound, packet_direction}
use imperial_auto_governor.Stream.{Bytes}
use imperial_auto_governor.Session.{
  SessionRequest, Ending, Finished, Proxy, started, finish_with, finish_request, finished,
  read_arm_file, read_unarmed, carrier_timeout, response_timeout, confirmed,
}
use imperial_auto_governor.Session.Effects.{
  Effect, forwarded, replayed, with_injection, answered, turn-Effect,
}
use imperial_auto_governor.Session.Packets.{
  Settings, Turn, Event, is_some, has_passed, check_timeouts, after_turn, prepare, handle,
  handle_in, run,
}
use imperial_auto_governor.Session.Reached.{run-IsSound, prepare-IsSound}
use imperial_auto_governor.Session.Sound.{IsSound, started-IsSound, Same-IsSound}

-- A request that has ended: none is armed, none waits for its response, and it is the last one.
pub record IsEnded (q : SessionRequest) (p : Proxy) : Type 0 where
  pub disarmed : p.arm_request ≡ none
  pub idle : p.injected_at ≡ none
  pub last : Finished
  pub recorded : p.last_request ≡ some last
  pub own : last.request_id ≡ q.request_id

finish_request-IsEnded :
    (ending : Ending) (q : SessionRequest) (p : Proxy) (retagged logged : Bool)
    → p.arm_request ≡ some q
    → IsEnded q
        (finish_request ending (record p { response_retagged = retagged; timeout_logged = logged }))
unfolding finish_request finish_with finished
finish_request-IsEnded ending q p retagged logged e = rw e (record {
  disarmed = refl;
  idle = refl;
  last = finished ending q (record p { response_retagged = retagged; timeout_logged = logged });
  recorded = refl;
  own = refl;
})

-- What has ended stays ended.
finish_request_again :
    (ending : Ending) (q : SessionRequest) (p : Proxy) (logged : Bool)
    → IsEnded q p
    → IsEnded q (finish_request ending (record p { timeout_logged = logged }))
unfolding finish_request finish_with
finish_request_again ending q p logged h =
    rw h.disarmed
      (record { disarmed = refl; idle = h.idle; last = h.last; recorded = h.recorded; own = h.own })

timed_out-IsEnded :
    (first second : Bool) (q : SessionRequest) (p : Proxy)
    → IsEnded q p
    → IsEnded q (
        if first
        then finish_request carrier_timeout p
        else if second
        then finish_request response_timeout (record p { timeout_logged = true })
        else p)
timed_out-IsEnded true second q p h = finish_request_again carrier_timeout q p p.timeout_logged h
timed_out-IsEnded false true q p h = finish_request_again response_timeout q p true h
timed_out-IsEnded false false q p h = h

-- Since when a request waits: since its insertion, or since it was armed.
abbrev pub waits_since : Proxy → Option ℕ
waits_since p = if is_some p.injected_at then p.injected_at else p.armed_at

check_timeouts-late :
    (limit now : ℕ) (q : SessionRequest) (p : Proxy)
    → IsSound p
    → p.arm_request ≡ some q
    → has_passed limit now (waits_since p) ≡ true
    → IsEnded q (check_timeouts limit now p)
unfolding check_timeouts
check_timeouts-late limit now q p h waits late = elim (Option-cases p.injected_at) [
  | inl e ↦
      let test : (is_some p.arm_request
            && (not (is_some p.injected_at) && has_passed limit now p.armed_at))
          ≡ true =
        ground arith in
      rw test
        (finish_request-IsEnded carrier_timeout q p p.response_retagged p.timeout_logged waits)
  | inr (t, e) ↦
      let test : (is_some p.arm_request
            && (not (is_some p.injected_at) && has_passed limit now p.armed_at))
          ≡ false =
        ground arith in
      let unanswered = h.unanswered in
      let unlogged = h.unlogged in
      let passed : has_passed limit now p.injected_at ≡ true = ground arith in
      let next : (is_some p.injected_at
            && (not p.response_retagged
                && (not p.timeout_logged && has_passed limit now p.injected_at)))
          ≡ true =
        ground arith in
      rw (test, next) (finish_request-IsEnded response_timeout q p p.response_retagged true waits)
]

prepare-armed :
    (now : ℕ) (original : Bytes) (dir : Direction) (q : SessionRequest) (p : Proxy)
    → p.arm_request ≡ some q
    → ((prepare now original dir p).arm_request ≡ some q)
      × ((prepare now original dir p).injected_at ≡ p.injected_at)
      × ((prepare now original dir p).armed_at ≡ p.armed_at)
unfolding prepare read_arm_file read_unarmed
prepare-armed now original dir q p e = rw e (refl, refl, refl)

after_inbound :
    (s : Settings) (now : ℕ) (original : Bytes) (q : SessionRequest) (p : Proxy) (t : Turn)
    → IsSound p
    → p.arm_request ≡ some q
    → has_passed s.response_timeout_seconds now (waits_since p) ≡ true
    → Effect s now original inbound p t
    → IsEnded q (after_turn s.response_timeout_seconds now t).1
unfolding after_turn check_timeouts
after_inbound s now original q p _ h waits late (forwarded sent p' same first) =
    check_timeouts-late s.response_timeout_seconds now q p' (Same-IsSound p p' same h)
      (same.arm_request ∙ waits) (rw (same.injected_at, same.armed_at) late)
after_inbound s now original q p _ h waits late (replayed wires p' same out kept) = absurd cc
after_inbound s now original q p _ h waits late
      (with_injection r serial i outgoing p' same out missed idle made) =
    absurd cc
after_inbound s now original q p _ h waits late (answered r p' same back later there) =
    timed_out-IsEnded _ _ q _
      (finish_request-IsEnded confirmed q p' true p'.timeout_logged (same.arm_request ∙ waits))

-- In every state that the loop reaches from its start: if a request is armed and has waited for its
-- carrier, or for its response after its insertion, for at least the timeout, then it has ended after
-- the next packet from the host: it is the last finished request, and no request is armed.
pub handle-ends :
    (s : Settings) (es : List Event) (now : ℕ) (packet : Packet) (original : Bytes)
    (q : SessionRequest)
    → packet_direction s.flow packet ≡ some inbound
    → (run s es started).arm_request ≡ some q
    → has_passed s.response_timeout_seconds now (waits_since (run s es started)) ≡ true
    → IsEnded q (handle s now packet original (run s es started)).1
unfolding handle handle_in
handle-ends s es now packet original q back waits late =
    let p = run s es started in
    let before = prepare now original inbound p in
    let (still, inserted_at, begun) = prepare-armed now original inbound q p waits in
    rw back (
      after_inbound s now original q before _
        (prepare-IsSound now original inbound p (run-IsSound s es started started-IsSound)) still
        (rw (inserted_at, begun) late) (turn-Effect s now original inbound before))
