-- ===== src/Session/Sound.antt =====
-- The states that the loop of `run` goes through.
use imperial_auto_governor.Common.{
  ℕ, ◌+◌, ◌-◌, ◌≤◌, ◌≡◌, refl, ap, ◌∙◌, Bool, true, false, ◌&&◌, Option, some, List, [], ◌∷◌, ◌++◌,
  if◌then◌else◌, arith, All, length, length-drop, length-append, Option-cases, inl, inr,
}
use imperial_auto_governor.Common.Int.{pos}
use imperial_auto_governor.Flow.{Direction}
use imperial_auto_governor.Stream.{Bytes, StreamTranslator, same_bytes}
use imperial_auto_governor.Wire.Boundary.{Injection}
use imperial_auto_governor.Session.{
  SessionRequest, Ending, Finished, Proxy, started, finished, last_fifty, finish_request, confirmed,
  carrier_timeout, response_timeout,
}
use imperial_auto_governor.Session.Insertion.{
  inject_at_packet_boundary-wires, injection_for-IsFresh,
}
use imperial_auto_governor.Session.Effects.{
  Same, Effect, forwarded, replayed, with_injection, answered,
}
use imperial_auto_governor.Session.Packets.{
  Settings, Turn, to_end, continued, put_rewrite, is_some, inject, check_timeouts,
}

abbrev pub HasWires : Bytes × List Bytes → Type 0
HasWires kept = 1 ≤ length kept.1

-- What every state of the loop has: as many insertions as translators; rewrites of at least one datagram,
-- and none before the first insertion; a request while an insertion waits for its response; the actor
-- and the time of the request that is armed; no response and no timeout that is still to be finished; and at most fifty
-- finished requests.
pub record IsSound (p : Proxy) : Type 0 where
  pub counted : length p.translators ≡ p.synthetic_count
  pub rewrites : All HasWires p.carrier_rewrites
  pub before_first : p.translators ≡ [] → p.carrier_rewrites ≡ []
  pub requested : is_some p.injected_at ≡ true → is_some p.arm_request ≡ true
  pub own_actor :
      (q : SessionRequest) → p.arm_request ≡ some q → p.proxy_actor ≡ some q.command.source_actor
  pub timed : is_some p.arm_request ≡ true → is_some p.armed_at ≡ true
  pub unanswered : p.response_retagged ≡ false
  pub unlogged : p.timeout_logged ≡ false
  pub few : length p.completed ≤ 50

pub started-IsSound : IsSound started
started-IsSound = record {
  counted = refl;
  rewrites = tt;
  before_first = λ h. refl;
  requested = λ h. cc;
  own_actor = λ q h. cc;
  timed = λ h. cc;
  unanswered = refl;
  unlogged = refl;
  few = omega arith;
}

pub Same-IsSound : (p p' : Proxy) → Same p p' → IsSound p → IsSound p'
Same-IsSound p p' e h = record {
  counted = rw (e.translators, e.synthetic_count) h.counted;
  rewrites = rw e.carrier_rewrites h.rewrites;
  before_first = rw (e.translators, e.carrier_rewrites) h.before_first;
  requested = rw (e.injected_at, e.arm_request) h.requested;
  own_actor = rw (e.arm_request, e.proxy_actor) h.own_actor;
  timed = rw (e.arm_request, e.armed_at) h.timed;
  unanswered = rw e.response_retagged h.unanswered;
  unlogged = rw e.timeout_logged h.unlogged;
  few = rw e.completed h.few;
}

last_fifty-length : (fs : List Finished) → length (last_fifty fs) ≤ 50
unfolding last_fifty
last_fifty-length fs = omega (arith, length-drop (length fs - 50) fs)

-- `finish_request` takes any state that is sound but for an answer that is noted.
pub finish_request-IsSound :
    (ending : Ending) (p : Proxy) (retagged logged : Bool)
    → is_some p.arm_request ≡ true
    → IsSound p
    → IsSound
        (finish_request ending (record p { response_retagged = retagged; timeout_logged = logged }))
unfolding finish_request
finish_request-IsSound ending p retagged logged waits h = elim (Option-cases p.arm_request) [
  | inl e ↦ absurd (ground arith)
  | inr (q, e) ↦ rw e (record {
    counted = h.counted;
    rewrites = h.rewrites;
    before_first = h.before_first;
    requested = λ no. cc;
    own_actor = λ r no. cc;
    timed = λ no. cc;
    unanswered = refl;
    unlogged = refl;
    few = last_fifty-length (
        p.completed
        ++ finished ending q (record p { response_retagged = retagged; timeout_logged = logged })
          ∷ []);
  })
]

finished-IsSound :
    (ending : Ending) (p : Proxy)
    → is_some p.arm_request ≡ true
    → IsSound p
    → IsSound (finish_request ending (record p { response_retagged = true }))
finished-IsSound ending p waits h = finish_request-IsSound ending p true p.timeout_logged waits h

timed_out-IsSound :
    (first second : Bool) (p : Proxy)
    → (first ≡ true → is_some p.arm_request ≡ true)
    → (second ≡ true → is_some p.injected_at ≡ true)
    → IsSound p
    → IsSound (
        if first
        then finish_request carrier_timeout p
        else if second
        then finish_request response_timeout (record p { timeout_logged = true })
        else p)
timed_out-IsSound true second p waits late h =
    finish_request-IsSound carrier_timeout p p.response_retagged p.timeout_logged (waits refl) h
timed_out-IsSound false true p waits late h =
    finish_request-IsSound response_timeout p p.response_retagged true (h.requested (late refl)) h
timed_out-IsSound false false p waits late h = h

first_test : (a b : Bool) → (a && b) ≡ true → a ≡ true
first_test a b h = ground arith

pub check_timeouts-IsSound :
    (limit now : ℕ) (p : Proxy) → IsSound p → IsSound (check_timeouts limit now p)
unfolding check_timeouts
check_timeouts-IsSound limit now p h = timed_out-IsSound _ _ p (first_test _ _) (first_test _ _) h

put_rewrite_one :
    (b : Bool) (payload k : Bytes) (wires v : List Bytes) (rest later : List (Bytes × List Bytes))
    → 1 ≤ length wires
    → 1 ≤ length v
    → All HasWires rest
    → All HasWires later
    → All HasWires (if b then (k, wires) ∷ rest else (k, v) ∷ later)
put_rewrite_one true payload k wires v rest later new own h below = (new, h)
put_rewrite_one false payload k wires v rest later new own h below = (own, below)

put_rewrite-All :
    (payload : Bytes) (wires : List Bytes) (kept : List (Bytes × List Bytes))
    → 1 ≤ length wires
    → All HasWires kept
    → All HasWires (put_rewrite payload wires kept)
unfolding put_rewrite
put_rewrite-All payload wires [] new h = (new, tt)
put_rewrite-All payload wires ((k, v) ∷ rest) new (own, h) =
    put_rewrite_one (same_bytes k payload) payload k wires v rest _ new own h
      (put_rewrite-All payload wires rest new h)

pub snoc_not_nil :
    (ts : List StreamTranslator) (t : StreamTranslator)
    → ◌≡◌ {A = List StreamTranslator} (ts ++ t ∷ []) []
    → ⊥
snoc_not_nil [] t h = cc
snoc_not_nil (u ∷ ts) t h = cc

inject-IsSound :
    (now : ℕ) (original : Bytes) (serial : ℕ) (i : Injection) (p : Proxy)
    → 1 ≤ length i.wire_payloads
    → is_some p.arm_request ≡ true
    → IsSound p
    → IsSound (inject now original serial i p)
unfolding inject
inject-IsSound now original serial i p some_wires waits h = record {
  counted = length-append p.translators _ ∙ ap (λ n. n + 1) h.counted;
  rewrites = put_rewrite-All original i.wire_payloads p.carrier_rewrites some_wires h.rewrites;
  before_first = λ none_there. absurd (snoc_not_nil p.translators _ none_there);
  requested = λ late. waits;
  own_actor = h.own_actor;
  timed = h.timed;
  unanswered = h.unanswered;
  unlogged = h.unlogged;
  few = h.few;
}

-- What a turn sends and leaves.
abbrev pub sent_by : Turn → List Bytes
sent_by (to_end sent p) = sent
sent_by (continued sent p) = sent

abbrev pub left_by : Turn → Proxy
left_by (to_end sent p) = p
left_by (continued sent p) = p

is_some-eq : (o : Option SessionRequest) (q : SessionRequest) → o ≡ some q → is_some o ≡ true
is_some-eq o q h = rw h refl

pub turn-IsSound :
    (s : Settings) (now : ℕ) (original : Bytes) (dir : Direction) (p : Proxy) (t : Turn)
    → Effect s now original dir p t
    → IsSound p
    → IsSound (left_by t)
turn-IsSound s now original dir p _ (forwarded sent p' same first) h = Same-IsSound p p' same h
turn-IsSound s now original dir p _ (replayed wires p' same out kept) h = Same-IsSound p p' same h
turn-IsSound s now original dir p _
      (with_injection q serial i outgoing p' same out missed (idle, waits) made) h =
    let (fresh, at_carrier) = injection_for-IsFresh s q outgoing p' serial i made in
    inject-IsSound now original serial i p'
      (inject_at_packet_boundary-wires q.command (pos serial) s.max_payload outgoing i at_carrier)
      (is_some-eq p'.arm_request q (same.arm_request ∙ waits)) (Same-IsSound p p' same h)
turn-IsSound s now original dir p _ (answered r p' same back later waits) h =
    finished-IsSound confirmed p' (ap is_some same.arm_request ∙ waits) (Same-IsSound p p' same h)
