-- ===== src/Session/Effects.antt =====
-- The ways in which the loop of `run` treats a packet of the flow.
use imperial_auto_governor.Common.{
  ℕ, ◌+◌, ◌≡◌, ◌≢◌, refl, sym, ap, ◌∙◌, subst, Bool, true, false, Option, none, some, List, [], ◌∷◌,
  if◌then◌else◌, arith, Option-cases, ◌⊎◌, inl, inr,
}
use imperial_auto_governor.Flow.{Direction, outbound, inbound}
use imperial_auto_governor.Stream.{Bytes, StreamTranslator}
use imperial_auto_governor.Wire.{Outcome, fail, done, >>=-eq-done}
use imperial_auto_governor.Wire.Boundary.{Injection}
use imperial_auto_governor.Wire.Responses.{Response, retag_matching_response}
use imperial_auto_governor.Session.{SessionRequest, Proxy, finish_request, confirmed}
use imperial_auto_governor.Session.Packets.{
  Settings, Turn, to_end, continued, is_some, count_outbound, translate_sent, inject,
  waiting_request, injection_for, sent_or_injected, carry, kept_rewrite, send_outbound,
  send_or_replay, send_translated, answer_counted, note_acknowledged, unanswered_request,
  sent_or_confirmed, answer, count_inbound, send_inbound, turn, translate_stream, translate_back,
  last_offset, actor_or_zero,
}

-- What the steps keep that touch neither the insertions nor the requests.
pub record Same (p p' : Proxy) : Type 0 where
  pub translators : p'.translators ≡ p.translators
  pub synthetic_count : p'.synthetic_count ≡ p.synthetic_count
  pub carrier_rewrites : p'.carrier_rewrites ≡ p.carrier_rewrites
  pub injected_at : p'.injected_at ≡ p.injected_at
  pub arm_request : p'.arm_request ≡ p.arm_request
  pub proxy_actor : p'.proxy_actor ≡ p.proxy_actor
  pub armed_at : p'.armed_at ≡ p.armed_at
  pub response_retagged : p'.response_retagged ≡ p.response_retagged
  pub timeout_logged : p'.timeout_logged ≡ p.timeout_logged
  pub completed : p'.completed ≡ p.completed
  pub last_serials : p'.last_serials ≡ p.last_serials
  pub last_synthetic : p'.last_synthetic ≡ p.last_synthetic

-- One packet of the flow, in a state: it is sent on with one datagram, unchanged as long as nothing is
-- inserted; or the rewrite of its carrier is sent again; or a request is inserted at it; or it is the
-- response to a request.
pub data Effect (s : Settings) (now : ℕ) (original : Bytes) (dir : Direction) (p : Proxy)
    : Turn → Type 0 where
  forwarded :
      (sent : Bytes) (p' : Proxy)
      → Same p p'
      → (p.translators ≡ [] → sent ≡ original)
      → Effect s now original dir p (to_end (sent ∷ []) p')
  replayed :
      (wires : List Bytes) (p' : Proxy)
      → Same p p'
      → dir ≡ outbound
      → kept_rewrite original p ≡ some wires
      → Effect s now original dir p (continued wires p')
  with_injection :
      (q : SessionRequest) (serial : ℕ) (i : Injection) (outgoing : Bytes) (p' : Proxy)
      → Same p p'
      → dir ≡ outbound
      → kept_rewrite original p ≡ none
      → (p.injected_at ≡ none) × (p.arm_request ≡ some q)
      → injection_for s q outgoing p' ≡ done (serial, some i)
      → Effect s now original dir p (continued i.wire_payloads (inject now original serial i p'))
  answered :
      (r : Response) (p' : Proxy)
      → Same p p'
      → dir ≡ inbound
      → p.translators ≢ []
      → is_some p.arm_request ≡ true
      → Effect s now original dir p (
          to_end
            (r.payload ∷ [])
            (finish_request confirmed (record p' { response_retagged = true })))

-- The counters may change, and whether the insertion is acknowledged.
counters-Same :
    (p : Proxy) (sent acknowledged moved again : ℕ) (known : Bool)
    → Same p (record p {
      sender_packets = sent;
      ack_packets = acknowledged;
      moved_serials = moved;
      retransmissions = again;
      host_acknowledged = known;
    })
counters-Same p sent acknowledged moved again known = record {
  translators = refl;
  synthetic_count = refl;
  carrier_rewrites = refl;
  injected_at = refl;
  arm_request = refl;
  proxy_actor = refl;
  armed_at = refl;
  response_retagged = refl;
  timeout_logged = refl;
  completed = refl;
  last_serials = refl;
  last_synthetic = refl;
}

unchanged : (p : Proxy) → Same p p
unchanged p =
    counters-Same p p.sender_packets p.ack_packets p.moved_serials p.retransmissions
      p.host_acknowledged

counted-Same :
    (p : Proxy) (sent moved : ℕ)
    → Same p (record p { sender_packets = sent; moved_serials = moved })
counted-Same p sent moved =
    counters-Same p sent p.ack_packets moved p.retransmissions p.host_acknowledged

inbound-Same :
    (p : Proxy) (n : ℕ) (known : Bool)
    → Same p (record p { ack_packets = n; host_acknowledged = known })
inbound-Same p n known = counters-Same p p.sender_packets n p.moved_serials p.retransmissions known

noted-Same :
    (known : Bool) (p : Proxy) (n : ℕ)
    → Same p (
        if known
        then record p { ack_packets = n; host_acknowledged = true }
        else record p { ack_packets = n })
noted-Same true p n = inbound-Same p n true
noted-Same false p n = inbound-Same p n p.host_acknowledged

count_inbound-Same :
    (offset : ℕ) (original outgoing : Bytes) (p : Proxy)
    → Same p (count_inbound offset original outgoing p)
unfolding count_inbound note_acknowledged
count_inbound-Same offset original outgoing p = noted-Same _ p _

done_same {ℓ} : {A : Type ℓ} (a b : A) → ◌≡◌ {A = Outcome A} (done a) (done b) → a ≡ b
done_same a b h = cc

pub List-cases {ℓ} :
    {A : Type ℓ} (xs : List A) → (xs ≡ []) ⊎ ((x : A) × ((rest : List A) × (xs ≡ x ∷ rest)))
List-cases [] = inl refl
List-cases (x ∷ rest) = inr (x, (rest, refl))

-- What a translation that returns keeps; without translators it is the packet.
translate_sent-Same :
    (ts : List StreamTranslator) (original outgoing : Bytes) (p p' : Proxy)
    → translate_sent ts original p ≡ done (outgoing, p')
    → Same p p' × (ts ≡ [] → outgoing ≡ original)
unfolding translate_sent count_outbound
translate_sent-Same [] original outgoing p p' h =
    subst
      (λ (r : Bytes × Proxy). Same p r.1 × (◌≡◌ {A = List StreamTranslator} [] [] → r.0 ≡ original))
      (done_same _ _ h) (unchanged p, λ none_there. refl)
translate_sent-Same (t ∷ ts) original outgoing p p' h =
    let (moved, translated, last) =
      >>=-eq-done
        (translate_stream (t ∷ ts) (actor_or_zero p.proxy_actor) p.synthetic_count original) _ h in
    subst (λ (r : Bytes × Proxy). Same p r.1 × (t ∷ ts ≡ [] → r.0 ≡ original)) (done_same _ _ last)
      (counted-Same p _ _, λ none_there. absurd cc)

waiting_request-eq :
    (p : Proxy) (q : SessionRequest)
    → waiting_request p ≡ some q
    → (p.injected_at ≡ none) × (p.arm_request ≡ some q)
unfolding waiting_request
waiting_request-eq p q h = elim (Option-cases p.injected_at) [
  | inl e ↦ (e, ground arith)
  | inr (t, e) ↦ absurd (ground arith)
]

carry-Effect :
    (s : Settings) (now : ℕ) (original outgoing : Bytes) (p p' : Proxy)
    (waiting : Option SessionRequest)
    → Same p p'
    → (p.translators ≡ [] → outgoing ≡ original)
    → kept_rewrite original p ≡ none
    → waiting_request p' ≡ waiting
    → Effect s now original outbound p (carry s now original outgoing p' waiting)
unfolding carry
carry-Effect s now original outgoing p p' none same first missed w =
    forwarded outgoing p' same first
carry-Effect s now original outgoing p p' (some q) same first missed w =
    made (injection_for s q outgoing p') refl
  where
    made :
        (o : Outcome (ℕ × Option Injection))
        → injection_for s q outgoing p' ≡ o
        → Effect s now original outbound p (sent_or_injected now original outgoing p' o)
    made (fail f) e = forwarded original p' same (λ none_there. refl)
    made (done (serial, none)) e = forwarded outgoing p' same first
    made (done (serial, some i)) e =
        let (idle, armed) = waiting_request-eq p' q w in
        with_injection q serial i outgoing p' same refl missed
          (sym same.injected_at ∙ idle, sym same.arm_request ∙ armed) e

send_or_replay-Effect :
    (s : Settings) (now : ℕ) (original : Bytes) (p : Proxy) (kept : Option (List Bytes))
    → kept_rewrite original p ≡ kept
    → Effect s now original outbound p (send_or_replay s now original p kept)
unfolding send_or_replay
send_or_replay-Effect s now original p (some wires) e =
    replayed wires _
      (counters-Same p p.sender_packets p.ack_packets p.moved_serials (p.retransmissions + 1)
        p.host_acknowledged)
      refl e
send_or_replay-Effect s now original p none e = moved (translate_sent p.translators original p) refl
  where
    moved :
        (o : Outcome (Bytes × Proxy))
        → translate_sent p.translators original p ≡ o
        → Effect s now original outbound p (send_translated s now original p o)
    moved (fail f) h = forwarded original p (unchanged p) (λ none_there. refl)
    moved (done (outgoing, p')) h =
        let (same, first) = translate_sent-Same p.translators original outgoing p p' h in
        carry-Effect s now original outgoing p p' (waiting_request p') same first e refl

unanswered_request-eq :
    (p : Proxy) (q : SessionRequest) → unanswered_request p ≡ some q → is_some p.arm_request ≡ true
unfolding unanswered_request
unanswered_request-eq p q h = elim (Option-cases p.arm_request) [
  | inl e ↦ absurd (ground arith)
  | inr (r, e) ↦ rw e refl
]

answer-Effect :
    (s : Settings) (now : ℕ) (original outgoing : Bytes) (p p' : Proxy)
    (unanswered : Option SessionRequest)
    → Same p p'
    → p.translators ≢ []
    → unanswered_request p' ≡ unanswered
    → Effect s now original inbound p (answer original outgoing p' unanswered)
unfolding answer
answer-Effect s now original outgoing p p' none same later e =
    forwarded outgoing p' same (λ none_there. absurd (later none_there))
answer-Effect s now original outgoing p p' (some q) same later e =
    found (retag_matching_response q.command q.host_actor outgoing)
  where
    found :
        (o : Outcome (Option Response))
        → Effect s now original inbound p (sent_or_confirmed original outgoing p' o)
    found (fail f) = forwarded original p' same (λ none_there. refl)
    found (done none) = forwarded outgoing p' same (λ none_there. absurd (later none_there))
    found (done (some r)) =
        answered r p' same refl later
          (ap is_some (sym same.arm_request) ∙ unanswered_request-eq p' q e)

send_inbound-Effect :
    (s : Settings) (now : ℕ) (original : Bytes) (p : Proxy) (ts : List StreamTranslator)
    → p.translators ≡ ts
    → Effect s now original inbound p (send_inbound ts original p)
unfolding send_inbound answer_counted
send_inbound-Effect s now original p [] e = forwarded original p (unchanged p) (λ none_there. refl)
send_inbound-Effect s now original p (t ∷ ts) e =
    let outgoing = translate_back (t ∷ ts) original in
    answer-Effect s now original outgoing p (count_inbound (last_offset t ts) original outgoing p) _
      (count_inbound-Same (last_offset t ts) original outgoing p) (λ none_there. cc) refl

pub turn-Effect :
    (s : Settings) (now : ℕ) (original : Bytes) (dir : Direction) (p : Proxy)
    → Effect s now original dir p (turn s now original dir p)
unfolding turn send_outbound
turn-Effect s now original outbound p =
    send_or_replay-Effect s now original p (kept_rewrite original p) refl
turn-Effect s now original inbound p = send_inbound-Effect s now original p p.translators refl
