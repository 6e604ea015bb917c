-- ===== src/Session/Sends.antt =====
-- What the loop of `run` sends: every packet, and the rewrite of a carrier whenever the carrier comes again.
use imperial_auto_governor.Common.{
  ◌⊎◌, ℕ, ◌≤◌, ◌≡◌, ◌≢◌, refl, sym, ap, ◌∙◌, subst, Bool, true, false, Option, none, some, List, [],
  ◌∷◌, arith, All, length, Bool-cases, inl, inr,
}
use imperial_auto_governor.Common.Int.{pos}
use imperial_auto_governor.Flow.{Packet, Direction, packet_direction}
use imperial_auto_governor.Stream.{Bytes, same_bytes}
use imperial_auto_governor.Wire.Boundary.{Injection}
use imperial_auto_governor.Session.{Proxy, started, confirmed}
use imperial_auto_governor.Session.Effects.{
  Effect, forwarded, replayed, with_injection, answered, turn-Effect, List-cases,
}
use imperial_auto_governor.Session.Insertion.{
  inject_at_packet_boundary-wires, injection_for-IsFresh,
}
use imperial_auto_governor.Session.Kept.{
  finish_request-Untouched, after_turn-Untouched, sent-after_turn,
}
use imperial_auto_governor.Session.Packets.{
  Settings, Turn, Event, find_rewrite, is_nil, inject, kept_rewrite, prepare, turn, handle,
  handle_in, run,
}
use imperial_auto_governor.Session.Reached.{run-IsSound, prepare-IsSound}
use imperial_auto_governor.Session.Sound.{
  IsSound, HasWires, sent_by, left_by, snoc_not_nil, started-IsSound,
}

find_rewrite-All :
    (original : Bytes) (kept : List (Bytes × List Bytes)) (wires : List Bytes)
    → All HasWires kept
    → find_rewrite original kept ≡ some wires
    → 1 ≤ length wires
unfolding find_rewrite
find_rewrite-All original [] wires h found = cc
find_rewrite-All original ((k, v) ∷ rest) wires (own, h) found =
    elim (Bool-cases (same_bytes k original)) [
      | inl e ↦ let same : v ≡ wires = ground arith in subst (λ ws. 1 ≤ length ws) same own
      | inr e ↦ find_rewrite-All original rest wires h (ground arith)
    ]

kept_rewrite-found :
    (original : Bytes) (p : Proxy) (wires : List Bytes)
    → kept_rewrite original p ≡ some wires
    → (is_nil p.translators ≡ false) × (find_rewrite original p.carrier_rewrites ≡ some wires)
unfolding kept_rewrite
kept_rewrite-found original p wires h = elim (Bool-cases (is_nil p.translators)) [
  | inl e ↦ absurd (ground arith)
  | inr e ↦ (e, ground arith)
]

not_both : ◌≡◌ {A = Bool} false true → ⊥
not_both h = cc

injected_not_nil :
    (now : ℕ) (original : Bytes) (serial : ℕ) (i : Injection) (p : Proxy)
    → (inject now original serial i p).translators ≢ []
unfolding inject
injected_not_nil now original serial i p = snoc_not_nil p.translators _

-- What a turn sends: at least one datagram, and the packet itself if nothing is inserted when it ends.
record Sends (original : Bytes) (t : Turn) : Type 0 where
  something : 1 ≤ length (sent_by t)
  itself : (left_by t).translators ≡ [] → sent_by t ≡ original ∷ []

turn-Sends :
    (s : Settings) (now : ℕ) (original : Bytes) (dir : Direction) (p : Proxy) (t : Turn)
    → IsSound p
    → Effect s now original dir p t
    → Sends original t
turn-Sends s now original dir p _ h (forwarded sent p' same first) = record {
  something = ground arith;
  itself = λ none_there. ap (λ (b : Bytes). b ∷ []) (first (sym same.translators ∙ none_there));
}
turn-Sends s now original dir p _ h (replayed wires p' same out kept) =
    let (there, found) = kept_rewrite-found original p wires kept in
    record {
      something = find_rewrite-All original p.carrier_rewrites wires h.rewrites found;
      itself = λ none_there.
          absurd (not_both (sym there ∙ ap is_nil (sym same.translators ∙ none_there)));
    }
turn-Sends s now original dir p _ h
      (with_injection q serial i outgoing p' same out missed waits made) =
    let (fresh, at_carrier) = injection_for-IsFresh s q outgoing p' serial i made in
    record {
      something =
          inject_at_packet_boundary-wires q.command (pos serial) s.max_payload outgoing i
            at_carrier;
      itself = λ none_there. absurd (injected_not_nil now original serial i p' none_there);
    }
turn-Sends s now original dir p _ h (answered r p' same back later waits) =
    let u = finish_request-Untouched confirmed p' true p'.timeout_logged in
    record {
      something = ground arith;
      itself =
          λ none_there. absurd (later (sym same.translators ∙ (sym u.translators ∙ none_there)));
    }

handle_in-Sends :
    (s : Settings) (now : ℕ) (original : Bytes) (dir : Option Direction) (p : Proxy)
    → IsSound p
    → (1 ≤ length (handle_in s now original dir p).0)
      × ((handle_in s now original dir p).1.translators ≡ []
          → (handle_in s now original dir p).0 ≡ original ∷ [])
unfolding handle_in
handle_in-Sends s now original none p h = (ground arith, λ none_there. refl)
handle_in-Sends s now original (some dir) p h =
    let before = prepare now original dir p in
    let t = turn s now original dir before in
    let limit = s.response_timeout_seconds in
    let it =
      turn-Sends s now original dir before t (prepare-IsSound now original dir p h)
        (turn-Effect s now original dir before) in
    let sends = sent-after_turn limit now t in
    (
      subst (λ bs. 1 ≤ length bs) (sym sends) it.something,
      λ none_there.
          sends ∙ it.itself (sym (after_turn-Untouched limit now t).translators ∙ none_there),
    )

pub record IsSentOn (original : Bytes) (result : List Bytes × Proxy) : Type 0 where
  pub something : 1 ≤ length result.0
  pub itself : (result.1.translators ≢ []) ⊎ (result.0 ≡ original ∷ [])

sent_on :
    (original : Bytes) (result : List Bytes × Proxy)
    → 1 ≤ length result.0
    → (result.1.translators ≡ [] → result.0 ≡ original ∷ [])
    → IsSentOn original result
sent_on original result something itself = elim (List-cases result.1.translators) [
  | inl e ↦ record { something = something; itself = inr (itself e) }
  | inr (t, (ts, e)) ↦ record { something = something; itself = inl (λ none_there. absurd cc) }
]

-- In every state that the loop reaches from its start, whatever packets and arm files come, a packet leads
-- to at least one datagram that is sent: none is lost, errors included. If no command is inserted when the
-- packet has been handled, then what is sent is the packet itself.
pub handle-sends :
    (s : Settings) (es : List Event) (now : ℕ) (packet : Packet) (original : Bytes)
    → IsSentOn original (handle s now packet original (run s es started))
unfolding handle
handle-sends s es now packet original =
    let (something, itself) =
      handle_in-Sends s now original (packet_direction s.flow packet) (run s es started)
        (run-IsSound s es started started-IsSound) in
    sent_on original _ something itself
