-- ===== src/Session/Replays.antt =====
-- A carrier that comes again gets the rewrite that it got at first.
use imperial_auto_governor.Common.{
  ℕ, ◌+◌, ◌<◌, ◌≡◌, refl, sym, ap, ◌∙◌, subst, Option, none, some, List, [], ◌∷◌, arith, length,
  inl, inr,
}
use imperial_auto_governor.Flow.{Packet, Direction, outbound, packet_direction}
use imperial_auto_governor.Stream.{Bytes}
use imperial_auto_governor.Session.{Proxy}
use imperial_auto_governor.Session.Effects.{turn-Effect}
use imperial_auto_governor.Session.Kept.{
  Untouched, Untouched-trans, Same-Untouched, after_turn-Untouched, sent-after_turn,
  prepare-Untouched,
}
use imperial_auto_governor.Session.Once.{Inserting, turn_cases}
use imperial_auto_governor.Session.Packets.{
  Settings, Turn, Event, packet_seen, file_written, kept_rewrite, send_outbound, send_or_replay,
  after_turn, prepare, turn, handle, handle_in, step, run,
}
use imperial_auto_governor.Session.Rewrites.{
  kept-inject, kept-Untouched, different, kept-inject_other,
}
use imperial_auto_governor.Session.Sound.{sent_by, left_by}

Inserting-keeps :
    (s : Settings) (now : ℕ) (other payload : Bytes) (dir : Direction) (p : Proxy) (t : Turn)
    (wires : List Bytes)
    → Inserting s now other dir p t
    → kept_rewrite payload p ≡ some wires
    → kept_rewrite payload (left_by t) ≡ some wires
Inserting-keeps s now other payload dir p t wires it found =
    let u = Same-Untouched p it.counted it.same in
    subst (λ (t : Turn). kept_rewrite payload (left_by t) ≡ some wires) (sym it.taken)
      (kept-inject_other now other payload it.serial it.injected it.counted wires
        (different other payload p wires it.missed found)
        (kept-Untouched payload p it.counted u ∙ found))

handle_in-keeps :
    (s : Settings) (now : ℕ) (other payload : Bytes) (dir : Option Direction) (p : Proxy)
    (wires : List Bytes)
    → kept_rewrite payload p ≡ some wires
    → kept_rewrite payload (handle_in s now other dir p).1 ≡ some wires
unfolding handle_in
handle_in-keeps s now other payload none p wires found = found
handle_in-keeps s now other payload (some dir) p wires found =
    let before = prepare now other dir p in
    let t = turn s now other dir before in
    let limit = s.response_timeout_seconds in
    let prepared = kept-Untouched payload p before (prepare-Untouched now other dir p) ∙ found in
    kept-Untouched payload (left_by t) _ (after_turn-Untouched limit now t)
    ∙ elim (turn_cases s now other dir before t (turn-Effect s now other dir before)) [
      | inl u ↦ kept-Untouched payload before (left_by t) u ∙ prepared
      | inr it ↦ Inserting-keeps s now other payload dir before t wires it prepared
    ]

step-keeps :
    (s : Settings) (e : Event) (payload : Bytes) (p : Proxy) (wires : List Bytes)
    → kept_rewrite payload p ≡ some wires
    → kept_rewrite payload (step s e p).1 ≡ some wires
unfolding step handle kept_rewrite
step-keeps s (packet_seen now packet other) payload p wires found =
    handle_in-keeps s now other payload (packet_direction s.flow packet) p wires found
step-keeps s (file_written file) payload p wires found = found

run-keeps :
    (s : Settings) (es : List Event) (payload : Bytes) (p : Proxy) (wires : List Bytes)
    → kept_rewrite payload p ≡ some wires
    → kept_rewrite payload (run s es p) ≡ some wires
unfolding run
run-keeps s [] payload p wires found = found
run-keeps s (e ∷ es) payload p wires found =
    run-keeps s es payload (step s e p).1 wires (step-keeps s e payload p wires found)

retransmitted-Untouched :
    (p : Proxy) → Untouched p (record p { retransmissions = p.retransmissions + 1 })
retransmitted-Untouched p = record {
  translators = refl;
  carrier_rewrites = refl;
  synthetic_count = refl;
  last_synthetic = refl;
}

-- A packet that is sent again: the rewrite, and no insertion.
pub record IsReplay (s : Settings) (now : ℕ) (packet : Packet) (payload : Bytes)
    (wires : List Bytes) (p : Proxy) : Type 0 where
  pub sends : (handle s now packet payload p).0 ≡ wires
  pub touches_nothing : Untouched p (handle s now packet payload p).1

-- An outbound packet that has a rewrite.
replay :
    (s : Settings) (now : ℕ) (packet : Packet) (payload : Bytes) (p : Proxy) (wires : List Bytes)
    → packet_direction s.flow packet ≡ some outbound
    → kept_rewrite payload p ≡ some wires
    → IsReplay s now packet payload wires p
unfolding handle handle_in turn send_outbound send_or_replay after_turn
replay s now packet payload p wires out found =
    let before = prepare now payload outbound p in
    let u = prepare-Untouched now payload outbound p in
    let prepared = kept-Untouched payload p before u ∙ found in
    record {
      sends = rw (out, prepared) refl;
      touches_nothing =
          rw (out, prepared) (Untouched-trans p before _ u (retransmitted-Untouched before));
    }

-- The rewrite that a turn leaves, if the turn adds a translator.
turn-kept :
    (s : Settings) (now : ℕ) (payload : Bytes) (dir : Direction) (p : Proxy) (t : Turn)
    → Inserting s now payload dir p t
    → (dir ≡ outbound) × (kept_rewrite payload (left_by t) ≡ some (sent_by t))
turn-kept s now payload dir p t it = (
  it.out,
  subst (λ (t : Turn). kept_rewrite payload (left_by t) ≡ some (sent_by t)) (sym it.taken)
      (kept-inject now payload it.serial it.injected it.counted),
)

no_more : (p p' : Proxy) → Untouched p p' → length p.translators < length p'.translators → ⊥
no_more p p' u more = let same = ap length u.translators in omega arith

handle_in-kept :
    (s : Settings) (now : ℕ) (payload : Bytes) (dir : Option Direction) (p : Proxy)
    → length p.translators < length (handle_in s now payload dir p).1.translators
    → (dir ≡ some outbound)
      × (kept_rewrite payload (handle_in s now payload dir p).1
          ≡ some (handle_in s now payload dir p).0)
unfolding handle_in
handle_in-kept s now payload none p more = absurd (omega arith)
handle_in-kept s now payload (some dir) p more =
    let before = prepare now payload dir p in
    let t = turn s now payload dir before in
    let limit = s.response_timeout_seconds in
    let last = after_turn-Untouched limit now t in
    elim (turn_cases s now payload dir before t (turn-Effect s now payload dir before)) [
      | inl u ↦ absurd (
          no_more p _
            (Untouched-trans p before _ (prepare-Untouched now payload dir p)
              (Untouched-trans before (left_by t) _ u last))
            more)
      | inr it ↦
          let (out, kept) = turn-kept s now payload dir before t it in
          (
            ap (λ (d : Direction). some d) out,
            kept-Untouched payload (left_by t) _ last
                ∙ (kept ∙ ap (λ (w : List Bytes). some w) (sym (sent-after_turn limit now t))),
          )
    ]

-- If handling a packet adds a translator, that is, if a command is inserted at it, then whatever packets
-- and arm files come next, and at any later time, the same packet leads to the same datagrams, and nothing
-- is inserted at it again, not even for another armed request.
pub handle-replays :
    (s : Settings) (now later : ℕ) (packet : Packet) (payload : Bytes) (p : Proxy) (es : List Event)
    → length p.translators < length (handle s now packet payload p).1.translators
    → IsReplay s later packet payload
        (handle s now packet payload p).0
        (run s es (handle s now packet payload p).1)
unfolding handle
handle-replays s now later packet payload p es more =
    let (out, kept) = handle_in-kept s now payload (packet_direction s.flow packet) p more in
    replay s later packet payload _ _ out (run-keeps s es payload _ _ kept)
