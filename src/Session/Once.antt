-- ===== src/Session/Once.antt =====
-- The insertions of a session: one for each armed request, with a serial above the last one.
use imperial_auto_governor.Common.{
  ℕ, ◌+◌, ◌<◌, ◌≡◌, refl, sym, ap, ◌∙◌, subst, Bool, true, false, Option, none, some, List, [], ◌∷◌,
  ◌++◌, ◌⊎◌, inl, inr, if◌then◌else◌,
}
use imperial_auto_governor.Flow.{Packet, Direction, outbound, packet_direction}
use imperial_auto_governor.Stream.{Bytes, StreamTranslator}
use imperial_auto_governor.Wire.{Outcome, fail, done}
use imperial_auto_governor.Wire.Boundary.{Injection}
use imperial_auto_governor.Session.{
  SessionRequest, Signature, ArmFile, Proxy, accepted, armed_or_rejected, read_arm_file,
  read_unarmed, read_file, confirmed, same_signature,
}
use imperial_auto_governor.Session.Effects.{
  Same, Effect, forwarded, replayed, with_injection, answered, turn-Effect,
}
use imperial_auto_governor.Session.Insertion.{IsFresh, injection_for-IsFresh}
use imperial_auto_governor.Session.Kept.{
  Untouched, nothing_touched, Untouched-trans, Same-Untouched, finish_request-Untouched,
  after_turn-Untouched, prepare-Untouched,
}
use imperial_auto_governor.Session.Packets.{
  Settings, Turn, continued, inject, injection_for, kept_rewrite, after_turn, prepare, turn, handle,
  handle_in,
}
use imperial_auto_governor.Session.Sound.{left_by}

-- A turn that inserts a request into the packet.
pub record Inserting (s : Settings) (now : ℕ) (original : Bytes) (dir : Direction) (p : Proxy)
    (t : Turn) : Type 0 where
  pub request : SessionRequest
  pub serial : ℕ
  pub injected : Injection
  pub outgoing : Bytes
  pub counted : Proxy
  pub same : Same p counted
  pub out : dir ≡ outbound
  pub missed : kept_rewrite original p ≡ none
  pub idle : p.injected_at ≡ none
  pub waits : p.arm_request ≡ some request
  pub made : injection_for s request outgoing counted ≡ done (serial, some injected)
  pub taken : t ≡ continued injected.wire_payloads (inject now original serial injected counted)

pub turn_cases :
    (s : Settings) (now : ℕ) (original : Bytes) (dir : Direction) (p : Proxy) (t : Turn)
    → Effect s now original dir p t
    → Untouched p (left_by t) ⊎ Inserting s now original dir p t
turn_cases s now original dir p _ (forwarded sent p' same first) = inl (Same-Untouched p p' same)
turn_cases s now original dir p _ (replayed wires p' same out kept) = inl (Same-Untouched p p' same)
turn_cases s now original dir p _
      (with_injection q serial i outgoing p' same out missed (idle, waits) made) =
    inr (record {
      request = q;
      serial = serial;
      injected = i;
      outgoing = outgoing;
      counted = p';
      same = same;
      out = out;
      missed = missed;
      idle = idle;
      waits = waits;
      made = made;
      taken = refl;
    })
turn_cases s now original dir p _ (answered r p' same back later waits) = inl (
    Untouched-trans p p' _ (Same-Untouched p p' same)
      (finish_request-Untouched confirmed p' true p'.timeout_logged))

-- Reading the arm file leaves the time of an insertion, and a request that is armed.
armed_or_rejected-injected_at :
    (now : ℕ) (signature : Signature) (parsed : Outcome SessionRequest) (p : Proxy)
    → (armed_or_rejected now signature parsed p).injected_at ≡ p.injected_at
unfolding armed_or_rejected
armed_or_rejected-injected_at now signature (fail f) p = refl
armed_or_rejected-injected_at now signature (done q) p = refl

chosen-injected_at :
    (b : Bool) (p p' : Proxy)
    → p'.injected_at ≡ p.injected_at
    → (if b then p else p').injected_at ≡ p.injected_at
chosen-injected_at true p p' h = refl
chosen-injected_at false p p' h = h

read_file-injected_at :
    (now : ℕ) (found : Option ArmFile) (p : Proxy)
    → (read_file now found p).injected_at ≡ p.injected_at
unfolding read_file
read_file-injected_at now none p = refl
read_file-injected_at now (some file) p =
    chosen-injected_at (same_signature file.signature p.arm_error) p _
      (armed_or_rejected-injected_at now file.signature (accepted file.parsed p) p)

read_unarmed-injected_at :
    (now : ℕ) (waiting : Option SessionRequest) (p : Proxy)
    → (read_unarmed now waiting p).injected_at ≡ p.injected_at
unfolding read_unarmed
read_unarmed-injected_at now (some q) p = refl
read_unarmed-injected_at now none p = read_file-injected_at now p.arm_file p

prepare-injected_at :
    (now : ℕ) (original : Bytes) (dir : Direction) (p : Proxy)
    → (prepare now original dir p).injected_at ≡ p.injected_at
unfolding prepare read_arm_file
prepare-injected_at now original dir p =
    read_unarmed-injected_at now p.arm_request (record p { last_serials = _ })

-- What an insertion changes from one state to the next.
pub record Inserted (now : ℕ) (p p' : Proxy) : Type 0 where
  pub request : SessionRequest
  pub idle : p.injected_at ≡ none
  pub waits : p'.arm_request ≡ some request
  pub injected : p'.injected_at ≡ some now
  pub translator : StreamTranslator
  pub translators : p'.translators ≡ p.translators ++ translator ∷ []
  pub counted : p'.synthetic_count ≡ p.synthetic_count + 1
  pub reported : p'.injected_serial ≡ some p'.last_synthetic
  pub fresh : IsFresh request (record p { last_serials = p'.last_serials }) p'.last_synthetic

inject-Inserted :
    (s : Settings) (now : ℕ) (original outgoing : Bytes) (q : SessionRequest) (serial : ℕ)
    (i : Injection) (p counted : Proxy)
    → Untouched p counted
    → p.injected_at ≡ none
    → counted.arm_request ≡ some q
    → injection_for s q outgoing counted ≡ done (serial, some i)
    → Inserted now p (inject now original serial i counted)
unfolding inject
inject-Inserted s now original outgoing q serial i p counted u idle waits made =
    let (fresh, at_carrier) = injection_for-IsFresh s q outgoing counted serial i made in
    let above = fresh.above_last in
    let seen = fresh.above_held in
    record {
      request = q;
      idle = idle;
      waits = waits;
      injected = refl;
      translator = record {
        injection_offset = i.injection_offset;
        inserted_length = i.inserted_length;
      };
      translators =
          ap
            (λ (ts : List StreamTranslator).
              ts
              ++ record {
                injection_offset = i.injection_offset;
                inserted_length = i.inserted_length;
              }
                ∷ [])
            u.translators;
      counted = ap (λ n. n + 1) u.synthetic_count;
      reported = refl;
      fresh = record {
        above_floor = fresh.above_floor;
        above_last = subst (λ n. n < serial) u.last_synthetic above;
        fits = fresh.fits;
        above_held = λ t m there out own.
            subst (λ n. m + n < serial) u.synthetic_count (seen t m there out own);
      };
    }

Inserting-Inserted :
    (s : Settings) (now : ℕ) (original : Bytes) (dir : Direction) (p : Proxy) (t : Turn)
    → Inserting s now original dir (prepare now original dir p) t
    → Inserted now p (left_by t)
Inserting-Inserted s now original dir p t it =
    subst (λ (t : Turn). Inserted now p (left_by t)) (sym it.taken)
      (inject-Inserted s now original it.outgoing it.request it.serial it.injected p it.counted
        (Untouched-trans p (prepare now original dir p) it.counted
          (prepare-Untouched now original dir p)
          (Same-Untouched (prepare now original dir p) it.counted it.same))
        (sym (prepare-injected_at now original dir p) ∙ it.idle) (it.same.arm_request ∙ it.waits)
        it.made)

pub after_continued :
    (s : Settings) (now : ℕ) (original : Bytes) (dir : Direction) (p : Proxy) (t : Turn) (limit : ℕ)
    → Inserting s now original dir p t
    → (after_turn limit now t).1 ≡ left_by t
unfolding after_turn
after_continued s now original dir p t limit it =
    subst (λ (t : Turn). (after_turn limit now t).1 ≡ left_by t) (sym it.taken) refl

handle_in-once :
    (s : Settings) (now : ℕ) (original : Bytes) (dir : Option Direction) (p : Proxy)
    → Untouched p (handle_in s now original dir p).1
      ⊎ Inserted now p (handle_in s now original dir p).1
unfolding handle_in
handle_in-once s now original none p = inl (nothing_touched p)
handle_in-once s now original (some dir) p =
    let before = prepare now original dir p in
    let t = turn s now original dir before in
    let limit = s.response_timeout_seconds in
    elim (turn_cases s now original dir before t (turn-Effect s now original dir before)) [
      | inl kept ↦ inl (
          Untouched-trans p before _ (prepare-Untouched now original dir p)
            (Untouched-trans before (left_by t) _ kept (after_turn-Untouched limit now t)))
      | inr it ↦ inr (
          subst (λ p'. Inserted now p p')
            (sym (after_continued s now original dir before t limit it))
            (Inserting-Inserted s now original dir p t it))
    ]

-- A packet either leaves the translators, the rewrites, the number of insertions and the last inserted
-- serial as they were, or it carries one insertion. That happens only while no insertion waits for its
-- response, and for a request that stays armed: one translator is added, the insertions are one more, and
-- the serial is above the request's floor and above the last inserted one, it fits into 32 bits, and it is
-- above each outbound serial of the actor that `last_serials` holds, which is the last one seen of each
-- origin, by more than the number of earlier insertions.
pub handle-once :
    (s : Settings) (now : ℕ) (packet : Packet) (original : Bytes) (p : Proxy)
    → Untouched p (handle s now packet original p).1
      ⊎ Inserted now p (handle s now packet original p).1
unfolding handle
handle-once s now packet original p =
    handle_in-once s now original (packet_direction s.flow packet) p
