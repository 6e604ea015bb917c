-- ===== src/Session/Kept.antt =====
-- What the loop of `run` sends: every packet, and the rewrite of a carrier whenever the carrier comes again.
use imperial_auto_governor.Common.{
  ℕ, ◌≡◌, refl, ◌∙◌, Bool, true, false, Option, none, some, if◌then◌else◌,
}
use imperial_auto_governor.Flow.{Direction}
use imperial_auto_governor.Stream.{Bytes}
use imperial_auto_governor.Wire.{Outcome, fail, done}
use imperial_auto_governor.Session.{
  SessionRequest, Signature, ArmFile, Ending, Proxy, finish_with, finish_request, accepted,
  armed_or_rejected, read_arm_file, read_unarmed, read_file, carrier_timeout, response_timeout,
  same_signature,
}
use imperial_auto_governor.Session.Effects.{Same}
use imperial_auto_governor.Session.Packets.{
  Turn, to_end, continued, check_timeouts, after_turn, prepare,
}
use imperial_auto_governor.Session.Sound.{sent_by, left_by}

-- The parts of the state that only an insertion changes.
pub record Untouched (p p' : Proxy) : Type 0 where
  pub translators : p'.translators ≡ p.translators
  pub carrier_rewrites : p'.carrier_rewrites ≡ p.carrier_rewrites
  pub synthetic_count : p'.synthetic_count ≡ p.synthetic_count
  pub last_synthetic : p'.last_synthetic ≡ p.last_synthetic

pub nothing_touched : (p : Proxy) → Untouched p p
nothing_touched p = record {
  translators = refl;
  carrier_rewrites = refl;
  synthetic_count = refl;
  last_synthetic = refl;
}

pub Untouched-trans : (p q r : Proxy) → Untouched p q → Untouched q r → Untouched p r
Untouched-trans p q r h k = record {
  translators = k.translators ∙ h.translators;
  carrier_rewrites = k.carrier_rewrites ∙ h.carrier_rewrites;
  synthetic_count = k.synthetic_count ∙ h.synthetic_count;
  last_synthetic = k.last_synthetic ∙ h.last_synthetic;
}

pub Same-Untouched : (p p' : Proxy) → Same p p' → Untouched p p'
Same-Untouched p p' e = record {
  translators = e.translators;
  carrier_rewrites = e.carrier_rewrites;
  synthetic_count = e.synthetic_count;
  last_synthetic = e.last_synthetic;
}

finish-Untouched :
    (ending : Ending) (waiting : Option SessionRequest) (p : Proxy) (retagged logged : Bool)
    → Untouched p (
        finish_with ending waiting
          (record p { response_retagged = retagged; timeout_logged = logged }))
unfolding finish_with
finish-Untouched ending none p retagged logged = record {
  translators = refl;
  carrier_rewrites = refl;
  synthetic_count = refl;
  last_synthetic = refl;
}
finish-Untouched ending (some q) p retagged logged = record {
  translators = refl;
  carrier_rewrites = refl;
  synthetic_count = refl;
  last_synthetic = refl;
}

pub finish_request-Untouched :
    (ending : Ending) (p : Proxy) (retagged logged : Bool)
    → Untouched p
        (finish_request ending (record p { response_retagged = retagged; timeout_logged = logged }))
unfolding finish_request
finish_request-Untouched ending p retagged logged =
    finish-Untouched ending p.arm_request p retagged logged

timed_out-Untouched :
    (first second : Bool) (p : Proxy)
    → Untouched p (
        if first
        then finish_request carrier_timeout p
        else if second
        then finish_request response_timeout (record p { timeout_logged = true })
        else p)
timed_out-Untouched true second p =
    finish_request-Untouched carrier_timeout p p.response_retagged p.timeout_logged
timed_out-Untouched false true p =
    finish_request-Untouched response_timeout p p.response_retagged true
timed_out-Untouched false false p = nothing_touched p

pub after_turn-Untouched :
    (limit now : ℕ) (t : Turn) → Untouched (left_by t) (after_turn limit now t).1
unfolding after_turn check_timeouts
after_turn-Untouched limit now (to_end sent p) = timed_out-Untouched _ _ p
after_turn-Untouched limit now (continued sent p) = nothing_touched p

pub sent-after_turn : (limit now : ℕ) (t : Turn) → (after_turn limit now t).0 ≡ sent_by t
unfolding after_turn
sent-after_turn limit now (to_end sent p) = refl
sent-after_turn limit now (continued sent p) = refl

armed_or_rejected-Untouched :
    (now : ℕ) (signature : Signature) (parsed : Outcome SessionRequest) (p : Proxy)
    → Untouched p (armed_or_rejected now signature parsed p)
unfolding armed_or_rejected
armed_or_rejected-Untouched now signature (fail f) p = record {
  translators = refl;
  carrier_rewrites = refl;
  synthetic_count = refl;
  last_synthetic = refl;
}
armed_or_rejected-Untouched now signature (done q) p = record {
  translators = refl;
  carrier_rewrites = refl;
  synthetic_count = refl;
  last_synthetic = refl;
}

chosen-Untouched : (b : Bool) (p p' : Proxy) → Untouched p p' → Untouched p (if b then p else p')
chosen-Untouched true p p' h = nothing_touched p
chosen-Untouched false p p' h = h

read_file-Untouched :
    (now : ℕ) (found : Option ArmFile) (p : Proxy) → Untouched p (read_file now found p)
unfolding read_file
read_file-Untouched now none p = nothing_touched p
read_file-Untouched now (some file) p =
    chosen-Untouched (same_signature file.signature p.arm_error) p _
      (armed_or_rejected-Untouched now file.signature (accepted file.parsed p) p)

read_unarmed-Untouched :
    (now : ℕ) (waiting : Option SessionRequest) (p : Proxy)
    → Untouched p (read_unarmed now waiting p)
unfolding read_unarmed
read_unarmed-Untouched now (some q) p = nothing_touched p
read_unarmed-Untouched now none p = read_file-Untouched now p.arm_file p

pub prepare-Untouched :
    (now : ℕ) (original : Bytes) (dir : Direction) (p : Proxy)
    → Untouched p (prepare now original dir p)
unfolding prepare read_arm_file
prepare-Untouched now original dir p =
    let e = read_unarmed-Untouched now p.arm_request (record p { last_serials = _ }) in
    record {
      translators = e.translators;
      carrier_rewrites = e.carrier_rewrites;
      synthetic_count = e.synthetic_count;
      last_synthetic = e.last_synthetic;
    }
