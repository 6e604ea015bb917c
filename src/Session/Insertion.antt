-- ===== src/Session/Insertion.antt =====
-- What an insertion at a carrier gives: at least one datagram, and a serial that is above the last one.
use imperial_auto_governor.Common.{
  ℕ, zero, suc, ◌+◌, ◌≤◌, ◌<◌, ◌≡◌, sym, ap, ◌∙◌, not, ◌||◌, some, [], ◌∷◌, ◌++◌, leb, ◌==◌, arith,
  In, length, Bool-cases, inl, inr,
}
use imperial_auto_governor.Common.Int.{ℤ, pos, negsuc}
use imperial_auto_governor.Flow.{outbound}
use imperial_auto_governor.Stream.{Bytes, header_length, is_reliable_packet}
use imperial_auto_governor.Wire.{done, value_error, ◌>>=◌, >>=-eq-done, raise_if-eq-done}
use imperial_auto_governor.Wire.Boundary.{
  ArmRequest, Injection, application_prefix, fragments, injection, injected_request,
  build_request_record, inject_at_packet_boundary,
}
use imperial_auto_governor.Wire.Serials.{Sender, Serials}
use imperial_auto_governor.Wire.Serials.Fresh.{next_actor_serial_fresh}
use imperial_auto_governor.Session.{SessionRequest, Proxy}
use imperial_auto_governor.Session.Packets.{Settings, next_serial, injection_for}

application_prefix-length :
    (bytes prefix : Bytes) → application_prefix bytes ≡ done prefix → 1 ≤ length prefix
unfolding application_prefix
application_prefix-length bytes [] h = absurd (ground arith)
application_prefix-length bytes (b ∷ bs) h = omega arith

fragments-length :
    (fuel capacity : ℕ) (payload : Bytes) (offset : ℕ) (rest : Bytes)
    → 1 ≤ length rest
    → length rest ≤ fuel
    → 1 ≤ length (fragments fuel capacity payload offset rest)
unfolding fragments
fragments-length fuel capacity payload offset [] some_left enough = ground arith
fragments-length zero capacity payload offset (b ∷ rest) some_left enough = ground arith
fragments-length (suc fuel) capacity payload offset (b ∷ rest) some_left enough = omega arith

injection-wires :
    (payload : Bytes) (serial : ℤ) (limit : ℕ) (prefix command : Bytes)
    → 1 ≤ length prefix
    → 1 ≤ length ((injection payload serial limit prefix command).wire_payloads)
unfolding injection
injection-wires payload serial limit [] command h = ground arith
injection-wires payload serial limit (b ∷ prefix) command h =
    fragments-length (length (b ∷ (prefix ++ command))) _ payload _ (b ∷ (prefix ++ command))
      (omega arith) (omega arith)

injected-wires :
    (q : ArmRequest) (serial : ℤ) (limit : ℕ) (payload : Bytes) (i : Injection)
    → injected_request q serial limit payload ≡ done i
    → 1 ≤ length i.wire_payloads
unfolding injected_request
injected-wires q serial limit payload i h =
    let (command, built, h₁) = >>=-eq-done (build_request_record q serial) _ h in
    let (prefix, fits, h₂) = >>=-eq-done (application_prefix command) _ h₁ in
    let (room, h₃) = raise_if-eq-done (leb limit header_length) value_error _ h₂ in
    let same : injection payload serial limit prefix command ≡ i = cc in
    rw (← same) (
      injection-wires payload serial limit prefix command
        (application_prefix-length command prefix fits))

-- An insertion that is made has at least one datagram.
pub inject_at_packet_boundary-wires :
    (q : ArmRequest) (serial : ℤ) (limit : ℕ) (payload : Bytes) (i : Injection)
    → inject_at_packet_boundary q serial limit payload ≡ done (some i)
    → 1 ≤ length i.wire_payloads
unfolding inject_at_packet_boundary
inject_at_packet_boundary-wires q serial limit payload i h =
    elim (Bool-cases (not (is_reliable_packet payload) || not (length payload == header_length))) [
      | inl e ↦ absurd (ground arith)
      | inr e ↦
          let kept : (injected_request q serial limit payload >>= λ j. done (some j))
              ≡ done (some i) =
            ground arith in
          let (j, made, last) = >>=-eq-done (injected_request q serial limit payload) _ kept in
          let same : j ≡ i = cc in injected-wires q serial limit payload i (made ∙ ap done same)
    ]

-- The serial of an insertion: above the floor of the request and the last serial that was inserted, and
-- above the actor's outbound serials that `last_serials` holds, by more than the number of insertions.
pub record IsFresh (q : SessionRequest) (p : Proxy) (serial : ℕ) : Type 0 where
  pub above_floor : q.serial_floor < serial
  pub above_last : p.last_synthetic < serial
  pub fits : serial ≤ 0xffffffff
  pub above_held :
      (s : Sender) (m : ℕ)
      → In (s, m) p.last_serials
      → s.direction ≡ outbound
      → pos s.actor ≡ q.command.source_actor
      → m + p.synthetic_count < serial

next_serial-fresh :
    (last : Serials) (actor : ℤ) (floor reserved synthetic n : ℕ)
    → next_serial last actor floor reserved synthetic ≡ done n
    → (floor < n)
      × (synthetic < n)
      × (n ≤ 0xffffffff)
      × ((s : Sender) (m : ℕ)
          → In (s, m) last
          → s.direction ≡ outbound
          → pos s.actor ≡ actor
          → m + reserved < n)
unfolding next_serial
next_serial-fresh last (pos actor) floor reserved synthetic n h =
    let (seen, low, above, fits) =
      next_actor_serial_fresh last actor floor reserved synthetic n h in
    (low, above, fits, λ s m there out own. seen s m there out cc)
next_serial-fresh last (negsuc k) floor reserved synthetic n h =
    let (seen, low, above, fits) = next_actor_serial_fresh [] 0 floor reserved synthetic n h in
    (low, above, fits, λ s m there out own. absurd cc)

pub injection_for-IsFresh :
    (s : Settings) (q : SessionRequest) (outgoing : Bytes) (p : Proxy) (serial : ℕ) (i : Injection)
    → injection_for s q outgoing p ≡ done (serial, some i)
    → IsFresh q p serial
      × (inject_at_packet_boundary q.command (pos serial) s.max_payload outgoing ≡ done (some i))
unfolding injection_for
injection_for-IsFresh s q outgoing p serial i h =
    let (n, next, h₁) =
      >>=-eq-done
        (next_serial p.last_serials q.command.source_actor q.serial_floor p.synthetic_count
          p.last_synthetic)
        _ h in
    let (made, insertion, h₂) =
      >>=-eq-done (inject_at_packet_boundary q.command (pos n) s.max_payload outgoing) _ h₁ in
    let same : n ≡ serial = cc in
    let also : made ≡ some i = cc in
    let (low, above, fits, seen) =
      next_serial-fresh p.last_serials q.command.source_actor q.serial_floor p.synthetic_count
        p.last_synthetic serial (next ∙ ap done same) in
    (
      record { above_floor = low; above_last = above; fits = fits; above_held = seen },
      ap (λ k. inject_at_packet_boundary q.command (pos k) s.max_payload outgoing) (sym same)
          ∙ (insertion ∙ ap done also),
    )
