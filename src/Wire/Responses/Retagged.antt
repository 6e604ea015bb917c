-- ===== src/Wire/Responses/Retagged.antt =====
-- What a retagged response is: the packet with the host's actor in one of its records.
use imperial_auto_governor.Common.{
  ℕ, ◌+◌, ◌≤◌, ◌≡◌, refl, sym, ap, ◌∙◌, subst, Bool, true, false, not, some, List, [], ◌∷◌, ◌++◌,
  ◌==◌, arith, In, ◌⊎◌, inl, inr, length, take, drop, Bool-cases,
}
use imperial_auto_governor.Common.Int.{ℤ}
use imperial_auto_governor.Stream.{Bytes, header_length, is_reliable_packet}
use imperial_auto_governor.Stream.Commands.{CommandRecord, find_command_records}
use imperial_auto_governor.Wire.{
  runtime_error, Outcome, done, >>=-eq-done, raise_if-eq-done, to_little, put_bytes, actor_tag,
  value_offset, validate_u32, serial_u32, ◌>>=◌,
}
use imperial_auto_governor.Wire.Boundary.{Asked, ArmRequest}
use imperial_auto_governor.Wire.Puts.{length-to_little}
use imperial_auto_governor.Wire.Sizes.{value_offset_within}
use imperial_auto_governor.Wire.Responses.{
  Match, Response, record_of, is_response, match_of, matches, with_record, check_serial,
  checked_response, retag, only_match, retag_matching_response,
}
use imperial_auto_governor.Wire.Responses.Places.{put_within, put_dropped}

-- What the search keeps of a record: its actor's place and its serial.
pub record IsMatch (q : ArmRequest) (application : Bytes) (cs : List CommandRecord) (m : Match)
    : Type 0 where
  pub found : In m.command cs
  pub answers : is_response q (record_of application m.command) ≡ done true
  pub tagged : value_offset actor_tag 4 (record_of application m.command) ≡ done m.actor_offset
  pub serial_read : serial_u32 (record_of application m.command) ≡ done m.serial

outcome-eq {ℓ} : {A : Type ℓ} (a b : A) → ◌≡◌ {A = Outcome A} (done a) (done b) → a ≡ b
outcome-eq a b h = cc

match_of-IsMatch :
    (q : ArmRequest) (application : Bytes) (c : CommandRecord) (cs : List CommandRecord)
    (same : Bool) (ms : List Match) (m : Match)
    → is_response q (record_of application c) ≡ done same
    → match_of application c same ≡ done ms
    → In m ms
    → IsMatch q application (c ∷ cs) m
unfolding match_of
match_of-IsMatch q application c cs false ms m a h there =
    absurd (subst (In m) (sym (outcome-eq [] ms h)) there)
match_of-IsMatch q application c cs true ms m a h there =
    let (at, tag, h₁) = >>=-eq-done (value_offset actor_tag 4 (record_of application c)) _ h in
    let (n, number, h₂) = >>=-eq-done (serial_u32 (record_of application c)) _ h₁ in
    only at n tag number (subst (In m) (sym (outcome-eq _ ms h₂)) there)
  where
    only :
        (at n : ℕ)
        → value_offset actor_tag 4 (record_of application c) ≡ done at
        → serial_u32 (record_of application c) ≡ done n
        → In m (record { command = c; actor_offset = at; serial = n } ∷ [])
        → IsMatch q application (c ∷ cs) m
    only at n tag number (inl same_match) =
        subst (IsMatch q application (c ∷ cs)) same_match
          (record { found = inl refl; answers = a; tagged = tag; serial_read = number })
    only at n tag number (inr none_left) = absurd none_left

In-append : (m : Match) (first rest : List Match) → In m (first ++ rest) → In m first ⊎ In m rest
In-append m [] rest h = inr h
In-append m (f ∷ first) rest (inl same) = inl (inl same)
In-append m (f ∷ first) rest (inr there) = elim (In-append m first rest there) [
  | inl h ↦ inl (inr h)
  | inr h ↦ inr h
]

matches-IsMatch :
    (q : ArmRequest) (application : Bytes) (cs : List CommandRecord) (ms : List Match) (m : Match)
    → matches q application cs ≡ done ms
    → In m ms
    → IsMatch q application cs m
unfolding matches
matches-IsMatch q application [] ms m h there =
    absurd (subst (In m) (sym (outcome-eq [] ms h)) there)
matches-IsMatch q application (c ∷ cs) ms m h there =
    let (same, a, h₁) = >>=-eq-done (is_response q (record_of application c)) _ h in
    let (first, own, h₂) = >>=-eq-done (match_of application c same) _ h₁ in
    let (rest, later, h₃) = >>=-eq-done (matches q application cs) _ h₂ in
    elim (In-append m first rest (subst (In m) (sym (outcome-eq _ ms h₃)) there)) [
      | inl h₄ ↦ match_of-IsMatch q application c cs same first m a own h₄
      | inr h₄ ↦
          let it = matches-IsMatch q application cs rest m later h₄ in
          record {
            found = inr it.found;
            answers = it.answers;
            tagged = it.tagged;
            serial_read = it.serial_read;
          }
    ]

-- The host's actor in the place of the record's actor, and nothing else.
pub record IsRetagged (q : ArmRequest) (host : ℤ) (payload : Bytes) (r : Response) : Type 0 where
  pub only :
      matches q (drop header_length payload) (find_command_records (drop header_length payload))
      ≡ done (r.carrier ∷ [])
  pub carrier :
      IsMatch q
        (drop header_length payload)
        (find_command_records (drop header_length payload))
        r.carrier
  pub actor : ℕ
  pub of_host : validate_u32 host ≡ done actor
  pub rewritten :
      r.payload
      ≡ put_bytes
          (header_length + (r.carrier.command.offset + r.carrier.actor_offset))
          (to_little 4 actor)
          payload
  pub same_length : length r.payload ≡ length payload

with_record-eq :
    (payload : Bytes) (m : Match) (actor : ℕ)
    → header_length ≤ length payload
    → m.actor_offset + 4 ≤ length (record_of (drop header_length payload) m.command)
    → with_record payload m.command (
        put_bytes m.actor_offset
          (to_little 4 actor)
          (record_of (drop header_length payload) m.command))
      ≡ put_bytes (header_length + (m.command.offset + m.actor_offset)) (to_little 4 actor) payload
unfolding with_record
with_record-eq payload m actor long room =
    let width = length-to_little 4 actor in
    ap (λ (t : Bytes). take header_length payload ++ t)
      (put_within m.command.offset m.actor_offset m.command.size (to_little 4 actor)
        (drop header_length payload) (rw width (omega arith)) (rw width room))
    ∙ put_dropped header_length (m.command.offset + m.actor_offset) (to_little 4 actor) payload long

not_different : (a b : ℕ) → not (a == b) ≡ false → a ≡ b
not_different a b h = ground arith

record Rewritten (host : ℤ) (payload : Bytes) (m : Match) (r : Response) : Type 0 where
  actor : ℕ
  of_host : validate_u32 host ≡ done actor
  carrier : m ≡ r.carrier
  same_length : length r.payload ≡ length payload
  rewritten :
      with_record payload m.command (
        put_bytes m.actor_offset
          (to_little 4 actor)
          (record_of (drop header_length payload) m.command))
      ≡ r.payload

retag-Rewritten :
    (asked : Asked) (host : ℤ) (payload : Bytes) (m : Match) (r : Response)
    → retag asked host payload m ≡ done r
    → Rewritten host payload m r
unfolding retag checked_response
retag-Rewritten asked host payload m r h =
    let (actor, valid, h₁) = >>=-eq-done (validate_u32 host) _ h in
    let bytes =
      put_bytes m.actor_offset (to_little 4 actor)
        (record_of (drop header_length payload) m.command) in
    let (kept, h₂) =
      raise_if-eq-done (not (length (with_record payload m.command bytes) == length payload))
        runtime_error _ h₁ in
    let (_, checked, h₃) = >>=-eq-done (check_serial asked bytes m.serial) _ h₂ in
    let same =
      outcome-eq (record { payload = with_record payload m.command bytes; carrier = m }) r h₃ in
    let written = ap (λ (r : Response). r.payload) same in
    let size : length (with_record payload m.command bytes) ≡ length payload =
      not_different _ _ kept in
    record {
      actor = actor;
      of_host = valid;
      carrier = ap (λ (r : Response). r.carrier) same;
      same_length = ap length (sym written) ∙ size;
      rewritten = written;
    }

only_match-one :
    (asked : Asked) (host : ℤ) (payload : Bytes) (ms : List Match) (r : Response)
    → only_match asked host payload ms ≡ done (some r)
    → (m : Match) × (ms ≡ m ∷ []) × (retag asked host payload m ≡ done r)
unfolding only_match
only_match-one asked host payload [] r h = cc
only_match-one asked host payload (m ∷ []) r h =
    let (r', e, h₁) = >>=-eq-done (retag asked host payload m) _ h in (m, refl, cc)
only_match-one asked host payload (m ∷ n ∷ rest) r h = cc

-- If a response is found and retagged, then it is the only record of the packet that is of the request's
-- target and source actor, with origin 0. The packet that is given back is the one that was given but for
-- the four bytes of that record's actor, which hold the host's actor, and has its length.
pub retag_matching_response-IsRetagged :
    (q : ArmRequest) (host : ℤ) (payload : Bytes) (r : Response)
    → retag_matching_response q host payload ≡ done (some r)
    → IsRetagged q host payload r
unfolding retag_matching_response is_reliable_packet
retag_matching_response-IsRetagged q host payload r h =
    elim (Bool-cases (is_reliable_packet payload)) [
      | inr e ↦ absurd (ground arith)
      | inl e ↦ found (ground arith) (ground arith)
    ]
  where
    application : Bytes
    application = drop header_length payload

    found :
        header_length ≤ length payload
        → (matches q application (find_command_records application)
            >>= only_match q.asked host payload)
          ≡ done (some r)
        → IsRetagged q host payload r
    found long run =
        let (ms, searched, h₁) =
          >>=-eq-done (matches q application (find_command_records application)) _ run in
        let (m, one, h₂) = only_match-one q.asked host payload ms r h₁ in
        let w = retag-Rewritten q.asked host payload m r h₂ in
        let list : ms ≡ r.carrier ∷ [] = one ∙ ap (λ n. n ∷ []) w.carrier in
        let it =
          matches-IsMatch q application (find_command_records application) ms r.carrier searched
            (subst (In r.carrier) (sym list) (inl refl)) in
        let room = value_offset_within actor_tag 4 _ r.carrier.actor_offset it.tagged in
        record {
          only = searched ∙ ap done list;
          carrier = it;
          actor = w.actor;
          of_host = w.of_host;
          rewritten =
              sym w.rewritten
              ∙ (ap
                    (λ n. with_record payload n.command (
                      put_bytes n.actor_offset (to_little 4 w.actor)
                        (record_of application n.command)))
                    w.carrier
                  ∙ with_record-eq payload r.carrier w.actor long room);
          same_length = w.same_length;
        }
