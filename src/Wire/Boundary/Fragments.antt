-- ===== src/Wire/Boundary/Fragments.antt =====
-- The datagrams of an inserted command: what a receiver puts together again.
use imperial_auto_governor.Common.{
  ℕ, zero, suc, ◌+◌, ◌-◌, ◌%◌, ◌≤◌, ◌<◌, ◌≡◌, refl, sym, ap, ◌∙◌, true, false, some, List, [], ◌∷◌,
  ◌++◌, arith, length, take, drop, length-append, length-take, length-drop, take-append-drop, min,
  Bool-cases, inl, inr, leb, ◌==◌,
}
use imperial_auto_governor.Common.Int.{ℤ}
use imperial_auto_governor.Stream.{
  Bytes, modulus, header_length, from_big, read_uint24, write_uint24, is_reliable_packet,
}
use imperial_auto_governor.Stream.Bytes.{read-write_uint24}
use imperial_auto_governor.Wire.{done}
use imperial_auto_governor.Wire.Boundary.{
  ArmRequest, Injection, fragments, injection, injected_request, inject_at_packet_boundary,
  build_request_record, application_prefix,
}

-- What the datagrams carry behind their headers, put together.
unfoldable pub reassembled : List Bytes → Bytes
reassembled [] = []
reassembled (f ∷ fs) = drop header_length f ++ reassembled fs

-- Datagrams whose applications follow on each other in the stream from an offset, and which are longer
-- than a header and at most as long as a limit.
unfoldable pub IsRun : ℕ → ℕ → List Bytes → Type 0
IsRun limit offset [] = Unit
IsRun limit offset (f ∷ fs) =
    (read_uint24 f 6 ≡ offset % modulus)
    × (header_length < length f)
    × (length f ≤ limit)
    × IsRun limit (offset + (length f - header_length)) fs

drop_front : (front rest : Bytes) → drop (length front) (front ++ rest) ≡ rest
drop_front [] rest = refl
drop_front (b ∷ front) rest = drop_front front rest

within_front :
    (n k : ℕ) (front rest : Bytes)
    → k + n ≤ length front
    → take n (drop k (front ++ rest)) ≡ take n (drop k front)
within_front zero zero front rest h = refl
within_front (suc n) zero [] rest h = ground arith
within_front (suc n) zero (b ∷ front) rest h =
    ap (λ (t : Bytes). b ∷ t) (within_front n zero front rest (ground arith))
within_front n (suc k) [] rest h = ground arith
within_front n (suc k) (b ∷ front) rest h = within_front n k front rest (ground arith)

length-write_uint24 :
    (payload : Bytes) (value : ℕ)
    → length payload ≡ header_length
    → length (write_uint24 payload 6 value) ≡ header_length
unfolding write_uint24
length-write_uint24 payload value h = ground (
  arith,
  length-append (take 6 payload) (_ ∷ _ ∷ _ ∷ drop 9 payload),
  length-take 6 payload,
  length-drop 9 payload,
)

read_uint24-front :
    (front rest : Bytes)
    → length front ≡ header_length
    → read_uint24 (front ++ rest) 6 ≡ read_uint24 front 6
unfolding read_uint24
read_uint24-front front rest h =
    ap (λ (t : Bytes). from_big 0 t) (within_front 3 6 front rest (ground arith))

reassembled-fragments :
    (fuel capacity : ℕ) (payload : Bytes) (offset : ℕ) (rest : Bytes)
    → length payload ≡ header_length
    → 0 < capacity
    → length rest ≤ fuel
    → reassembled (fragments fuel capacity payload offset rest) ≡ rest
unfolding reassembled fragments
reassembled-fragments fuel capacity payload offset [] size room enough = refl
reassembled-fragments zero capacity payload offset (b ∷ rest) size room enough = ground arith
reassembled-fragments (suc fuel) capacity payload offset (b ∷ rest) size room enough =
    let head = write_uint24 payload 6 offset in
    let front = take capacity (b ∷ rest) in
    let own : drop header_length (head ++ front) ≡ front =
      ap (λ n. drop n (head ++ front)) (sym (length-write_uint24 payload offset size))
      ∙ drop_front head front in
    let below =
      reassembled-fragments fuel capacity payload (offset + capacity) (drop capacity (b ∷ rest))
        size room (ground (arith, length-drop capacity (b ∷ rest))) in
    ap
      (λ (t : Bytes).
        t
        ++ reassembled
            (fragments fuel capacity payload (offset + capacity) (drop capacity (b ∷ rest))))
      own
    ∙ (ap (λ (t : Bytes). front ++ t) below ∙ take-append-drop capacity (b ∷ rest))

no_more :
    (fuel capacity : ℕ) (payload : Bytes) (offset : ℕ) (limit from : ℕ) (rest : Bytes)
    → length rest ≡ 0
    → IsRun limit from (fragments fuel capacity payload offset rest)
unfolding IsRun fragments
no_more fuel capacity payload offset limit from [] h = tt
no_more fuel capacity payload offset limit from (b ∷ rest) h = absurd (ground arith)

fragments-IsRun :
    (fuel limit : ℕ) (payload : Bytes) (offset : ℕ) (rest : Bytes)
    → length payload ≡ header_length
    → header_length < limit
    → IsRun limit offset (fragments fuel (limit - header_length) payload offset rest)
unfolding IsRun fragments
fragments-IsRun fuel limit payload offset [] size room = tt
fragments-IsRun zero limit payload offset (b ∷ rest) size room = tt
fragments-IsRun (suc fuel) limit payload offset (b ∷ rest) size room =
    let capacity = limit - header_length in
    let head = write_uint24 payload 6 offset in
    let front = take capacity (b ∷ rest) in
    let head_size = length-write_uint24 payload offset size in
    let whole : length (head ++ front) ≡ header_length + min capacity (length (b ∷ rest)) =
      length-append head front ∙ ground (arith, length-take capacity (b ∷ rest)) in
    let starts : read_uint24 (head ++ front) 6 ≡ offset % modulus =
      read_uint24-front head front head_size ∙ read-write_uint24 payload 6 offset (omega arith) in
    (
      starts,
      ground arith,
      ground arith,
      elim (Bool-cases (leb (length (b ∷ rest)) capacity)) [
        | inl e ↦
            no_more fuel capacity payload (offset + capacity) limit _ (drop capacity (b ∷ rest))
              (ground (arith, length-drop capacity (b ∷ rest)))
        | inr e ↦
            let full : offset + (length (head ++ front) - header_length) ≡ offset + capacity =
              ground arith in
            rw full (
              fragments-IsRun fuel limit payload (offset + capacity) (drop capacity (b ∷ rest)) size
                room)
      ],
    )

same_size : (m n : ℕ) → m ≡ n → (m == n) ≡ true
same_size m n h = ground arith

above : (m n : ℕ) → n < m → leb m n ≡ false
above m n h = ground arith

-- What an insertion at a packet puts on the wire.
pub record Carries (q : ArmRequest) (serial : ℤ) (limit : ℕ) (payload command prefix : Bytes)
    : Type 0 where
  pub injected : Injection
  pub returned : inject_at_packet_boundary q serial limit payload ≡ done (some injected)
  pub whole : injected.payload ≡ payload ++ (prefix ++ command)
  pub carried : reassembled injected.wire_payloads ≡ prefix ++ command
  pub run : IsRun limit (read_uint24 payload 6) injected.wire_payloads

-- For a pure acknowledgement, a request whose record is built and has an application prefix, and a limit
-- above the header, `inject_at_packet_boundary` returns. Its datagrams are each longer than a header and
-- at most as long as the limit, follow on each other in the stream from the packet's offset, and carry,
-- put together, the prefix and the command.
pub inject_at_packet_boundary-Carries :
    (q : ArmRequest) (serial : ℤ) (limit : ℕ) (payload command prefix : Bytes)
    → is_reliable_packet payload ≡ true
    → length payload ≡ header_length
    → build_request_record q serial ≡ done command
    → application_prefix command ≡ done prefix
    → header_length < limit
    → Carries q serial limit payload command prefix
unfolding inject_at_packet_boundary injected_request injection
inject_at_packet_boundary-Carries q serial limit payload command prefix reliable pure built prefixed
      room =
    let application = prefix ++ command in
    record {
      injected = injection payload serial limit prefix command;
      returned =
          rw
            (
              reliable,
              same_size (length payload) header_length pure,
              built,
              prefixed,
              above limit header_length room,
            )
            refl;
      whole = refl;
      carried =
          reassembled-fragments (length application) (limit - header_length) payload
            (read_uint24 payload 6) application pure (omega arith) (omega arith);
      run =
          fragments-IsRun (length application) limit payload (read_uint24 payload 6) application
            pure room;
    }
