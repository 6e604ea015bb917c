-- ===== src/Stream/Commands/Lengths.antt =====
-- The lengths of what the injector writes.
use imperial_auto_governor.Common.{
  ℕ, zero, suc, ◌+◌, ◌-◌, ◌/◌, ◌%◌, ◌≤◌, ◌≡◌, refl, sym, ap, ◌∙◌, true, not, ◌||◌, List, [], ◌∷◌,
  ◌++◌, leb, ◌==◌, arith, length, take, drop, length-append, length-take, length-drop, Bool-cases,
  inl, inr, select,
}
use imperial_auto_governor.Stream.{
  Bytes, command_marker, header_length, serial_offset, is_reliable_packet,
}
use imperial_auto_governor.Stream.Commands.{
  CommandRecord, SerialTranslator, Rewritten, put_serial, is_shifted, kept_tail, shift_at,
  shift_all, rewrite, offsets_of, LiveInjection, no_carrier, injected, carrier_moved,
  fresh_translator, inject_before, inject_before_live_command, find_command_records,
}

length-put_serial :
    (offset value : ℕ) (bytes : Bytes)
    → offset + 2 ≤ length bytes
    → length (put_serial offset value bytes) ≡ length bytes
unfolding put_serial
length-put_serial offset value bytes h = ground (
  arith,
  length-append (take offset bytes)
      ((value % 256 ∷ value / 256 % 256 ∷ []) ++ drop (offset + 2) bytes),
  length-take offset bytes,
  length-drop (offset + 2) bytes,
)

guarded :
    (combined : Bytes) (start marker : ℕ) (output : Bytes)
    → is_shifted combined start marker output ≡ true
    → marker - 12 + serial_offset - start + 2 ≤ length output
unfolding is_shifted
guarded combined start marker output h = ground arith

length-shift_at :
    (delta : ℕ) (combined : Bytes) (start marker : ℕ) (r : Rewritten)
    → length (shift_at delta combined start marker r).output ≡ length r.output
unfolding shift_at
length-shift_at delta combined start marker r =
    elim (Bool-cases (is_shifted combined start marker r.output)) [
      | inr e ↦ rw e refl
      | inl e ↦ rw e (
          length-put_serial (marker - 12 + serial_offset - start) _ r.output
            (guarded combined start marker r.output e))
    ]

length-shift_all :
    (delta : ℕ) (combined : Bytes) (start : ℕ) (markers : List ℕ) (r : Rewritten)
    → length (shift_all delta combined start markers r).output ≡ length r.output
unfolding shift_all
length-shift_all delta combined start [] r = refl
length-shift_all delta combined start (m ∷ ms) r =
    length-shift_all delta combined start ms (shift_at delta combined start m r)
    ∙ length-shift_at delta combined start m r

-- `rewrite` changes no packet's length.
length-rewrite :
    (t : SerialTranslator) (application : Bytes) (sender : ℕ)
    → length (rewrite t application sender).0.output ≡ length application
unfolding rewrite
length-rewrite t application sender =
    length-shift_all t.delta (kept_tail t sender ++ application) (length (kept_tail t sender))
      (offsets_of command_marker 0 (kept_tail t sender ++ application))
      (record { output = application; changes = [] })

injected-eq : (i j : LiveInjection) → injected i ≡ injected j → i ≡ j
injected-eq i j h = cc

take-take-append : (n : ℕ) (xs ys : Bytes) → n ≤ length xs → take n (take n xs ++ ys) ≡ take n xs
take-take-append zero xs ys h = refl
take-take-append (suc n) [] ys h = ground arith
take-take-append (suc n) (x ∷ xs) ys h =
    ap (λ (t : Bytes). x ∷ t) (take-take-append n xs ys (ground arith))

-- The payload of an injection before a record.
inject_before-payload :
    (builder : ℕ → Bytes) (payload : Bytes) (first : CommandRecord) (i : LiveInjection)
    → inject_before builder payload first ≡ injected i
    → (i.command_serial ≡ first.serial)
      × (i.payload
          ≡ take header_length payload
            ++ (take first.offset (drop header_length payload)
                ++ (builder first.serial
                    ++ (rewrite
                        (fresh_translator 1)
                        (drop first.offset (drop header_length payload))
                        0).0.output)))
unfolding inject_before
inject_before-payload builder payload first i h =
    let changes =
      (rewrite (fresh_translator 1) (drop first.offset (drop header_length payload)) 0).0.changes in
    elim (Bool-cases (carrier_moved first.serial changes)) [
      | inr e ↦ ground arith
      | inl e ↦
          let same = injected-eq _ i (rw e at h) in
          (
            sym (ap (λ (x : LiveInjection). x.command_serial) same),
            sym (ap (λ (x : LiveInjection). x.payload) same),
          )
    ]

inject_before-Lengths :
    (builder : ℕ → Bytes) (payload : Bytes) (first : CommandRecord) (i : LiveInjection)
    → header_length ≤ length payload
    → inject_before builder payload first ≡ injected i
    → (take header_length i.payload ≡ take header_length payload)
      × (length i.payload ≡ length payload + length (builder i.command_serial))
inject_before-Lengths builder payload first i long h =
    let (serial, same) = inject_before-payload builder payload first i h in
    let application = drop header_length payload in
    let suffix = (rewrite (fresh_translator 1) (drop first.offset application) 0).0.output in
    let command = builder first.serial in
    let before = take first.offset application in
    (
      rw same (take-take-append header_length payload (before ++ (command ++ suffix)) long),
      rw (same, serial)
          (omega (
            arith,
            length-append (take header_length payload) (before ++ (command ++ suffix)),
            length-append before (command ++ suffix),
            length-append command suffix,
            length-take header_length payload,
            length-take first.offset application,
            length-drop header_length payload,
            length-drop first.offset application,
            length-rewrite (fresh_translator 1) (drop first.offset application) 0,
          )),
    )

-- What `inject_before_live_command` writes keeps the reliable header and is longer by the command, which
-- is the builder's for the serial that the injection names.
pub inject-length :
    (builder : ℕ → Bytes) (payload : Bytes) (i : LiveInjection)
    → inject_before_live_command builder payload ≡ injected i
    → (take header_length i.payload ≡ take header_length payload)
      × (length i.payload ≡ length payload + length (builder i.command_serial))
unfolding inject_before_live_command
inject-length builder payload i h =
    elim (Bool-cases (not (is_reliable_packet payload) || leb (length payload) header_length)) [
      | inl e ↦ ground arith
      | inr e ↦
          carried
            (select (λ (r : CommandRecord). not (r.serial == 0))
              (find_command_records (drop header_length payload)))
            (ground arith) (ground arith)
    ]
  where
    carried :
        (records : List CommandRecord)
        → header_length ≤ length payload
        → (elim records [ [] ↦ no_carrier | first ∷ rest ↦ inject_before builder payload first ])
          ≡ injected i
        → (take header_length i.payload ≡ take header_length payload)
          × (length i.payload ≡ length payload + length (builder i.command_serial))
    carried [] long k = cc
    carried (first ∷ rest) long k = inject_before-Lengths builder payload first i long k
