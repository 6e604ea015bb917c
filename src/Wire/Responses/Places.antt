-- ===== src/Wire/Responses/Places.antt =====
-- A record that is written again within a packet: only the written bytes change.
use imperial_auto_governor.Common.{
  ℕ, zero, suc, ◌+◌, ◌-◌, ◌≤◌, ◌≡◌, refl, sym, ap, ◌∙◌, [], ◌∷◌, ◌++◌, arith, length, take, drop,
  append_assoc, subst,
}
use imperial_auto_governor.Stream.{Bytes, slice}
use imperial_auto_governor.Wire.{put_bytes}
use imperial_auto_governor.Wire.Puts.{put_bytes_next}

-- What follows `n` bytes, when it is put together from the rest of a front and what follows the front.
drop_front :
    (n size : ℕ) (bytes : Bytes)
    → n ≤ length (take size bytes)
    → drop n (take size bytes) ++ drop size bytes ≡ drop n bytes
drop_front zero zero bytes h = refl
drop_front zero (suc size) [] h = refl
drop_front zero (suc size) (b ∷ bytes) h =
    ap (λ (t : Bytes). b ∷ t) (drop_front zero size bytes (omega arith))
drop_front (suc n) zero bytes h = ground arith
drop_front (suc n) (suc size) [] h = ground arith
drop_front (suc n) (suc size) (b ∷ bytes) h = drop_front n size bytes (ground arith)

put_front :
    (at size : ℕ) (new bytes : Bytes)
    → at + length new ≤ length (take size bytes)
    → put_bytes at new (take size bytes) ++ drop size bytes ≡ put_bytes at new bytes
unfolding put_bytes
put_front zero size new bytes h =
    let same : 0 + length new ≡ length new = omega arith in
    append_assoc new (drop (0 + length new) (take size bytes)) (drop size bytes)
    ∙ ap (λ (t : Bytes). new ++ t) (rw same (drop_front (length new) size bytes (omega arith)))
put_front (suc at) zero new bytes h = ground arith
put_front (suc at) (suc size) new [] h = ground arith
put_front (suc at) (suc size) new (b ∷ bytes) h =
    ap (λ (t : Bytes). t ++ drop size bytes) (put_bytes_next at new b (take size bytes))
    ∙ (ap (λ (t : Bytes). b ∷ t) (put_front at size new bytes (omega arith))
        ∙ sym (put_bytes_next at new b bytes))

put_behind :
    (offset at size : ℕ) (new bytes : Bytes)
    → 1 ≤ length new
    → at + length new ≤ length (take size (drop offset bytes))
    → take offset bytes
        ++ (put_bytes at new (take size (drop offset bytes)) ++ drop (offset + size) bytes)
      ≡ put_bytes (offset + at) new bytes
put_behind zero at size new bytes some_new h =
    let first : 0 + size ≡ size = omega arith in
    let second : 0 + at ≡ at = omega arith in
    ap (λ n. put_bytes at new (take size bytes) ++ drop n bytes) first
    ∙ (put_front at size new bytes h ∙ sym (ap (λ n. put_bytes n new bytes) second))
put_behind (suc offset) at zero new [] some_new h = ground arith
put_behind (suc offset) at (suc size) new [] some_new h = ground arith
put_behind (suc offset) at size new (b ∷ bytes) some_new h =
    let first : suc offset + size ≡ suc (offset + size) = omega arith in
    let second : suc offset + at ≡ suc (offset + at) = omega arith in
    ap
      (λ n.
        b
        ∷ (take offset bytes
            ++ (put_bytes at new (take size (drop offset bytes)) ++ drop n (b ∷ bytes))))
      first
    ∙ (ap (λ (t : Bytes). b ∷ t) (put_behind offset at size new bytes some_new h)
        ∙ (sym (put_bytes_next (offset + at) new b bytes)
            ∙ sym (ap (λ n. put_bytes n new (b ∷ bytes)) second)))

-- Bytes that are written into the record at an offset are written into the packet behind the offset.
pub put_within :
    (offset at size : ℕ) (new bytes : Bytes)
    → 1 ≤ length new
    → at + length new ≤ length (slice offset (offset + size) bytes)
    → take offset bytes
        ++ (put_bytes at new (slice offset (offset + size) bytes) ++ drop (offset + size) bytes)
      ≡ put_bytes (offset + at) new bytes
put_within offset at size new bytes some_new h =
    let width : offset + size - offset ≡ size = omega arith in
    ap
      (λ n.
        take offset bytes
        ++ (put_bytes at new (take n (drop offset bytes)) ++ drop (offset + size) bytes))
      width
    ∙ put_behind offset at size new bytes some_new
        (subst (λ n. at + length new ≤ length (take n (drop offset bytes))) width h)

-- Bytes that are written into what follows a front are written into the whole behind the front.
pub put_dropped :
    (n at : ℕ) (new bytes : Bytes)
    → n ≤ length bytes
    → take n bytes ++ put_bytes at new (drop n bytes) ≡ put_bytes (n + at) new bytes
put_dropped zero at new bytes h =
    let same : 0 + at ≡ at = omega arith in sym (ap (λ m. put_bytes m new bytes) same)
put_dropped (suc n) at new [] h = ground arith
put_dropped (suc n) at new (b ∷ bytes) h =
    let next : suc n + at ≡ suc (n + at) = omega arith in
    ap (λ (t : Bytes). b ∷ t) (put_dropped n at new bytes (ground arith))
    ∙ (sym (put_bytes_next (n + at) new b bytes) ∙ sym (ap (λ m. put_bytes m new (b ∷ bytes)) next))
