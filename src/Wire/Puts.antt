-- ===== src/Wire/Puts.antt =====
-- Writing a value over bytes of a record: what is kept, and reading the value back.
use imperial_auto_governor.Common.{
  ℕ, zero, suc, ◌+◌, ◌-◌, ◌/◌, ◌≤◌, ◌≡◌, refl, sym, ap, ◌∙◌, [], ◌∷◌, ◌++◌, arith, length, take,
  drop, length-append, length-take, length-drop,
}
use imperial_auto_governor.Stream.{Bytes, from_little, slice}
use imperial_auto_governor.Wire.{to_little, put_bytes}

pub length-put_bytes :
    (offset : ℕ) (new bytes : Bytes)
    → offset + length new ≤ length bytes
    → length (put_bytes offset new bytes) ≡ length bytes
unfolding put_bytes
length-put_bytes offset new bytes h = ground (
  arith,
  length-append (take offset bytes) (new ++ drop (offset + length new) bytes),
  length-append new (drop (offset + length new) bytes),
  length-take offset bytes,
  length-drop (offset + length new) bytes,
)

pub put_bytes_next :
    (offset : ℕ) (new : Bytes) (b : ℕ) (bytes : Bytes)
    → put_bytes (suc offset) new (b ∷ bytes) ≡ b ∷ put_bytes offset new bytes
unfolding put_bytes
put_bytes_next offset new b bytes =
    let next : suc offset + length new ≡ suc (offset + length new) = omega arith in
    ap (λ n. b ∷ (take offset bytes ++ (new ++ drop n (b ∷ bytes)))) next

-- The bytes before those that are written stay.
pub take-put_bytes :
    (n offset : ℕ) (new bytes : Bytes)
    → n ≤ offset
    → offset ≤ length bytes
    → take n (put_bytes offset new bytes) ≡ take n bytes
take-put_bytes zero offset new bytes h within = refl
take-put_bytes (suc n) zero new bytes h within = ground arith
take-put_bytes (suc n) (suc offset) new [] h within = ground arith
take-put_bytes (suc n) (suc offset) new (b ∷ bytes) h within =
    ap (take (suc n)) (put_bytes_next offset new b bytes)
    ∙ ap (λ (t : Bytes). b ∷ t) (take-put_bytes n offset new bytes (omega arith) (ground arith))

take_front : (new rest : Bytes) → take (length new) (new ++ rest) ≡ new
take_front [] rest = refl
take_front (n ∷ new) rest = ap (λ (t : Bytes). n ∷ t) (take_front new rest)

drop-put_bytes :
    (offset : ℕ) (new bytes : Bytes)
    → offset ≤ length bytes
    → drop offset (put_bytes offset new bytes) ≡ new ++ drop (offset + length new) bytes
unfolding put_bytes
drop-put_bytes zero new bytes h = refl
drop-put_bytes (suc offset) new [] h = ground arith
drop-put_bytes (suc offset) new (b ∷ bytes) h =
    let next : suc offset + length new ≡ suc (offset + length new) = omega arith in
    rw next (drop-put_bytes offset new bytes (ground arith))

-- The written bytes are there.
pub slice-put_bytes :
    (offset : ℕ) (new bytes : Bytes)
    → offset ≤ length bytes
    → slice offset (offset + length new) (put_bytes offset new bytes) ≡ new
slice-put_bytes offset new bytes h =
    let width : offset + length new - offset ≡ length new = omega arith in
    ap (λ n. take n (drop offset (put_bytes offset new bytes))) width
    ∙ (ap (take (length new)) (drop-put_bytes offset new bytes h)
        ∙ take_front new (drop (offset + length new) bytes))

pub length-to_little : (n v : ℕ) → length (to_little n v) ≡ n
unfolding to_little
length-to_little zero v = refl
length-to_little (suc n) v = ap suc (length-to_little n (v / 256))

-- Four bytes hold a number below 2 ^ 32.
pub from_little-to_little : (v : ℕ) → v ≤ 0xffffffff → from_little (to_little 4 v) ≡ v
unfolding from_little to_little
from_little-to_little v h = omega arith

nil_take : (n o m : ℕ) → take n (drop {A = ℕ} o []) ≡ drop o (take m [])
nil_take zero zero zero = refl
nil_take zero zero (suc m) = refl
nil_take zero (suc o) zero = refl
nil_take zero (suc o) (suc m) = refl
nil_take (suc n) zero zero = refl
nil_take (suc n) zero (suc m) = refl
nil_take (suc n) (suc o) zero = refl
nil_take (suc n) (suc o) (suc m) = refl

take-drop : (n o : ℕ) (bytes : Bytes) → take n (drop o bytes) ≡ drop o (take (o + n) bytes)
take-drop n zero bytes = let same : 0 + n ≡ n = omega arith in sym (ap (λ m. take m bytes) same)
take-drop n (suc o) [] = nil_take n (suc o) (suc o + n)
take-drop n (suc o) (b ∷ bytes) =
    let next : suc o + n ≡ suc (o + n) = omega arith in
    take-drop n o bytes ∙ sym (ap (λ m. drop (suc o) (take m (b ∷ bytes))) next)

-- A slice before the bytes that are written stays.
pub slice_before :
    (o n at : ℕ) (new bytes : Bytes)
    → o + n ≤ at
    → at ≤ length bytes
    → slice o (o + n) (put_bytes at new bytes) ≡ slice o (o + n) bytes
slice_before o n at new bytes below within =
    let width : o + n - o ≡ n = omega arith in
    rw width (
      take-drop n o (put_bytes at new bytes)
      ∙ (ap (drop o) (take-put_bytes (o + n) at new bytes below within)
          ∙ sym (take-drop n o bytes)))
