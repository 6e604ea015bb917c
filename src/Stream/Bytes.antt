-- ===== src/Stream/Bytes.antt =====
-- Reading back the three bytes of an offset that were written into a packet.
use imperial_auto_governor.Common.{
  ℕ, zero, suc, ◌+◌, ◌-◌, ◌%◌, ◌≤◌, ◌<◌, ◌≡◌, refl, ap, ◌∙◌, [], ◌∷◌, ◌++◌, All, arith, length,
  take, drop,
}
use imperial_auto_governor.Stream.{Bytes, modulus, from_big, to_bytes, read_uint24, write_uint24}

read_uint24-drop :
    (bytes : Bytes) (offset : ℕ)
    → read_uint24 bytes offset ≡ from_big 0 (take 3 (drop offset bytes))
unfolding read_uint24
read_uint24-drop bytes offset =
    let three : offset + 3 - offset ≡ 3 = omega arith in
    ap (λ n. from_big 0 (take n (drop offset bytes))) three

drop-write_uint24 :
    (bytes : Bytes) (offset value : ℕ)
    → offset ≤ length bytes
    → drop offset (write_uint24 bytes offset value)
      ≡ to_bytes (value % modulus) ++ drop (offset + 3) bytes
unfolding write_uint24
drop-write_uint24 bytes zero value h = refl
drop-write_uint24 [] (suc offset) value h = ground arith
drop-write_uint24 (b ∷ bs) (suc offset) value h =
    let next : suc offset + 3 ≡ suc (offset + 3) = omega arith in
    rw next (drop-write_uint24 bs offset value (ground arith))

from_big-to_bytes :
    (v : ℕ) (rest : Bytes) → v < modulus → from_big 0 (take 3 (to_bytes v ++ rest)) ≡ v
unfolding from_big
from_big-to_bytes v rest h = omega arith

pub read-write_uint24 :
    (bytes : Bytes) (offset value : ℕ)
    → offset ≤ length bytes
    → read_uint24 (write_uint24 bytes offset value) offset ≡ value % modulus
read-write_uint24 bytes offset value h =
    let below : value % modulus < modulus = omega arith in
    read_uint24-drop (write_uint24 bytes offset value) offset
    ∙ (ap (λ (x : Bytes). from_big 0 (take 3 x)) (drop-write_uint24 bytes offset value h)
        ∙ from_big-to_bytes (value % modulus) (drop (offset + 3) bytes) below)

unfoldable pub IsBytes : Bytes → Type 0
IsBytes bytes = All (λ b. b < 256) bytes

read_front : (bytes : Bytes) → All (λ b. b < 256) bytes → from_big 0 (take 3 bytes) < modulus
unfolding from_big
read_front [] h = omega arith
read_front (a ∷ []) h = omega arith
read_front (a ∷ b ∷ []) h = omega arith
read_front (a ∷ b ∷ c ∷ rest) h = omega arith

All-drop : (n : ℕ) (bytes : Bytes) → All (λ b. b < 256) bytes → All (λ b. b < 256) (drop n bytes)
All-drop zero bytes h = h
All-drop (suc n) [] h = tt
All-drop (suc n) (b ∷ bs) (_, h) = All-drop n bs h

pub read_uint24-bound :
    (bytes : Bytes) (offset : ℕ) → IsBytes bytes → read_uint24 bytes offset < modulus
unfolding IsBytes
read_uint24-bound bytes offset h =
    rw (read_uint24-drop bytes offset) (read_front (drop offset bytes) (All-drop offset bytes h))
