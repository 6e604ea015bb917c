-- ===== src/Wire/Stamped.antt =====
-- `stamp` writes the serial, the actor and the origin of a request into a fixture, and later writes behind
-- them leave them.
use imperial_auto_governor.Common.{
  ℕ, ◌+◌, ◌≤◌, ◌≡◌, sym, ap, ◌∙◌, subst, [], ◌∷◌, arith, length, Bool-cases, inl, inr, leb, ltb,
}
use imperial_auto_governor.Common.Int.{ℤ, pos, negsuc}
use imperial_auto_governor.Stream.{Bytes, serial_offset, slice, from_little}
use imperial_auto_governor.Wire.{
  Outcome, done, >>=-eq-done, to_little, put_bytes, actor_tag, origin_tag, value_offset,
  validate_u32, validate_byte, stamp,
}
use imperial_auto_governor.Wire.Puts.{
  length-put_bytes, slice-put_bytes, slice_before, length-to_little, from_little-to_little,
}
use imperial_auto_governor.Wire.Sizes.{length-put_u32}

-- The request's numbers at the places that the tags of the fixtures give them.
pub record IsStamped (serial actor origin : ℤ) (bytes : Bytes) : Type 0 where
  pub actor_written : actor ≡ pos (from_little (slice 24 28 bytes))
  pub origin_written : origin ≡ pos (from_little (slice 51 52 bytes))
  pub serial_written : serial ≡ pos (from_little (slice 58 62 bytes))

-- A later write behind them keeps them.
put-IsStamped :
    (serial actor origin : ℤ) (at : ℕ) (new bytes : Bytes)
    → 62 ≤ at
    → at ≤ length bytes
    → IsStamped serial actor origin bytes
    → IsStamped serial actor origin (put_bytes at new bytes)
put-IsStamped serial actor origin at new bytes behind within h = record {
  actor_written =
      h.actor_written
      ∙ sym (
          ap (λ (t : Bytes). pos (from_little t))
            (slice_before 24 4 at new bytes (omega arith) within));
  origin_written =
      h.origin_written
      ∙ sym (
          ap (λ (t : Bytes). pos (from_little t))
            (slice_before 51 1 at new bytes (omega arith) within));
  serial_written =
      h.serial_written
      ∙ sym (
          ap (λ (t : Bytes). pos (from_little t))
            (slice_before 58 4 at new bytes (omega arith) within));
}

pub validate_u32-value : (v : ℤ) (n : ℕ) → validate_u32 v ≡ done n → (v ≡ pos n) × (n ≤ 0xffffffff)
unfolding validate_u32
validate_u32-value (pos v) n h = elim (Bool-cases (leb v 0xffffffff)) [
  | inl e ↦ let same : v ≡ n = ground arith in (ap (λ m. pos m) same, ground arith)
  | inr e ↦ absurd (ground arith)
]
validate_u32-value (negsuc v) n h = cc

validate_byte-value : (v : ℤ) (n : ℕ) → validate_byte v ≡ done n → v ≡ pos n
unfolding validate_byte
validate_byte-value (pos v) n h = elim (Bool-cases (ltb v 256)) [
  | inl e ↦ let same : v ≡ n = ground arith in ap (λ m. pos m) same
  | inr e ↦ absurd (ground arith)
]
validate_byte-value (negsuc v) n h = cc

pub u32_written :
    (at v : ℕ) (bytes : Bytes)
    → at ≤ length bytes
    → v ≤ 0xffffffff
    → from_little (slice at (at + 4) (put_bytes at (to_little 4 v) bytes)) ≡ v
u32_written at v bytes room fits =
    let width = length-to_little 4 v in
    ap (λ n. from_little (slice at (at + n) (put_bytes at (to_little 4 v) bytes))) (sym width)
    ∙ (ap from_little (slice-put_bytes at (to_little 4 v) bytes room)
        ∙ from_little-to_little v fits)

three_writes :
    (a o n : ℕ) (bytes : Bytes)
    → 62 ≤ length bytes
    → a ≤ 0xffffffff
    → n ≤ 0xffffffff
    → IsStamped
        (pos n)
        (pos a)
        (pos o)
        (put_bytes 58 (to_little 4 n) (put_bytes 51 (o ∷ []) (put_bytes 24 (to_little 4 a) bytes)))
unfolding from_little
three_writes a o n bytes long fits_a fits_n =
    let one = put_bytes 24 (to_little 4 a) bytes in
    let two = put_bytes 51 (o ∷ []) one in
    let size_one : length one ≡ length bytes = length-put_u32 24 a bytes (omega arith) in
    let size_two : length two ≡ length one = length-put_bytes 51 (o ∷ []) one (ground arith) in
    let written : from_little (slice 51 52 two) ≡ o =
      ap from_little (slice-put_bytes 51 (o ∷ []) one (omega arith)) ∙ omega arith in
    record {
      actor_written = sym (
          ap (λ (t : Bytes). pos (from_little t))
            (slice_before 24 4 58 (to_little 4 n) two (omega arith) (omega arith)
              ∙ slice_before 24 4 51 (o ∷ []) one (omega arith) (omega arith))
          ∙ ap (λ m. pos m) (u32_written 24 a bytes (omega arith) fits_a));
      origin_written = sym (
          ap (λ (t : Bytes). pos (from_little t))
            (slice_before 51 1 58 (to_little 4 n) two (omega arith) (omega arith))
          ∙ ap (λ m. pos m) written);
      serial_written = sym (ap (λ m. pos m) (u32_written 58 n two (omega arith) fits_n));
    }

pub outcome-eq : (a b : Bytes) → ◌≡◌ {A = Outcome Bytes} (done a) (done b) → a ≡ b
outcome-eq a b h = cc

pub place-eq : (o : Outcome ℕ) (m n : ℕ) → o ≡ done m → o ≡ done n → m ≡ n
place-eq o m n h k = cc

writes_of :
    (serial actor origin : ℤ) (i j a o n : ℕ) (bytes after : Bytes)
    → i ≡ 24
    → j ≡ 51
    → actor ≡ pos a
    → origin ≡ pos o
    → serial ≡ pos n
    → 62 ≤ length bytes
    → a ≤ 0xffffffff
    → n ≤ 0xffffffff
    → put_bytes serial_offset
        (to_little 4 n)
        (put_bytes j (o ∷ []) (put_bytes i (to_little 4 a) bytes))
      ≡ after
    → IsStamped serial actor origin after
writes_of serial actor origin i j a o n bytes after first second is_a is_o is_n long fits_a fits_n
      same =
    subst (IsStamped serial actor origin) same
      (rw (first, second, is_a, is_n, is_o) (three_writes a o n bytes long fits_a fits_n))

-- The three writes of a fixture whose actor stands at 24 and whose origin stands at 51.
pub stamp-IsStamped :
    (serial actor origin : ℤ) (bytes after : Bytes)
    → value_offset actor_tag 4 bytes ≡ done 24
    → value_offset origin_tag 1 bytes ≡ done 51
    → 62 ≤ length bytes
    → stamp serial actor origin bytes ≡ done after
    → IsStamped serial actor origin after
unfolding stamp
stamp-IsStamped serial actor origin bytes after actor_at origin_at long h =
    let (i, actor_found, h₁) = >>=-eq-done (value_offset actor_tag 4 bytes) _ h in
    let (j, origin_found, h₂) = >>=-eq-done (value_offset origin_tag 1 bytes) _ h₁ in
    let (a, valid_actor, h₃) = >>=-eq-done (validate_u32 actor) _ h₂ in
    let (o, valid_origin, h₄) = >>=-eq-done (validate_byte origin) _ h₃ in
    let (n, valid_serial, last) = >>=-eq-done (validate_u32 serial) _ h₄ in
    let first = place-eq _ i 24 actor_found actor_at in
    let second = place-eq _ j 51 origin_found origin_at in
    let (is_a, fits_a) = validate_u32-value actor a valid_actor in
    let (is_n, fits_n) = validate_u32-value serial n valid_serial in
    writes_of serial actor origin i j a o n bytes after first second is_a
      (validate_byte-value origin o valid_origin) is_n long fits_a fits_n (outcome-eq _ after last)

-- Two more numbers behind the three.
pub two_writes :
    (serial actor origin : ℤ) (i j source object : ℕ) (stamped : Bytes)
    → 62 ≤ i
    → 62 ≤ j
    → i + 4 ≤ length stamped
    → j ≤ length stamped
    → IsStamped serial actor origin stamped
    → IsStamped serial actor origin
        (put_bytes j (to_little 4 object) (put_bytes i (to_little 4 source) stamped))
two_writes serial actor origin i j source object stamped low_i low_j room_i room_j h =
    let size = length-put_u32 i source stamped room_i in
    put-IsStamped serial actor origin j (to_little 4 object)
      (put_bytes i (to_little 4 source) stamped) low_j (omega arith)
      (put-IsStamped serial actor origin i (to_little 4 source) stamped low_i (omega arith) h)
