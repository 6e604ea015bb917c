-- ===== src/Wire.antt =====
-- src/iag/stellaris/execution/packet/autonomous_commands.py: the tagged fields of one command record. An
-- integer argument may be negative; a text is the list of its code points.
pub mod Buildings
pub mod Boundary
pub mod Coordinates
pub mod Filled
pub mod Moves
pub mod Puts
pub mod Sizes
pub mod Stamped
mod Tests
pub mod Research
pub mod Responses
pub mod Serials
use imperial_auto_governor.Common.{
  ℕ, zero, suc, ◌+◌, ◌-◌, ◌*◌, ◌/◌, ◌%◌, ◌≡◌, refl, ◌⊎◌, inl, inr, Bool, true, false, not, ◌&&◌,
  List, [], ◌∷◌, ◌++◌, ltb, leb, ◌==◌, if◌then◌else◌, length, take, drop,
}
use imperial_auto_governor.Common.Int.{ℤ, pos, negsuc}
use imperial_auto_governor.Stream.{Bytes, serial_offset, slice, from_little, byte_at, starts_with}
use imperial_auto_governor.Stream.Commands.{offsets_of}

pub data Failure : Type 0 where
  value_error runtime_error key_error : Failure

pub data Outcome {κ} (Value : Type κ) : Type κ where
  fail : Failure → Outcome Value
  done : Value → Outcome Value

-- The statement after one that may raise.
infixl 5 ◌>>=◌
abbrev pub ◌>>=◌ {κ μ} :
    {Value : Type κ} {Next : Type μ} → Outcome Value → (Value → Outcome Next) → Outcome Next
fail f >>= next = fail f
done v >>= next = next v

infixl 5 ◌>>◌
abbrev pub ◌>>◌ {κ} : {Next : Type κ} → Outcome (Unit {0}) → Outcome Next → Outcome Next
check >> rest = check >>= λ _. rest

-- `if test: raise`
abbrev pub raise_if : Bool → Failure → Outcome (Unit {0})
raise_if true f = fail f
raise_if false f = done tt

abbrev pub actor_tag : Bytes
actor_tag = 0x40 ∷ 0x02 ∷ 0x01 ∷ 0x00 ∷ 0x0c ∷ 0x00 ∷ []

abbrev pub origin_tag : Bytes
origin_tag = 0x13 ∷ 0x04 ∷ 0x01 ∷ 0x00 ∷ 0x0e ∷ 0x00 ∷ []

abbrev pub context_tag : Bytes
context_tag = 0x82 ∷ 0x2c ∷ 0x01 ∷ 0x00 ∷ 0x14 ∷ 0x00 ∷ []

abbrev pub build_queue_tag : Bytes
build_queue_tag = 0x63 ∷ 0x40 ∷ 0x01 ∷ 0x00 ∷ 0x14 ∷ 0x00 ∷ []

abbrev pub building_tag : Bytes
building_tag = 0xb2 ∷ 0x2b ∷ 0x01 ∷ 0x00 ∷ 0x0f ∷ 0x00 ∷ []

abbrev pub colony_tag : Bytes
colony_tag = 0x13 ∷ 0x2a ∷ 0x01 ∷ 0x00 ∷ 0x14 ∷ 0x00 ∷ []

abbrev pub zone_tag : Bytes
zone_tag = 0xb3 ∷ 0x2b ∷ 0x01 ∷ 0x00 ∷ 0x14 ∷ 0x00 ∷ []

abbrev pub command_family : Bytes
command_family = 0xb4 ∷ 0x3d ∷ 0x01 ∷ 0x00 ∷ 0x03 ∷ 0x00 ∷ []

pub Outcome-cases {ℓ} :
    {A : Type ℓ} (o : Outcome A) → ((f : Failure) × (o ≡ fail f)) ⊎ ((a : A) × (o ≡ done a))
Outcome-cases (fail f) = inl (f, refl)
Outcome-cases (done a) = inr (a, refl)

-- A call that returns has got past its first statement.
pub >>=-eq-done {κ μ} :
    {Value : Type κ} {Next : Type μ} (call : Outcome Value) (next : Value → Outcome Next)
    {last : Next}
    → (call >>= next) ≡ done last
    → (v : Value) × (call ≡ done v) × (next v ≡ done last)
>>=-eq-done (fail f) next h = cc
>>=-eq-done (done v) next h = (v, refl, h)

pub raise_if-eq-done {κ} :
    {Next : Type κ} (test : Bool) (f : Failure) (rest : Outcome Next) {last : Next}
    → (raise_if test f >> rest) ≡ done last
    → (test ≡ false) × (rest ≡ done last)
raise_if-eq-done true f rest h = cc
raise_if-eq-done false f rest h = (refl, h)

-- `value.to_bytes(n, "little")`
unfoldable pub to_little : ℕ → ℕ → Bytes
to_little zero v = []
to_little (suc n) v = v % 256 ∷ to_little n (v / 256)

-- `record[offset : offset + len(new)] = new`
unfoldable pub put_bytes : ℕ → Bytes → Bytes → Bytes
put_bytes offset new bytes = take offset bytes ++ (new ++ drop (offset + length new) bytes)

-- `_validate_u32`
unfoldable pub validate_u32 : ℤ → Outcome ℕ
validate_u32 (pos v) = if leb v 0xffffffff then done v else fail value_error
validate_u32 (negsuc v) = fail value_error

-- An integer that is stored into a byte array.
unfoldable pub validate_byte : ℤ → Outcome ℕ
validate_byte (pos v) = if ltb v 256 then done v else fail value_error
validate_byte (negsuc v) = fail value_error

-- The only offset of a tag, moved behind the tag, if the value lies within the record.
unfoldable pub only_offset : ℕ → ℕ → ℕ → List ℕ → Outcome ℕ
only_offset tag_length width size (o ∷ []) =
    if leb (o + tag_length + width) size then done (o + tag_length) else fail value_error
only_offset tag_length width size _ = fail value_error

-- `_unique_value_offset`
unfoldable pub value_offset : Bytes → ℕ → Bytes → Outcome ℕ
unfolding only_offset offsets_of
value_offset tag width bytes =
    only_offset (length tag) width (length bytes) (offsets_of tag 0 bytes)

-- `_u32`
unfoldable pub u32 : Bytes → Bytes → Outcome ℕ
unfolding value_offset from_little
u32 tag bytes = do o ← value_offset tag 4 bytes; done (from_little (slice o (o + 4) bytes))

-- `_actor_origin`
unfoldable pub actor_origin : Bytes → Outcome (ℕ × ℕ)
unfolding value_offset from_little byte_at
actor_origin bytes = do
  actor ← value_offset actor_tag 4 bytes
  origin ← value_offset origin_tag 1 bytes
  done (from_little (slice actor (actor + 4) bytes), byte_at origin bytes)

-- `_serial_u32`
unfoldable pub serial_u32 : Bytes → Outcome ℕ
unfolding from_little
serial_u32 bytes =
    if ltb (length bytes) (serial_offset + 4)
    then fail value_error
    else done (from_little (slice serial_offset (serial_offset + 4) bytes))

-- `_set_tagged_u32`
unfoldable pub set_tagged_u32 : Bytes → ℤ → Bytes → Outcome Bytes
unfolding value_offset validate_u32 put_bytes to_little
set_tagged_u32 tag value bytes = do
  o ← value_offset tag 4 bytes
  v ← validate_u32 value
  done (put_bytes o (to_little 4 v) bytes)

-- The three writes that every builder makes: actor, origin and serial.
unfoldable pub stamp : ℤ → ℤ → ℤ → Bytes → Outcome Bytes
unfolding value_offset validate_u32 validate_byte put_bytes to_little
stamp serial actor origin bytes = do
  actor_offset ← value_offset actor_tag 4 bytes
  origin_offset ← value_offset origin_tag 1 bytes
  a ← validate_u32 actor
  o ← validate_byte origin
  s ← validate_u32 serial
  done (
      put_bytes serial_offset (to_little 4 s)
        (put_bytes origin_offset (o ∷ []) (put_bytes actor_offset (to_little 4 a) bytes)))

-- `int.from_bytes(record[:2], "little") + 1 == len(record)`
unfoldable pub is_declared : Bytes → Bool
unfolding from_little
is_declared bytes = from_little (slice 0 2 bytes) + 1 == length bytes

abbrev pub is_ascii : List ℕ → Bool
is_ascii [] = true
is_ascii (c ∷ cs) = ltb c 128 && is_ascii cs

-- `text.encode("ascii")`, and `data.decode("ascii")`, whose errors are ValueErrors.
unfoldable pub ascii : List ℕ → Outcome Bytes
ascii text = if is_ascii text then done text else fail value_error
