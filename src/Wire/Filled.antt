-- ===== src/Wire/Filled.antt =====
-- What the builder of fleet moves writes into its fixtures: the numbers of the request and of the target.
use imperial_auto_governor.Common.{
  String, ℕ, ◌≤◌, ◌≡◌, refl, sym, ap, ◌∙◌, subst, true, false, not, [], arith, length, Bool-cases,
  inl, inr, str_eq,
}
use imperial_auto_governor.Common.Int.{ℤ, pos}
use imperial_auto_governor.Stream.{Bytes, slice, from_little}
use imperial_auto_governor.Wire.{
  value_error, runtime_error, Outcome, done, >>=-eq-done, raise_if-eq-done, to_little, put_bytes,
  actor_tag, origin_tag, value_offset, validate_u32, stamp, is_declared,
}
use imperial_auto_governor.Wire.Moves.{
  FleetMoveTarget, fleet_source_tag, object_tag, planet_tag, object_move_record, planet_move_record,
  move_record, tag_bytes, template_or, parse_fleet_move, fits_template, is_move, checked_move,
  build_fleet_move_record,
}
use imperial_auto_governor.Wire.Puts.{slice_before}
use imperial_auto_governor.Wire.Sizes.{length-put_u32, length-stamp, value_offset_within}
use imperial_auto_governor.Wire.Stamped.{
  IsStamped, outcome-eq, place-eq, validate_u32-value, u32_written, stamp-IsStamped, two_writes,
}

-- Where the fixture of a destination's tag has its fields.
record IsFixture (tag : String) (base : Bytes) : Type 0 where
  actor_at : value_offset actor_tag 4 base ≡ done 24
  origin_at : value_offset origin_tag 1 base ≡ done 51
  source_at : value_offset fleet_source_tag 4 base ≡ done 76
  target_at : value_offset (tag_bytes tag) 4 base ≡ done 106

object_at : value_offset object_tag 4 object_move_record ≡ done 106
unfolding value_offset
object_at = refl

planet_at : value_offset planet_tag 4 planet_move_record ≡ done 106
unfolding value_offset
planet_at = refl

object_actor_at : value_offset actor_tag 4 object_move_record ≡ done 24
unfolding value_offset
object_actor_at = refl

planet_actor_at : value_offset actor_tag 4 planet_move_record ≡ done 24
unfolding value_offset
planet_actor_at = refl

object_origin_at : value_offset origin_tag 1 object_move_record ≡ done 51
unfolding value_offset
object_origin_at = refl

planet_origin_at : value_offset origin_tag 1 planet_move_record ≡ done 51
unfolding value_offset
planet_origin_at = refl

object_source_at : value_offset fleet_source_tag 4 object_move_record ≡ done 76
unfolding value_offset
object_source_at = refl

planet_source_at : value_offset fleet_source_tag 4 planet_move_record ≡ done 76
unfolding value_offset
planet_source_at = refl

object-tag_bytes : (tag : String) → str_eq tag "0c3a01001400" ≡ true → tag_bytes tag ≡ object_tag
object-tag_bytes tag e = rw e refl

planet-tag_bytes : (tag : String) → str_eq tag "0c3a01001400" ≡ false → tag_bytes tag ≡ planet_tag
planet-tag_bytes tag e = rw e refl

object-IsFixture :
    (tag : String) → str_eq tag "0c3a01001400" ≡ true → IsFixture tag object_move_record
object-IsFixture tag e = record {
  actor_at = object_actor_at;
  origin_at = object_origin_at;
  source_at = object_source_at;
  target_at = ap (λ t. value_offset t 4 object_move_record) (object-tag_bytes tag e) ∙ object_at;
}

planet-IsFixture :
    (tag : String) → str_eq tag "0c3a01001400" ≡ false → IsFixture tag planet_move_record
planet-IsFixture tag e = record {
  actor_at = planet_actor_at;
  origin_at = planet_origin_at;
  source_at = planet_source_at;
  target_at = ap (λ t. value_offset t 4 planet_move_record) (planet-tag_bytes tag e) ∙ planet_at;
}

move_record-IsFixture :
    (tag : String) (base : Bytes) → move_record tag ≡ done base → IsFixture tag base
unfolding move_record
move_record-IsFixture tag base h = elim (Bool-cases (str_eq tag "0c3a01001400")) [
  | inl e ↦
      let same : ◌≡◌ {A = Outcome Bytes} (done object_move_record) (done base) = rw e at h in
      subst (IsFixture tag) (outcome-eq _ base same) (object-IsFixture tag e)
  | inr e ↦ elim (Bool-cases (str_eq tag "132a01001400")) [
    | inl f ↦
        let same : ◌≡◌ {A = Outcome Bytes} (done planet_move_record) (done base) = rw (e, f) at h in
        subst (IsFixture tag) (outcome-eq _ base same) (planet-IsFixture tag e)
    | inr f ↦ absurd (ground arith)
  ]
]

checked_move-same :
    (target : FleetMoveTarget) (bytes after : Bytes)
    → checked_move target bytes ≡ done after
    → bytes ≡ after
unfolding checked_move
checked_move-same target bytes after h =
    let (_, h₁) = raise_if-eq-done (not (is_declared bytes)) runtime_error _ h in
    let (found, _, h₂) = >>=-eq-done (parse_fleet_move bytes) _ h₁ in
    let (_, h₃) = raise_if-eq-done (not (is_move target found)) runtime_error (done bytes) h₂ in
    outcome-eq bytes after h₃

-- The request's numbers and those of the target, at the places that the tags of the fixtures give them.
pub record IsFilled (serial actor origin : ℤ) (target : FleetMoveTarget) (bytes : Bytes)
    : Type 0 where
  pub stamped : IsStamped serial actor origin bytes
  pub source_written : target.source_fleet ≡ pos (from_little (slice 76 80 bytes))
  pub destination_written : target.destination ≡ pos (from_little (slice 106 110 bytes))

numbers_put :
    (serial actor origin : ℤ) (target : FleetMoveTarget) (source object : ℕ) (stamped : Bytes)
    → 110 ≤ length stamped
    → IsStamped serial actor origin stamped
    → validate_u32 target.source_fleet ≡ done source
    → validate_u32 target.destination ≡ done object
    → IsFilled serial actor origin target
        (put_bytes 106 (to_little 4 object) (put_bytes 76 (to_little 4 source) stamped))
numbers_put serial actor origin target source object stamped room h valid_source valid_object =
    let one = put_bytes 76 (to_little 4 source) stamped in
    let size = length-put_u32 76 source stamped (omega arith) in
    let (is_source, fits_source) = validate_u32-value target.source_fleet source valid_source in
    let (is_object, fits_object) = validate_u32-value target.destination object valid_object in
    record {
      stamped =
          two_writes serial actor origin 76 106 source object stamped (omega arith) (omega arith)
            (omega arith) (omega arith) h;
      source_written =
          is_source
          ∙ sym (
              ap (λ (t : Bytes). pos (from_little t))
                (slice_before 76 4 106 (to_little 4 object) one (omega arith) (omega arith))
              ∙ ap (λ m. pos m) (u32_written 76 source stamped (omega arith) fits_source));
      destination_written =
          is_object ∙ sym (ap (λ m. pos m) (u32_written 106 object one (omega arith) fits_object));
    }

numbers_at :
    (serial actor origin : ℤ) (target : FleetMoveTarget) (base stamped : Bytes)
    (i j source object : ℕ)
    → IsFixture target.destination_tag base
    → value_offset fleet_source_tag 4 base ≡ done i
    → value_offset (tag_bytes target.destination_tag) 4 base ≡ done j
    → stamp serial actor origin base ≡ done stamped
    → validate_u32 target.source_fleet ≡ done source
    → validate_u32 target.destination ≡ done object
    → IsFilled serial actor origin target
        (put_bytes j (to_little 4 object) (put_bytes i (to_little 4 source) stamped))
numbers_at serial actor origin target base stamped i j source object it source_at object_at stamping
      h k =
    let first = place-eq _ i 76 source_at it.source_at in
    let second = place-eq _ j 106 object_at it.target_at in
    let room = value_offset_within (tag_bytes target.destination_tag) 4 base 106 it.target_at in
    let size = length-stamp serial actor origin base stamped stamping (omega arith) in
    rw (first, second)
      (numbers_put serial actor origin target source object stamped (omega arith)
        (stamp-IsStamped serial actor origin base stamped it.actor_at it.origin_at (omega arith)
          stamping)
        h k)

-- A record that is built for a move to an object or a planet, without a template of its own, has the
-- request's actor, origin and serial and the target's fleet and destination as little-endian numbers, each
-- at the place that its tag has in the fixture: no write goes over an earlier one.
pub build_fleet_move_record-IsFilled :
    (serial actor origin : ℤ) (target : FleetMoveTarget) (bytes : Bytes)
    → build_fleet_move_record serial actor origin target [] ≡ done bytes
    → IsFilled serial actor origin target bytes
unfolding build_fleet_move_record template_or
build_fleet_move_record-IsFilled serial actor origin target bytes h =
    let (base, fixture, h₁) = >>=-eq-done (move_record target.destination_tag) _ h in
    let (found, _, h₂) = >>=-eq-done (parse_fleet_move base) _ h₁ in
    let (_, h₃) = raise_if-eq-done (not (fits_template target found)) value_error _ h₂ in
    let (i, source_at, h₄) = >>=-eq-done (value_offset fleet_source_tag 4 base) _ h₃ in
    let (j, object_at, h₅) =
      >>=-eq-done (value_offset (tag_bytes target.destination_tag) 4 base) _ h₄ in
    let (stamped, stamping, h₆) = >>=-eq-done (stamp serial actor origin base) _ h₅ in
    let (source, valid_source, h₇) = >>=-eq-done (validate_u32 target.source_fleet) _ h₆ in
    let (object, valid_object, h₈) = >>=-eq-done (validate_u32 target.destination) _ h₇ in
    let it = move_record-IsFixture target.destination_tag base fixture in
    subst (IsFilled serial actor origin target)
      (checked_move-same target
        (put_bytes j (to_little 4 object) (put_bytes i (to_little 4 source) stamped)) bytes h₈)
      (numbers_at serial actor origin target base stamped i j source object it source_at object_at
        stamping valid_source valid_object)
