-- ===== src/Wire/Buildings/Sizes.antt =====
-- The building request that is built: its length, its identifier, and which of them get a prefix.
use imperial_auto_governor.Common.{
  ℕ, ◌+◌, ◌≤◌, ◌≡◌, refl, sym, ap, ◌∙◌, true, false, not, ◌&&◌, ◌||◌, [], ◌∷◌, arith, length, drop,
  length-append, leb,
}
use imperial_auto_governor.Common.Int.{ℤ, pos, eqb_ℤ}
use imperial_auto_governor.Stream.{Bytes, slice, from_little, same_bytes, starts_with}
use imperial_auto_governor.Wire.{
  Outcome, value_error, runtime_error, done, ◌>>=◌, >>=-eq-done, raise_if-eq-done, context_tag,
  build_queue_tag, building_tag, colony_tag, zone_tag, command_family, to_little, put_bytes,
  value_offset, only_offset, set_tagged_u32, stamp, is_declared, ascii,
}
use imperial_auto_governor.Stream.Commands.{offsets_of}
use imperial_auto_governor.Wire.Sizes.{length-set_tagged_u32, length-stamp}
use imperial_auto_governor.Wire.Buildings.{
  BuildingTarget, building_prefix, research_lab_record, building_id, resized_at, resized,
  fill_target, checked_building, encoded_building, checked_fixture, fixture_checks, filled_building,
  build_building_record,
}

bytes-eq : (a b : Bytes) → ◌≡◌ {A = Outcome Bytes} (done a) (done b) → a ≡ b
bytes-eq a b h = cc

length-resized_at :
    (encoded : Bytes) → length (resized_at research_lab_record encoded 102) ≡ 130 + length encoded
unfolding resized_at put_bytes to_little from_little
length-resized_at encoded = ground (arith, length-append encoded (drop 127 research_lab_record))

fixture_offset : value_offset building_tag 2 research_lab_record ≡ done 102
unfolding value_offset only_offset offsets_of starts_with
fixture_offset = refl

resized_known :
    (encoded : Bytes) → resized encoded ≡ done (resized_at research_lab_record encoded 102)
unfolding resized
resized_known encoded =
    ap (λ (x : Outcome ℕ). x >>= λ o. done (resized_at research_lab_record encoded o))
      fixture_offset

length-resized :
    (encoded after : Bytes) → resized encoded ≡ done after → length after ≡ 130 + length encoded
length-resized encoded after h =
    ap length (sym (bytes-eq _ after (sym (resized_known encoded) ∙ h))) ∙ length-resized_at encoded

length-fill_target :
    (target : BuildingTarget) (bytes after : Bytes)
    → fill_target target bytes ≡ done after
    → length after ≡ length bytes
unfolding fill_target
length-fill_target target bytes after h =
    let (b₁, e₁, h₁) = >>=-eq-done (set_tagged_u32 context_tag target.context bytes) _ h in
    let (b₂, e₂, h₂) = >>=-eq-done (set_tagged_u32 build_queue_tag target.build_queue b₁) _ h₁ in
    let (b₃, e₃, h₃) = >>=-eq-done (set_tagged_u32 colony_tag target.colony b₂) _ h₂ in
    length-set_tagged_u32 zone_tag target.zone b₃ after h₃
    ∙ (length-set_tagged_u32 colony_tag target.colony b₂ b₃ e₃
        ∙ (length-set_tagged_u32 build_queue_tag target.build_queue b₁ b₂ e₂
            ∙ length-set_tagged_u32 context_tag target.context bytes b₁ e₁))

pub same_bytes-eq : (a b : Bytes) → not (same_bytes a b) ≡ false → a ≡ b
unfolding same_bytes
same_bytes-eq [] [] h = refl
same_bytes-eq [] (b ∷ bs) h = absurd (ground arith)
same_bytes-eq (a ∷ xs) [] h = absurd (ground arith)
same_bytes-eq (a ∷ xs) (b ∷ ys) h =
    let tails : xs ≡ ys = same_bytes-eq xs ys (ground arith) in
    let heads : a ≡ b = ground arith in rw (heads, tails) refl

checked_cases :
    (target : BuildingTarget) (bytes after : Bytes)
    → checked_building target bytes ≡ done after
    → (after ≡ bytes) × (is_declared bytes ≡ true) × (building_id bytes ≡ done target.building)
unfolding checked_building
checked_cases target bytes after h =
    let (id, found, h₁) = >>=-eq-done (building_id bytes) _ h in
    let (same, h₂) = raise_if-eq-done (not (same_bytes id target.building)) _ _ h₁ in
    let (declared, h₃) = raise_if-eq-done (not (is_declared bytes)) _ _ h₂ in
    (
      sym (bytes-eq bytes after h₃),
      ground arith,
      found ∙ ap (λ (t : Bytes). done t) (same_bytes-eq id target.building same),
    )

ascii-eq : (text encoded : Bytes) → ascii text ≡ done encoded → encoded ≡ text
unfolding ascii
ascii-eq text encoded h = ground arith

encoded_building-eq :
    (origin : ℤ) (building encoded : Bytes)
    → encoded_building origin building ≡ done encoded
    → encoded ≡ building
unfolding encoded_building
encoded_building-eq origin building encoded h =
    let (_, h₁) =
      raise_if-eq-done (not (eqb_ℤ origin (pos 0) || eqb_ℤ origin (pos 1))) value_error _ h in
    let (text, coded, h₂) = >>=-eq-done (ascii building) _ h₁ in
    let (_, h₃) = raise_if-eq-done (not (starts_with building_prefix building)) value_error _ h₂ in
    let (_, h₄) =
      raise_if-eq-done (not (leb 1 (length text) && leb (length text) 255)) value_error (done text)
        h₃ in
    sym (bytes-eq text encoded h₄) ∙ ascii-eq building text coded

fixture_checks-eq : (fixture after : Bytes) → fixture_checks fixture ≡ done after → fixture ≡ after
unfolding fixture_checks
fixture_checks-eq fixture after h =
    let (_, h₁) =
      raise_if-eq-done (not (same_bytes (slice 6 12 fixture) command_family)) runtime_error _ h in
    let (_, h₂) = raise_if-eq-done (not (is_declared fixture)) runtime_error (done fixture) h₁ in
    bytes-eq fixture after h₂

length-checked_fixture :
    (encoded after : Bytes)
    → checked_fixture encoded ≡ done after
    → length after ≡ 130 + length encoded
unfolding checked_fixture
length-checked_fixture encoded after h =
    let (fixture, sized, h₁) = >>=-eq-done (resized encoded) fixture_checks h in
    ap length (sym (fixture_checks-eq fixture after h₁)) ∙ length-resized encoded fixture sized

long_fixture : (encoded after : Bytes) → checked_fixture encoded ≡ done after → 62 ≤ length after
long_fixture encoded after h = omega (arith, length-checked_fixture encoded after h)

-- A built record.
pub record IsBuilt (target : BuildingTarget) (bytes : Bytes) : Type 0 where
  pub size : length bytes ≡ 130 + length target.building
  pub declared : is_declared bytes ≡ true
  pub identifier : building_id bytes ≡ done target.building

-- A record that `build_building_record` returns is 130 bytes longer than the identifier, declares its
-- length, and holds the identifier of the target.
pub build_building_record-IsBuilt :
    (serial actor origin : ℤ) (target : BuildingTarget) (bytes : Bytes)
    → build_building_record serial actor origin target ≡ done bytes
    → IsBuilt target bytes
unfolding build_building_record filled_building
build_building_record-IsBuilt serial actor origin target bytes h =
    let (encoded, coded, h₁) = >>=-eq-done (encoded_building origin target.building) _ h in
    let (fixture, sized, h₂) =
      >>=-eq-done (checked_fixture encoded) (filled_building serial actor origin target) h₁ in
    let (stamped, stamps, h₃) = >>=-eq-done (stamp serial actor origin fixture) _ h₂ in
    let (filled, fills, h₄) =
      >>=-eq-done (fill_target target stamped) (checked_building target) h₃ in
    let (same, declares, id) = checked_cases target filled bytes h₄ in
    let fixture_size : length fixture ≡ 130 + length target.building =
      length-checked_fixture encoded fixture sized
      ∙ ap (λ (t : Bytes). 130 + length t)
          (encoded_building-eq origin target.building encoded coded) in
    record {
      size =
          ap length same
          ∙ (length-fill_target target stamped filled fills
              ∙ (length-stamp serial actor origin fixture stamped stamps
                    (long_fixture encoded fixture sized)
                  ∙ fixture_size));
      declared = rw same declares;
      identifier = rw same id;
    }
