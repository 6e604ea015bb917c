-- ===== src/Wire/Boundary/Pages.antt =====
-- Building requests whose record needs more than one page.
use imperial_auto_governor.Common.{◌<◌, ◌≡◌, true, [], ◌∷◌, arith, length}
use imperial_auto_governor.Common.Int.{ℤ}
use imperial_auto_governor.Stream.{Bytes, byte_at, same_bytes, from_little}
use imperial_auto_governor.Wire.{fail, done, value_error, is_declared}
use imperial_auto_governor.Wire.Boundary.{application_prefix}
use imperial_auto_governor.Wire.Buildings.{BuildingTarget, build_building_record}
use imperial_auto_governor.Wire.Buildings.Sizes.{build_building_record-IsBuilt}

-- The two bytes that declare a length above a page leave no zero where the envelope has one.
two_pages :
    (bytes : Bytes)
    → is_declared bytes ≡ true
    → 256 < length bytes
    → application_prefix bytes ≡ fail value_error
unfolding is_declared application_prefix same_bytes from_little byte_at
two_pages [] declared long = absurd (ground arith)
two_pages (a ∷ []) declared long = absurd (ground arith)
two_pages (a ∷ b ∷ rest) declared long = ground arith

-- A building record whose identifier has more than 126 bytes has no application prefix:
-- `application_prefix_for_record` raises, though the builder accepts up to 255 bytes.
pub build_building_record-application_prefix :
    (serial actor origin : ℤ) (target : BuildingTarget) (bytes : Bytes)
    → build_building_record serial actor origin target ≡ done bytes
    → 126 < length target.building
    → application_prefix bytes ≡ fail value_error
build_building_record-application_prefix serial actor origin target bytes built long =
    let b = build_building_record-IsBuilt serial actor origin target bytes built in
    two_pages bytes b.declared (omega (arith, b.size))
