-- ===== src/Coverage/Geo.antt =====
-- Coordinates and service radii (src/common/geo/geo.util.ts). A coordinate is a parsed number of 1e-7
-- degrees, the precision of the columns; distances and radii are in metres.
use vikram_backend.Prelude.{
  ℕ, ◌+◌, ◌*◌, ◌/◌, Bool, true, false, ◌&&◌, Option, none, some, ltb, leb, ◌==◌, if◌then◌else◌,
}
use vikram_backend.Prelude.Int.{ℤ, abs}

abbrev pub Coordinate : Type 0
Coordinate = Option ℤ

abbrev is_zero : ℤ → Bool
is_zero v = abs v == 0

-- `isValidLatitude`.
abbrev pub is_valid_latitude : ℤ → Bool
is_valid_latitude v = leb (abs v) 900000000

-- `isValidLongitude`.
abbrev pub is_valid_longitude : ℤ → Bool
is_valid_longitude v = leb (abs v) 1800000000

-- `isValidCoordinates`.
abbrev pub is_valid_coordinates : Coordinate → Coordinate → Bool
is_valid_coordinates (some lat) (some lng) =
    if is_valid_latitude lat && is_valid_longitude lng
    then (if is_zero lat && is_zero lng then false else true)
    else false
is_valid_coordinates _ _ = false

-- `isValidServiceRadiusKm`.
abbrev pub is_valid_service_radius : Option ℕ → Bool
is_valid_service_radius none = false
is_valid_service_radius (some r) = ltb 0 r

-- `roundKm`: two decimals of a kilometre.
abbrev pub round_km : ℕ → ℕ
round_km d = (d + 5) / 10 * 10

-- RADIUS_EPSILON_KM.
abbrev radius_epsilon : ℕ
radius_epsilon = 1

-- `isWithinServiceRadius`; no distance is an infinite one.
abbrev pub is_within_service_radius : Option ℕ → Option ℕ → Bool
is_within_service_radius (some d) (some r) =
    if is_valid_service_radius (some r) then leb d (r + radius_epsilon) else false
is_within_service_radius _ _ = false
