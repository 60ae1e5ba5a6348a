-- ===== src/Orders/Drivers.antt =====
-- The operational status of a driver (src/modules/drivers/driver-status.util.ts). A licence expires on
-- a day; days are numbers, and `today` is the day of the call.
use vikram_backend.Prelude.{ℕ, Bool, true, false, not, ◌||◌, Option, some, none, ltb, if◌then◌else◌}

-- DriverAvailability (prisma/schema.prisma).
pub data DriverAvailability : Type 0 where
  available assigned on_delivery on_leave off_duty inactive suspended blocked : DriverAvailability

-- OperationalDriverStatus.
pub data OperationalDriverStatus : Type 0 where
  available assigned on_trip on_leave inactive suspended blocked : OperationalDriverStatus

pub record Driver : Type 0 where
  pub hub_id : ℕ
  pub is_active : Bool
  pub on_leave : Bool
  pub deleted : Bool
  pub availability : DriverAvailability
  pub license_expiry : Option ℕ

-- `isLicenseExpired`, for a date that parses.
abbrev pub is_license_expired : ℕ → Option ℕ → Bool
is_license_expired today none = false
is_license_expired today (some day) = ltb day today

-- The tests on `availability`.
abbrev pub is_inactive : DriverAvailability → Bool
is_inactive DriverAvailability.inactive = true
is_inactive _ = false

abbrev pub is_suspended : DriverAvailability → Bool
is_suspended DriverAvailability.suspended = true
is_suspended _ = false

abbrev pub is_leave : DriverAvailability → Bool
is_leave DriverAvailability.on_leave = true
is_leave DriverAvailability.off_duty = true
is_leave _ = false

abbrev pub is_blocked : DriverAvailability → Bool
is_blocked DriverAvailability.blocked = true
is_blocked _ = false

abbrev pub is_on_delivery : DriverAvailability → Bool
is_on_delivery DriverAvailability.on_delivery = true
is_on_delivery _ = false

abbrev pub is_assigned : DriverAvailability → Bool
is_assigned DriverAvailability.assigned = true
is_assigned _ = false

-- `deriveDriverOperationalStatus`.
unfoldable pub derive_driver_operational_status : ℕ → Driver → Bool → Bool → OperationalDriverStatus
derive_driver_operational_status today d has_active_trip has_assigned_order =
    if not d.is_active || is_inactive d.availability
    then OperationalDriverStatus.inactive
    else if is_suspended d.availability
    then OperationalDriverStatus.suspended
    else if d.on_leave || is_leave d.availability
    then OperationalDriverStatus.on_leave
    else if is_license_expired today d.license_expiry || is_blocked d.availability
    then OperationalDriverStatus.blocked
    else if has_active_trip || is_on_delivery d.availability
    then OperationalDriverStatus.on_trip
    else if has_assigned_order || is_assigned d.availability
    then OperationalDriverStatus.assigned
    else OperationalDriverStatus.available

-- `isDriverAssignable`.
abbrev pub is_driver_assignable : OperationalDriverStatus → Bool
is_driver_assignable OperationalDriverStatus.available = true
is_driver_assignable OperationalDriverStatus.assigned = true
is_driver_assignable _ = false

-- `mapOperationalToStoredAvailability`.
abbrev pub map_operational_to_stored_availability : OperationalDriverStatus → DriverAvailability
map_operational_to_stored_availability OperationalDriverStatus.on_trip =
    DriverAvailability.on_delivery
map_operational_to_stored_availability OperationalDriverStatus.assigned =
    DriverAvailability.assigned
map_operational_to_stored_availability OperationalDriverStatus.on_leave =
    DriverAvailability.on_leave
map_operational_to_stored_availability OperationalDriverStatus.inactive =
    DriverAvailability.inactive
map_operational_to_stored_availability OperationalDriverStatus.suspended =
    DriverAvailability.suspended
map_operational_to_stored_availability OperationalDriverStatus.blocked = DriverAvailability.blocked
map_operational_to_stored_availability OperationalDriverStatus.available =
    DriverAvailability.available
