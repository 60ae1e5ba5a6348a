-- ===== src/Orders/Availability.antt =====
-- The availability of a driver that is kept up from the orders (`syncAvailabilityFromOrders` of
-- src/modules/drivers/drivers.service.ts, src/modules/drivers/driver-status.util.ts).
use vikram_backend.Prelude.{ℕ, ◌≡◌, Bool, true, false, arith}
use vikram_backend.Orders.Drivers.{
  Driver, DriverAvailability, OperationalDriverStatus, derive_driver_operational_status,
  is_driver_assignable, is_license_expired, map_operational_to_stored_availability,
}

abbrev pub with_status : Driver → OperationalDriverStatus → Driver
with_status d s = record d { availability = map_operational_to_stored_availability s }

-- Storing the status that was derived and deriving it again, with the same orders, gives the same
-- status. But a driver who is stored as on a delivery, and is active, not on leave and licensed, stays
-- on a trip whatever orders are left: only an operation that writes AVAILABLE makes him assignable.
pub derive_lem :
    (today : ℕ) (d : Driver) (trip order : Bool)
    → let s = derive_driver_operational_status today d trip order in
      (derive_driver_operational_status today (with_status d s) trip order ≡ s)
      × (d.availability ≡ DriverAvailability.on_delivery
          → d.is_active ≡ true
          → d.on_leave ≡ false
          → is_license_expired today d.license_expiry ≡ false
          → (s ≡ OperationalDriverStatus.on_trip) × (is_driver_assignable s ≡ false))
unfolding derive_driver_operational_status
derive_lem today d trip order = (ground arith, λ a b c e. ground arith)
