-- ===== src/Orders/Handover.antt =====
-- Delivery at the customer's door, and the other endings and assignments of an order at its hub
-- (src/hub/orders/hub-orders.service.ts; drivers.service.ts for the driver's status).
use Prim.Native.String.{String}
use vikram_backend.Prelude.{
  ℕ, Bool, true, false, not, ◌&&◌, ltb, Option, some, none, List, [], ◌∷◌, ◌==◌, if◌then◌else◌,
  opt_eq, is_some, count_if, Result, ok, err,
}
use vikram_backend.Orders.Status.{OrderStatus, same_status, includes}
use vikram_backend.Orders.Drivers.{
  Driver, DriverAvailability, derive_driver_operational_status, is_driver_assignable,
  map_operational_to_stored_availability,
}
use vikram_backend.Orders.World.{
  World, Order, Vehicle, VehicleStatus, HubOperationStatus, PaymentStatus, OrderError, not_found,
  conflict, bad_request, Handler, ◌>>=◌, ◌>>◌, return, write, require, put, update_order,
  update_driver, update_vehicle, add_timeline, is_paid, is_cash,
}
use vikram_backend.Orders.Effects.{
  consume_reserved_stock, release_reserved_stock, restore_benefit, release_slot, refund_redemption,
  earn_points,
}
use vikram_backend.Orders.Hub.{
  find_hub_order, transition_order, is_out, OtpConfig, has_code, accepts, or_old,
}

-- `isCod`.
abbrev pub is_cod : Order → Bool
is_cod o = is_cash o.payment_method && not (is_paid o.payment_status)

-- The columns that `finalizeDelivery` writes; `isCod` is of the order that it read.
abbrev pub delivered_columns : ℕ → Bool → Order → Order
delivered_columns now cod o =
    let d = record o { delivered_at = some now; otp_verified = true } in
    if cod
    then record d { payment_status = PaymentStatus.collected; payment_collected_at = some now }
    else d

-- `finalizeDelivery` up to the transition, on an order that is not delivered.
abbrev pub free_fleet : ℕ → ℕ → Order → World → World
free_fleet now i o w =
    let w1 =
      update_driver o.assigned_driver
        (λ d. record d { availability = DriverAvailability.available }) w in
    let w2 =
      update_vehicle o.assigned_vehicle
        (λ v. record v { status = VehicleStatus.available; current_order = none }) w1 in
    record w2 {
      dispatch =
          put i (λ d. record d { status = HubOperationStatus.completed; completed_at = some now })
            w2.dispatch;
    }

-- The four tests of `verifyDeliveryOtp`, each of which throws the same exception: the order is out, its
-- code is there, it is not verified, and the code that was given is its own.
unfoldable pub can_verify : OtpConfig → String → Order → Bool
can_verify c provided o =
    is_out o.status
    && (has_code o.delivery_otp && is_some o.otp_generated_at)
    && not o.otp_verified
    && accepts c o.delivery_otp provided

module _ (add_months : ℕ → ℕ → ℕ) where
  -- `finalizeDelivery`.
  unfoldable pub finalize_delivery : ℕ → ℕ → ℕ → Handler (Unit {0})
  unfolding transition_order consume_reserved_stock earn_points
  finalize_delivery now hub i = do
    o ← find_hub_order hub i
    if same_status o.status OrderStatus.delivered then return tt else do
      write (free_fleet now i o)
      transition_order hub i OrderStatus.delivered (delivered_columns now (is_cod o))
      write (consume_reserved_stock hub i)
      earn_points add_months now i

  -- `deliver`.
  unfoldable pub deliver : ℕ → ℕ → ℕ → Handler (Unit {0})
  unfolding finalize_delivery
  deliver now hub i = do
    o ← find_hub_order hub i
    require o.otp_verified bad_request
    finalize_delivery now hub i

  -- `completeDelivery`.
  unfoldable pub complete_delivery : ℕ → ℕ → ℕ → Handler (Unit {0})
  unfolding finalize_delivery
  complete_delivery now hub i = do
    o ← find_hub_order hub i
    if same_status o.status OrderStatus.delivered
        then return tt
        else do require o.otp_verified bad_request; finalize_delivery now hub i

  -- `verifyDeliveryOtp`.
  unfoldable pub verify_delivery_otp :
      OtpConfig → (String → String) → String → ℕ → ℕ → ℕ → Handler (Unit {0})
  unfolding finalize_delivery can_verify
  verify_delivery_otp c trim otp now hub i = do
    o ← find_hub_order hub i
    require (can_verify c (trim otp) o) bad_request
    write (update_order i (λ x. record x { otp_verified = true }))
    write (add_timeline i o.status)
    finalize_delivery now hub i

  -- `cancel`.
  unfoldable pub cancel_order : ℕ → ℕ → ℕ → Handler (Unit {0})
  unfolding transition_order release_reserved_stock restore_benefit release_slot refund_redemption
  cancel_order now hub i = do
    write (release_reserved_stock hub i)
    transition_order hub i OrderStatus.cancelled (λ o. record o { cancelled_at = some now })
    refund_redemption add_months now i
    write (restore_benefit i)
    write (release_slot i)

-- Orders of the driver with one of these statuses: ACTIVE_TRIP_ORDER_STATUSES,
-- ASSIGNED_ORDER_STATUSES.
abbrev pub is_driven : ℕ → List OrderStatus → Option Order → Bool
is_driven d l none = false
is_driven d l (some o) = opt_eq o.assigned_driver (some d) && includes l o.status && not o.deleted

abbrev pub has_orders : World → ℕ → List OrderStatus → Bool
has_orders w d l = ltb 0 (count_if (λ j. is_driven d l (w.order j)) w.order_ids)

abbrev pub active_trip_order_statuses : List OrderStatus
active_trip_order_statuses = OrderStatus.out_for_delivery ∷ OrderStatus.dispatched ∷ []

abbrev pub assigned_order_statuses : List OrderStatus
assigned_order_statuses = OrderStatus.ready_for_dispatch ∷ OrderStatus.driver_assigned ∷ []

-- `findById(driverId, hubId)` and `assertAssignable`.
abbrev pub assignable : ℕ → ℕ → ℕ → World → Option Driver → World × Result OrderError (Unit {0})
assignable today hub k w none = (w, err not_found)
assignable today hub k w (some d) =
    if not d.deleted && d.hub_id == hub
    then (if is_driver_assignable (
          derive_driver_operational_status today d (has_orders w k active_trip_order_statuses)
            (has_orders w k assigned_order_statuses))
        then (w, ok tt)
        else (w, err conflict))
    else (w, err not_found)

unfoldable pub assert_assignable : ℕ → ℕ → ℕ → Handler (Unit {0})
unfolding derive_driver_operational_status
assert_assignable today hub k w = assignable today hub k w (w.driver k)

abbrev pub synced : ℕ → ℕ → World → Driver → Driver
synced today k w d =
    if d.deleted then d else if not d.is_active then d else if d.on_leave then d else record d {
      availability = map_operational_to_stored_availability (
          derive_driver_operational_status today d (has_orders w k active_trip_order_statuses)
            (has_orders w k assigned_order_statuses));
    }

-- `syncAvailabilityFromOrders`.
unfoldable pub sync_availability_from_orders : ℕ → ℕ → World → World
unfolding derive_driver_operational_status
sync_availability_from_orders today k w = record w { driver = put k (synced today k w) w.driver }

abbrev pub is_hub_vehicle : ℕ → Option Vehicle → Bool
is_hub_vehicle hub none = false
is_hub_vehicle hub (some v) = v.hub_id == hub && v.is_active && not v.deleted

abbrev pub vehicle_ok : ℕ → Option ℕ → World → Bool
vehicle_ok hub none w = true
vehicle_ok hub (some v) w = is_hub_vehicle hub (w.vehicle v)

abbrev pub check_vehicle : ℕ → Option ℕ → Handler (Unit {0})
check_vehicle hub v w = require (vehicle_ok hub v w) bad_request w

-- `assignDriver`.
unfoldable pub assign_driver : ℕ → ℕ → Option ℕ → ℕ → ℕ → Handler (Unit {0})
unfolding transition_order assert_assignable sync_availability_from_orders
assign_driver today driver vehicle hub i = do
  _ ← find_hub_order hub i
  assert_assignable today hub driver
  check_vehicle hub vehicle
  transition_order hub i OrderStatus.driver_assigned (λ o. record o {
    assigned_driver = some driver;
    assigned_vehicle = or_old vehicle o.assigned_vehicle;
  })
  write (sync_availability_from_orders today driver)

-- `assignVehicle`.
unfoldable pub assign_vehicle : ℕ → ℕ → ℕ → Handler (Unit {0})
unfolding find_hub_order
assign_vehicle vehicle hub i = do
  o ← find_hub_order hub i
  check_vehicle hub (some vehicle)
  write (update_order i (λ x. record x { assigned_vehicle = some vehicle }))
  write (add_timeline i o.status)
