-- ===== src/Orders/Hub.antt =====
-- What a hub does to its orders (src/hub/orders/hub-orders.service.ts,
-- src/hub/repositories/hub-order.repository.ts). Who acts, remarks, photos and events are left out; the
-- random code of a delivery, `trim` and `toUpperCase` of JavaScript and the calendar are parameters.
use Prim.Native.String.{String}
use vikram_backend.Prelude.{
  ℕ, Bool, false, not, ◌&&◌, ◌||◌, Option, some, none, [], ◌∷◌, if◌then◌else◌, opt_eq, is_some,
  Result, ok, err,
}
use vikram_backend.Orders.Status.{OrderStatus, includes, text_eq}
use vikram_backend.Orders.Drivers.{DriverAvailability}
use vikram_backend.Orders.World.{
  World, Order, VehicleStatus, HubOperationStatus, OrderError, not_found, bad_request, Handler,
  ◌>>=◌, ◌>>◌, write, require, put, put_new, update_order, update_driver, update_vehicle,
  add_timeline, is_unpaid_online, is_razorpay,
}
use vikram_backend.Orders.Effects.{release_reserved_stock}

-- `hubScope`: an online order that is not paid for is not shown while it is pending or cancelled.
abbrev pub in_hub_scope : ℕ → Order → Bool
in_hub_scope hub o =
    opt_eq o.hub_id (some hub)
    && not o.deleted
    && not (
        is_razorpay o.payment_method
        && is_unpaid_online o.payment_status
        && includes (OrderStatus.pending ∷ OrderStatus.cancelled ∷ []) o.status)

abbrev pub scoped : ℕ → Option Order → Option Order
scoped hub none = none
scoped hub (some o) = if in_hub_scope hub o then some o else none

abbrev pub found : World → Option Order → World × Result OrderError Order
found w none = (w, err not_found)
found w (some o) = (w, ok o)

-- `findHubOrder`.
unfoldable pub find_hub_order : ℕ → ℕ → Handler Order
find_hub_order hub i w = found w (scoped hub (w.order i))

-- `transitionOrder`: the row, with the extra columns, and the timeline.
unfoldable pub transition_order : ℕ → ℕ → OrderStatus → (Order → Order) → Handler (Unit {0})
unfolding find_hub_order
transition_order hub i next extra = do
  _ ← find_hub_order hub i
  write λ w. add_timeline i next (update_order i (λ o. record (extra o) { status = next }) w)

-- `accept`.
unfoldable pub accept : ℕ → ℕ → Handler (Unit {0})
unfolding transition_order
accept hub i = do
  o ← find_hub_order hub i
  require
      (includes (OrderStatus.hub_assigned ∷ OrderStatus.confirmed ∷ OrderStatus.pending ∷ [])
        o.status)
      bad_request
  transition_order hub i OrderStatus.accepted_by_hub (λ x. x)

-- `reject`.
unfoldable pub reject : ℕ → ℕ → ℕ → Handler (Unit {0})
unfolding transition_order release_reserved_stock
reject now hub i = do
  write (release_reserved_stock hub i)
  transition_order hub i OrderStatus.cancelled (λ o. record o { cancelled_at = some now })

abbrev pub or_now : Option ℕ → ℕ → Option ℕ
or_now none now = some now
or_now (some t) now = some t

-- `markPicking`.
unfoldable pub mark_picking : ℕ → ℕ → ℕ → Handler (Unit {0})
unfolding transition_order
mark_picking now hub i = do
  o ← find_hub_order hub i
  write λ w. record w {
    loading =
        put_new i (λ r. record r { status = HubOperationStatus.in_progress; started_at = some now })
          (record {
            status = HubOperationStatus.in_progress;
            started_at = some now;
            completed_at = none;
          })
          w.loading;
  }
  transition_order hub i OrderStatus.picking
      (λ x. record x { loading_started_at = or_now o.loading_started_at now })

-- `markPacked`, `markReady`.
unfoldable pub mark_packed : ℕ → ℕ → ℕ → Handler (Unit {0})
unfolding transition_order
mark_packed now hub i = do
  write λ w. record w {
    loading =
        put i (λ r. record r { status = HubOperationStatus.completed; completed_at = some now })
          w.loading;
  }
  transition_order hub i OrderStatus.packed (λ x. record x { loading_completed_at = some now })

-- `markLoading`.
unfoldable pub mark_loading : ℕ → ℕ → ℕ → Handler (Unit {0})
unfolding mark_picking mark_packed
mark_loading now hub i = do
  o ← find_hub_order hub i
  if includes (OrderStatus.accepted_by_hub ∷ OrderStatus.processing ∷ []) o.status
      then mark_picking now hub i
      else mark_packed now hub i

-- `assignedDriverId ?? undefined`: an update leaves the column alone when there is none.
abbrev pub or_old : Option ℕ → Option ℕ → Option ℕ
or_old none old = old
or_old (some k) old = some k

-- `dispatch`.
unfoldable pub dispatch_order : ℕ → ℕ → ℕ → Handler (Unit {0})
unfolding transition_order
dispatch_order now hub i = do
  o ← find_hub_order hub i
  write λ w. record w {
    dispatch =
        put_new i
          (λ d. record d {
            status = HubOperationStatus.in_progress;
            dispatched_at = some now;
            driver_id = or_old o.assigned_driver d.driver_id;
            vehicle_id = or_old o.assigned_vehicle d.vehicle_id;
          })
          (record {
            status = HubOperationStatus.in_progress;
            driver_id = o.assigned_driver;
            vehicle_id = o.assigned_vehicle;
            dispatched_at = some now;
            completed_at = none;
          })
          w.dispatch;
  }
  write (
      update_driver o.assigned_driver
        (λ d. record d { availability = DriverAvailability.on_delivery }))
  write (
      update_vehicle o.assigned_vehicle
        (λ v. record v { status = VehicleStatus.out_for_delivery; current_order = some i }))
  transition_order hub i OrderStatus.out_for_delivery (λ x. record x { dispatched_at = some now })

abbrev pub is_out : OrderStatus → Bool
is_out = includes (OrderStatus.out_for_delivery ∷ OrderStatus.dispatched ∷ [])

-- `markDriverReached`.
unfoldable pub mark_driver_reached : ℕ → ℕ → ℕ → Handler (Unit {0})
unfolding find_hub_order
mark_driver_reached now hub i = do
  o ← find_hub_order hub i
  require (is_out o.status) bad_request
  require (not (is_some o.driver_reached_at)) bad_request
  write (update_order i (λ x. record x { driver_reached_at = some now }))
  write (update_vehicle o.assigned_vehicle (λ v. record v { status = VehicleStatus.reached }))
  write (add_timeline i o.status)

-- `app.env` is not production, and `otp.devBypassCode` or '123456'.
pub record OtpConfig : Type 0 where
  pub is_dev : Bool
  pub bypass : String

-- `generateDeliveryOtpCode`; `drawn` is the number drawn at random.
abbrev pub generate_delivery_otp_code : OtpConfig → String → String
generate_delivery_otp_code c drawn = if c.is_dev then c.bypass else drawn

-- `generateDeliveryOtp`.
unfoldable pub generate_delivery_otp : OtpConfig → String → ℕ → ℕ → ℕ → Handler (Unit {0})
unfolding find_hub_order
generate_delivery_otp c drawn now hub i = do
  o ← find_hub_order hub i
  require (is_out o.status) bad_request
  require (is_some o.driver_reached_at) bad_request
  require (not o.otp_verified) bad_request
  write (
      update_order i (λ x. record x {
        delivery_otp = some (generate_delivery_otp_code c drawn);
        otp_generated_at = some now;
        otp_verified = false;
      }))
  write (add_timeline i o.status)

-- A code that is there, and not the empty text.
abbrev pub has_code : Option String → Bool
has_code none = false
has_code (some s) = not (text_eq s "")

-- The code of the order, or the bypass outside production.
abbrev pub accepts : OtpConfig → Option String → String → Bool
accepts c none provided = false
accepts c (some s) provided =
    text_eq provided s || (c.is_dev && not (text_eq c.bypass "") && text_eq provided c.bypass)
