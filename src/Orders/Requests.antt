-- ===== src/Orders/Requests.antt =====
-- Requests for a new status, at the hub (src/hub/orders/hub-orders.service.ts) and by the administrator
-- (src/admin/orders/admin-orders.service.ts), and the administrator's other operations on an order.
use Prim.Native.String.{String}
use vikram_backend.Prelude.{ℕ, Bool, false, not, ◌&&◌, ◌||◌, Option, some, none, ok, err}
use vikram_backend.Orders.Status.{
  OrderStatus, same_status, includes, order_status_transitions, resolve_status_input,
}
use vikram_backend.Orders.Drivers.{Driver}
use vikram_backend.Orders.World.{
  bad_request, Handler, ◌>>=◌, ◌>>◌, write, require, update_order, add_timeline, find_live,
}
use vikram_backend.Orders.Effects.{restore_benefit, release_slot, refund_redemption}
use vikram_backend.Orders.Hub.{
  find_hub_order, transition_order, accept, mark_picking, mark_packed, dispatch_order, found,
  or_old,
}
use vikram_backend.Orders.Handover.{deliver, cancel_order, assign_driver}

-- `UpdateStatusDto` of the hub: the status that was asked for, a driver and a vehicle.
pub record StatusRequest : Type 0 where
  pub status : String
  pub driver_id : Option ℕ
  pub vehicle_id : Option ℕ

-- `allowed.includes(next) || next === order.orderStatus`.
abbrev pub may_become : OrderStatus → OrderStatus → Bool
may_become s next = includes (order_status_transitions s) next || same_status next s

abbrev pub known : Option OrderStatus → Handler OrderStatus
known none w = (w, err bad_request)
known (some s) w = (w, ok s)

module _ (add_months : ℕ → ℕ → ℕ) where
  -- The `switch` of `updateStatus`.
  unfoldable pub perform : OrderStatus → Option ℕ → Option ℕ → ℕ → ℕ → ℕ → ℕ → Handler (Unit {0})
  unfolding accept mark_picking mark_packed assign_driver dispatch_order deliver cancel_order
      transition_order
  perform OrderStatus.accepted_by_hub driver vehicle today now hub i = accept hub i
  perform OrderStatus.picking driver vehicle today now hub i = mark_picking now hub i
  perform OrderStatus.packed driver vehicle today now hub i = mark_packed now hub i
  perform OrderStatus.driver_assigned none vehicle today now hub i = require false bad_request
  perform OrderStatus.driver_assigned (some d) vehicle today now hub i =
      assign_driver today d vehicle hub i
  perform OrderStatus.out_for_delivery driver vehicle today now hub i = dispatch_order now hub i
  perform OrderStatus.delivered driver vehicle today now hub i = deliver add_months now hub i
  perform OrderStatus.cancelled driver vehicle today now hub i = cancel_order add_months now hub i
  perform s driver vehicle today now hub i = transition_order hub i s (λ x. x)

  -- `updateStatus` of the hub.
  unfoldable pub update_status :
      (String → String) → StatusRequest → ℕ → ℕ → ℕ → ℕ → Handler (Unit {0})
  unfolding resolve_status_input perform find_hub_order order_status_transitions
  update_status to_upper_case r today now hub i = do
    next ← known (resolve_status_input to_upper_case r.status)
    o ← find_hub_order hub i
    require (may_become o.status next) bad_request
    perform next r.driver_id r.vehicle_id today now hub i

  -- `cancelOrder` of the administrator.
  unfoldable pub admin_cancel_order : ℕ → ℕ → Handler (Unit {0})
  unfolding restore_benefit release_slot refund_redemption
  admin_cancel_order now i = do
    _ ← λ w. found w (find_live w i)
    write λ w. add_timeline i OrderStatus.cancelled (
        update_order i (λ o. record o { status = OrderStatus.cancelled; cancelled_at = some now })
          w)
    refund_redemption add_months now i
    write (restore_benefit i)
    write (release_slot i)

-- `updateStatus` of the administrator.
unfoldable pub admin_update_status : (String → String) → String → ℕ → Handler (Unit {0})
unfolding resolve_status_input order_status_transitions
admin_update_status to_upper_case status i = do
  o ← λ w. found w (find_live w i)
  next ← known (resolve_status_input to_upper_case status)
  require (not (same_status next OrderStatus.delivered && not o.otp_verified)) bad_request
  require (may_become o.status next) bad_request
  write λ w. add_timeline i next (update_order i (λ x. record x { status = next }) w)

-- `assignHub`.
unfoldable pub assign_hub : ℕ → ℕ → Handler (Unit {0})
assign_hub hub i = do
  _ ← λ w. found w (find_live w i)
  write λ w.
      add_timeline i OrderStatus.hub_assigned
        (update_order i (λ o. record o { hub_id = some hub; status = OrderStatus.hub_assigned }) w)

abbrev pub is_working : Option Driver → Bool
is_working none = false
is_working (some d) = d.is_active && not d.deleted

-- `assignDriver` of the administrator.
unfoldable pub admin_assign_driver : ℕ → Option ℕ → ℕ → Handler (Unit {0})
admin_assign_driver driver vehicle i = do
  _ ← λ w. found w (find_live w i)
  (λ w. require (is_working (w.driver driver)) bad_request w)
  write λ w. add_timeline i OrderStatus.driver_assigned (
      update_order i
        (λ o. record o {
          assigned_driver = some driver;
          assigned_vehicle = or_old vehicle o.assigned_vehicle;
          status = OrderStatus.driver_assigned;
        })
        w)
