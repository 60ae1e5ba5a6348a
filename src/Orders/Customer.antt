-- ===== src/Orders/Customer.antt =====
-- Cancellation by the customer, the confirmation of a paid online order, and the release of one that
-- was never paid (src/modules/orders/orders.service.ts). Invoices, events and notifications
-- are left out, and the payment rows, which stand with the payments (Payments/Sync).
use vikram_backend.Prelude.{
  ℕ, Bool, true, false, not, ◌&&◌, Option, some, none, ◌==◌, if◌then◌else◌, find?, is_some,
}
use vikram_backend.Orders.Status.{OrderStatus, same_status, includes, cancellable_statuses}
use vikram_backend.Orders.World.{
  World, Order, PaymentStatus, bad_request, Handler, ◌>>=◌, ◌>>◌, return, write, require,
  update_order, add_timeline, find_live, is_paid, is_settled, is_unpaid_online, is_razorpay,
}
use vikram_backend.Orders.Effects.{
  release_reserved_stock, restore_benefit, release_slot, refund_redemption,
}
use vikram_backend.Orders.Hub.{found}

-- The stock goes back to the order's hub, when it has one.
abbrev pub release_at : Option ℕ → ℕ → World → World
release_at none i w = w
release_at (some hub) i w = release_reserved_stock hub i w

abbrev pub owned : ℕ → Option Order → Option Order
owned c none = none
owned c (some o) = if o.customer_id == c then some o else none

-- ConfirmPaidOrderResult.
pub data ConfirmPaidOrderResult : Type 0 where
  not_found order_cancelled already_confirmed confirmed : ConfirmPaidOrderResult

abbrev pub is_hub : Option ℕ → Bool
is_hub none = false
is_hub (some h) = true

-- `nextStatus`.
abbrev pub next_status : Order → OrderStatus
next_status o =
    if is_hub o.hub_id then OrderStatus.hub_assigned else OrderStatus.awaiting_hub_allocation

abbrev pub has_entry : ℕ → OrderStatus → World → Bool
has_entry i s w = is_some (find? (λ (j, t). j == i && same_status t s) w.timeline)

-- The two entries, when the order has none for CONFIRMED yet.
abbrev pub confirm_timeline : ℕ → OrderStatus → World → World
confirm_timeline i next w =
    if has_entry i OrderStatus.confirmed w
    then w
    else add_timeline i next (add_timeline i OrderStatus.confirmed w)

-- The transaction of `confirmPaidOrder`. It runs on the row that was read: the conditions of the
-- `updateMany` are those of the row.
abbrev pub confirm_row : ℕ → ℕ → Order → World → World × ConfirmPaidOrderResult
confirm_row now i o w =
    let next = next_status o in
    if not (is_settled o.payment_status)
    then (
      confirm_timeline i next (
          update_order i
            (λ x. record x {
              payment_status = PaymentStatus.paid;
              status = next;
              payment_collected_at = some now;
            })
            w),
      confirmed,
    )
    else if is_paid o.payment_status && same_status o.status OrderStatus.pending
    then (confirm_timeline i next (update_order i (λ x. record x { status = next }) w), confirmed)
    else (w, already_confirmed)

abbrev pub confirm_found : ℕ → ℕ → Option Order → World → World × ConfirmPaidOrderResult
confirm_found now i none w = (w, not_found)
confirm_found now i (some o) w =
    if same_status o.status OrderStatus.cancelled
    then (w, order_cancelled)
    else if is_paid o.payment_status && not (same_status o.status OrderStatus.pending)
    then (w, already_confirmed)
    else confirm_row now i o w

-- `confirmPaidOrder`.
unfoldable pub confirm_paid_order : ℕ → ℕ → World → World × ConfirmPaidOrderResult
confirm_paid_order now i w = confirm_found now i (find_live w i) w

-- The conditions of the `updateMany` of `releaseUnpaidOnlineOrder`, and that the order is online.
abbrev pub is_unpaid_checkout : Order → Bool
is_unpaid_checkout o =
    is_razorpay o.payment_method
    && same_status o.status OrderStatus.pending
    && is_unpaid_online o.payment_status

module _ (add_months : ℕ → ℕ → ℕ) where
  -- `cancel`. The loyalty points and the free delivery follow the transaction.
  unfoldable pub customer_cancel : ℕ → ℕ → ℕ → Handler (Unit {0})
  unfolding release_reserved_stock restore_benefit release_slot refund_redemption
  customer_cancel now customer i = do
    o ← λ w. found w (owned customer (find_live w i))
    require (includes cancellable_statuses o.status) bad_request
    write (release_at o.hub_id i)
    write
        (update_order i (λ x. record x { status = OrderStatus.cancelled; cancelled_at = some now }))
    write (release_slot i)
    write (add_timeline i OrderStatus.cancelled)
    refund_redemption add_months now i
    write (restore_benefit i)

  -- The release of an order that meets the conditions.
  unfoldable pub release_checkout : ℕ → ℕ → Option ℕ → Handler Bool
  unfolding release_reserved_stock restore_benefit release_slot refund_redemption
  release_checkout now i hub = do
    write (
        update_order i (λ x. record x {
          status = OrderStatus.cancelled;
          payment_status = PaymentStatus.cancelled;
          cancelled_at = some now;
        }))
    write (release_at hub i)
    write (release_slot i)
    write (add_timeline i OrderStatus.cancelled)
    refund_redemption add_months now i
    write (restore_benefit i)
    return true

  abbrev pub release_found : ℕ → ℕ → Option Order → Handler Bool
  release_found now i none = return false
  release_found now i (some o) =
      if is_unpaid_checkout o then release_checkout now i o.hub_id else return false

  -- `releaseUnpaidOnlineOrder`.
  unfoldable pub release_unpaid_online_order : ℕ → ℕ → Handler Bool
  unfolding release_checkout
  release_unpaid_online_order now i w = release_found now i (find_live w i) w
