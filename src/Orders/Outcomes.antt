-- ===== src/Orders/Outcomes.antt =====
-- What the endings of an order at its hub leave, as one world each
-- (`finalizeDelivery` and `cancel` of src/hub/orders/hub-orders.service.ts).
use vikram_backend.Prelude.{
  ℕ, ◌≡◌, refl, ap, true, false, Option, some, none, arith, Result, ok, err,
}
use vikram_backend.Orders.Status.{OrderStatus, same_status}
use vikram_backend.Orders.World.{
  World, Order, OrderError, not_found, add_timeline, update_order, continue, write, ◌>>◌,
}
use vikram_backend.Orders.Effects.{
  refund_redemption, earn_points, restore_benefit, release_slot, release_reserved_stock,
  consume_reserved_stock,
}
use vikram_backend.Orders.Hub.{find_hub_order, transition_order, scoped}
use vikram_backend.Orders.Handover.{
  finalize_delivery, cancel_order, free_fleet, delivered_columns, is_cod,
}

pub restore_benefit-order : (i : ℕ) (w : World) → (restore_benefit i w).order ≡ w.order
unfolding restore_benefit
restore_benefit-order i w = ground arith

pub restore_benefit-inventory : (i : ℕ) (w : World) → (restore_benefit i w).inventory ≡ w.inventory
unfolding restore_benefit
restore_benefit-inventory i w = ground arith

-- A row in the hub's scope is the row of the table.
pub scoped-same : (hub : ℕ) (r : Option Order) (o : Order) → scoped hub r ≡ some o → r ≡ some o
scoped-same hub none o e = cc
scoped-same hub (some x) o e = ground arith

-- The world of a delivery before points are earned.
abbrev pub handed_over : ℕ → ℕ → ℕ → Order → World → World
handed_over now hub i o w = consume_reserved_stock hub i (
    add_timeline i OrderStatus.delivered (
      update_order i
        (λ x. record (delivered_columns now (is_cod o) x) { status = OrderStatus.delivered })
        (free_fleet now i o w)))

-- The world of a cancellation before points come back.
abbrev pub called_off : ℕ → ℕ → ℕ → World → World
called_off now hub i w = add_timeline i OrderStatus.cancelled (
    update_order i (λ x. record x { status = OrderStatus.cancelled; cancelled_at = some now })
      (release_reserved_stock hub i w))

pub transition-eq :
    (hub i : ℕ) (next : OrderStatus) (extra : Order → Order) (w : World) (o : Order)
    → scoped hub (w.order i) ≡ some o
    → transition_order hub i next extra w
      ≡ (add_timeline i next (update_order i (λ x. record (extra x) { status = next }) w), ok tt)
unfolding transition_order find_hub_order
transition-eq hub i next extra w o h = rw h refl

pub transition-eq_err :
    (hub i : ℕ) (next : OrderStatus) (extra : Order → Order) (w : World)
    → scoped hub (w.order i) ≡ none
    → transition_order hub i next extra w ≡ (w, err not_found)
unfolding transition_order find_hub_order
transition-eq_err hub i next extra w h = rw h refl

module _ (am : ℕ → ℕ → ℕ) where
  pub refund_redemption-order :
      (now i : ℕ) (w : World) → (refund_redemption am now i w).0.order ≡ w.order
  unfolding refund_redemption
  refund_redemption-order now i w = ground arith

  pub refund_redemption-inventory :
      (now i : ℕ) (w : World) → (refund_redemption am now i w).0.inventory ≡ w.inventory
  unfolding refund_redemption
  refund_redemption-inventory now i w = ground arith

  pub earn_points-order : (now i : ℕ) (w : World) → (earn_points am now i w).0.order ≡ w.order
  unfolding earn_points
  earn_points-order now i w = ground arith

  pub earn_points-inventory :
      (now i : ℕ) (w : World) → (earn_points am now i w).0.inventory ≡ w.inventory
  unfolding earn_points
  earn_points-inventory now i w = ground arith

  -- A delivery of an order that is not delivered: the handover, and then the points.
  pub finalize_delivery-eq :
      (now hub i : ℕ) (w : World) (o : Order)
      → scoped hub (w.order i) ≡ some o
      → same_status o.status OrderStatus.delivered ≡ false
      → finalize_delivery am now hub i w ≡ earn_points am now i (handed_over now hub i o w)
  unfolding finalize_delivery find_hub_order
  finalize_delivery-eq now hub i w o h d =
      let t =
        transition-eq hub i OrderStatus.delivered (delivered_columns now (is_cod o))
          (free_fleet now i o w) o h in
      rw (h, d)
        (ap
          (λ (r : World × Result OrderError (Unit {0})).
            continue r (λ _. write (consume_reserved_stock hub i) >> earn_points am now i))
          t)

  -- A delivery of an order that is delivered does nothing.
  pub finalize_delivery-eq_same :
      (now hub i : ℕ) (w : World) (o : Order)
      → scoped hub (w.order i) ≡ some o
      → same_status o.status OrderStatus.delivered ≡ true
      → finalize_delivery am now hub i w ≡ (w, ok tt)
  unfolding finalize_delivery find_hub_order
  finalize_delivery-eq_same now hub i w o h d = rw (h, d) refl

  pub finalize_delivery-eq_err :
      (now hub i : ℕ) (w : World)
      → scoped hub (w.order i) ≡ none
      → finalize_delivery am now hub i w ≡ (w, err not_found)
  unfolding finalize_delivery find_hub_order
  finalize_delivery-eq_err now hub i w h = rw h refl

  pub cancel_order-eq :
      (now hub i : ℕ) (w : World) (o : Order)
      → scoped hub (w.order i) ≡ some o
      → cancel_order am now hub i w
        ≡ continue
            (refund_redemption am now i (called_off now hub i w))
            (λ _ v. (release_slot i (restore_benefit i v), ok tt))
  unfolding cancel_order find_hub_order transition_order release_reserved_stock
  cancel_order-eq now hub i w o h = rw h refl

  -- The stock goes back before the order is looked for.
  pub cancel_order-eq_err :
      (now hub i : ℕ) (w : World)
      → scoped hub (w.order i) ≡ none
      → cancel_order am now hub i w ≡ (release_reserved_stock hub i w, err not_found)
  unfolding cancel_order find_hub_order transition_order release_reserved_stock
  cancel_order-eq_err now hub i w h = rw h refl
