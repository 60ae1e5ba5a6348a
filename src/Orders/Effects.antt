-- ===== src/Orders/Effects.antt =====
-- What the operations on an order share: the hub's stock of its items, and the loyalty points, the
-- free delivery and the delivery slot of the order (src/hub/orders/hub-orders.service.ts, and the
-- services that it calls).
use vikram_backend.Prelude.{
  ℕ, ◌+◌, ◌-◌, Bool, true, false, not, ◌&&◌, Option, some, none, List, [], ◌∷◌, leb, ◌==◌,
  if◌then◌else◌, count_if, Result, ok, err,
}
use vikram_backend.Loyalty.Ledger.{Ledger, LoyaltyError}
use vikram_backend.Loyalty.Orders.{earn_for_delivered_order, refund_redemption_for_cancelled_order}
use vikram_backend.Delivery.Slots.Ops.{release_order_reservation}
use vikram_backend.Delivery.Benefit.{restore_free_bike_delivery}
use vikram_backend.Orders.Status.{same_status, delivered}
use vikram_backend.Orders.World.{
  World, Order, OrderItem, Stock, OrderError, Handler, to_loyalty, loyalty, find_live,
}

abbrev pub Inventory : Type 0
Inventory = ℕ → ℕ → Option Stock

abbrev pub consumed : ℕ → Stock → Stock
consumed q s = record s { reserved = s.reserved - q }

abbrev pub returned : ℕ → Stock → Stock
returned q s = record s { available = s.available + q; reserved = s.reserved - q }

-- `updateMany` of the hub's row of a product, where `reservedQty >= quantity`.
abbrev pub change_row : (ℕ → Stock → Stock) → ℕ → Bool → Option Stock → Option Stock
change_row f q false r = r
change_row f q true none = none
change_row f q true (some s) = some (if leb q s.reserved then f q s else s)

abbrev pub change_stock : (ℕ → Stock → Stock) → ℕ → OrderItem → Inventory → Inventory
change_stock f hub item inv h p =
    change_row f item.quantity (h == hub && p == item.product_id) (inv h p)

-- The loop over the items.
abbrev pub change_items : (ℕ → Stock → Stock) → ℕ → List OrderItem → Inventory → Inventory
change_items f hub [] inv = inv
change_items f hub (item ∷ items) inv = change_items f hub items (change_stock f hub item inv)

abbrev pub items_of : Option Order → List OrderItem
items_of none = []
items_of (some o) = o.items

-- `consumeReservedStock`.
unfoldable pub consume_reserved_stock : ℕ → ℕ → World → World
consume_reserved_stock hub i w = record w {
  inventory = change_items consumed hub (items_of (w.order i)) w.inventory;
}

-- `releaseReservedStock`.
unfoldable pub release_reserved_stock : ℕ → ℕ → World → World
release_reserved_stock hub i w = record w {
  inventory = change_items returned hub (items_of (w.order i)) w.inventory;
}

abbrev pub put_ledger : ℕ → Ledger → World → World
put_ledger c l w = record w { ledger = λ k. if k == c then l else w.ledger k }

abbrev pub thrown : Option LoyaltyError → Result OrderError (Unit {0})
thrown none = ok tt
thrown (some x) = err (loyalty x)

-- `restoreFreeBikeDelivery({ orderId })`.
unfoldable pub restore_benefit : ℕ → World → World
restore_benefit i w = elim (w.order i) [
  | none ↦ w
  | some o ↦ record w {
    benefits = λ k.
        if k == o.customer_id
        then (restore_free_bike_delivery i (w.benefits k)).0
        else w.benefits k;
  }
]

-- `releaseOrderReservation(orderId)`.
unfoldable pub release_slot : ℕ → World → World
release_slot i w = record w { slots = release_order_reservation i w.slots }

-- Another order of the customer, delivered.
abbrev pub is_prior : ℕ → ℕ → Option Order → ℕ → Bool
is_prior i c none j = false
is_prior i c (some o) j =
    not (j == i) && o.customer_id == c && same_status o.status delivered && not o.deleted

module _ (add_months : ℕ → ℕ → ℕ) where
  -- `refundRedemptionForCancelledOrder(orderId)`.
  unfoldable pub refund_redemption : ℕ → ℕ → Handler (Unit {0})
  refund_redemption now i w = elim (find_live w i) [
    | none ↦ (w, ok tt)
    | some o ↦
        let (l, x) =
          refund_redemption_for_cancelled_order add_months now (to_loyalty i o)
            (w.ledger o.customer_id) in
        (put_ledger o.customer_id l w, thrown x)
  ]

  -- `earnForDeliveredOrder(orderId)`.
  unfoldable pub earn_points : ℕ → ℕ → Handler (Unit {0})
  earn_points now i w = elim (find_live w i) [
    | none ↦ (w, ok tt)
    | some o ↦
        elim (earn_for_delivered_order add_months now
          (count_if (λ j. is_prior i o.customer_id (w.order j) j) w.order_ids) (to_loyalty i o)
          (w.ledger o.customer_id)) [
            | ok l ↦ (put_ledger o.customer_id l w, ok tt)
            | err x ↦ (w, err (loyalty x))
          ]
  ]
