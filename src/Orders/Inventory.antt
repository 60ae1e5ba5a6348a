-- ===== src/Orders/Inventory.antt =====
-- The hub's stock under cancellation and delivery (`releaseReservedStock`, `consumeReservedStock`,
-- `cancel`, `verifyDeliveryOtp` of src/hub/orders/hub-orders.service.ts).
use Prim.Native.String.{String}
use vikram_backend.Prelude.{
  ℕ, ◌+◌, ◌-◌, ◌≤◌, ◌≡◌, refl, ap, ◌∙◌, Bool, true, false, ◌&&◌, Option, some, none, List, [], ◌∷◌,
  arith, ◌==◌, Result, ok, err, Bool-cases, Option-cases, inl, inr,
}
use vikram_backend.Orders.Status.{OrderStatus, same_status}
use vikram_backend.Orders.World.{
  World, Order, OrderItem, Stock, OrderError, not_found, continue, put,
}
use vikram_backend.Orders.Effects.{
  Inventory, items_of, returned, consumed, change_row, change_stock, change_items,
  release_reserved_stock, consume_reserved_stock, restore_benefit, release_slot, refund_redemption,
}
use vikram_backend.Orders.Hub.{scoped}
use vikram_backend.Orders.Handover.{finalize_delivery, cancel_order, is_cod, delivered_columns}
use vikram_backend.Orders.Outcomes.{
  called_off, handed_over, cancel_order-eq, cancel_order-eq_err, refund_redemption-inventory,
  restore_benefit-inventory, scoped-same, finalize_delivery-eq, finalize_delivery-eq_same,
  finalize_delivery-eq_err, earn_points-inventory,
}

-- The units in a row, on the shelf or set aside.
abbrev pub units : Option Stock → ℕ
units none = 0
units (some s) = s.available + s.reserved

abbrev pub on_shelf : Option Stock → ℕ
on_shelf none = 0
on_shelf (some s) = s.available

change_row-units :
    (q : ℕ) (b : Bool) (r : Option Stock) → units (change_row returned q b r) ≡ units r
change_row-units q false r = refl
change_row-units q true none = refl
change_row-units q true (some s) = ground arith

pub change_items-units :
    (hub : ℕ) (items : List OrderItem) (inv : Inventory) (h p : ℕ)
    → units (change_items returned hub items inv h p) ≡ units (inv h p)
change_items-units hub [] inv h p = refl
change_items-units hub (x ∷ xs) inv h p =
    change_items-units hub xs (change_stock returned hub x inv) h p
    ∙ change_row-units x.quantity (h == hub && p == x.product_id) (inv h p)

change_row-on_shelf :
    (q : ℕ) (b : Bool) (r : Option Stock) → on_shelf (change_row consumed q b r) ≡ on_shelf r
change_row-on_shelf q false r = refl
change_row-on_shelf q true none = refl
change_row-on_shelf q true (some s) = ground arith

change_items-on_shelf :
    (hub : ℕ) (items : List OrderItem) (inv : Inventory) (h p : ℕ)
    → on_shelf (change_items consumed hub items inv h p) ≡ on_shelf (inv h p)
change_items-on_shelf hub [] inv h p = refl
change_items-on_shelf hub (x ∷ xs) inv h p =
    change_items-on_shelf hub xs (change_stock consumed hub x inv) h p
    ∙ change_row-on_shelf x.quantity (h == hub && p == x.product_id) (inv h p)

put-same :
    (i : ℕ) (f : Order → Order) (t : ℕ → Option Order) (o : Order)
    → t i ≡ some o
    → put i f t i ≡ some (f o)
put-same i f t o h = ground arith

module _ (am : ℕ → ℕ → ℕ) where
  ended :
      (i h p : ℕ) (r : World × Result OrderError (Unit {0}))
      → units (
          (continue {0, 0} r (λ _ v. (release_slot i (restore_benefit i v), ok tt))).0.inventory h
            p)
        ≡ units (r.0.inventory h p)
  unfolding release_slot
  ended i h p (v, ok a) = ap (λ (t : Inventory). units (t h p)) (restore_benefit-inventory i v)
  ended i h p (v, err e) = refl

  -- A cancellation at a hub, of whatever order and whether it fails or not, neither makes nor loses
  -- units of any product at any hub: it only moves them between the shelf and what is set aside.
  pub cancel_order-units :
      (now hub i : ℕ) (w : World) (h p : ℕ)
      → units ((cancel_order am now hub i w).0.inventory h p) ≡ units (w.inventory h p)
  cancel_order-units now hub i w h p =
      let moved : units ((release_reserved_stock hub i w).inventory h p) ≡ units (w.inventory h p) =
        unfold release_reserved_stock in
        (change_items-units hub (items_of (w.order i)) w.inventory h p) in
      elim (Option-cases (scoped hub (w.order i))) [
        | inl n ↦ rw (cancel_order-eq_err am now hub i w n) moved
        | inr (o, s) ↦
            let v = called_off now hub i w in
            rw (cancel_order-eq am now hub i w o s) (
              ended i h p (refund_redemption am now i v)
              ∙ ap (λ (t : Inventory). units (t h p)) (refund_redemption-inventory am now i v)
              ∙ moved)
      ]

  -- A delivery leaves the shelf of every hub as it is: it takes units only from what is set aside.
  pub finalize_delivery-on_shelf :
      (now hub i : ℕ) (w : World) (h p : ℕ)
      → on_shelf ((finalize_delivery am now hub i w).0.inventory h p) ≡ on_shelf (w.inventory h p)
  finalize_delivery-on_shelf now hub i w h p = elim (Option-cases (scoped hub (w.order i))) [
    | inl n ↦ rw (finalize_delivery-eq_err am now hub i w n) refl
    | inr (o, s) ↦ elim (Bool-cases (same_status o.status OrderStatus.delivered)) [
      | inl b ↦ rw (finalize_delivery-eq_same am now hub i w o s b) refl
      | inr b ↦
          let u = handed_over now hub i o w in
          let d = record (delivered_columns now (is_cod o) o) { status = OrderStatus.delivered } in
          let row =
            put-same i
              (λ (x : Order). record (delivered_columns now (is_cod o) x) {
                status = OrderStatus.delivered;
              })
              w.order o (scoped-same hub (w.order i) o s) in
          let taken : on_shelf (u.inventory h p) ≡ on_shelf (w.inventory h p) =
            unfold consume_reserved_stock in
            (rw row (change_items-on_shelf hub (items_of (some d)) w.inventory h p)) in
          rw (finalize_delivery-eq am now hub i w o s b)
            (ap (λ (t : Inventory). on_shelf (t h p)) (earn_points-inventory am now i u) ∙ taken)
    ]
  ]

  -- A hub that has set aside at least the quantity of an order of one product that is not in its scope,
  -- and cancels that order, is refused: the order is not found. But that many units of the product
  -- have gone back to its shelf before.
  pub cancel_elsewhere :
      (now hub i p q : ℕ) (w : World) (o : Order) (s : Stock)
      → w.order i ≡ some o
      → scoped hub (some o) ≡ none
      → o.items ≡ record { product_id = p; quantity = q } ∷ []
      → w.inventory hub p ≡ some s
      → q ≤ s.reserved
      → let (v, r) = cancel_order am now hub i w in
        (r ≡ err not_found)
        × (v.inventory hub p
            ≡ some (record { available = s.available + q; reserved = s.reserved - q }))
  cancel_elsewhere now hub i p q w o s e n items here enough =
      rw (cancel_order-eq_err am now hub i w (rw e n))
        (refl, unfold release_reserved_stock in (rw (e, items) (ground arith)))
