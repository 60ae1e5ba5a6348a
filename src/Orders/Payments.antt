-- ===== src/Orders/Payments.antt =====
-- Payment and release of an online order are exclusive, and each happens once
-- (`confirmPaidOrder`, `releaseUnpaidOnlineOrder` of src/modules/orders/orders.service.ts).
use vikram_backend.Prelude.{
  ℕ, ◌≡◌, refl, ap, sym, ◌∙◌, true, false, Option, some, none, arith, Result, ok, err, Bool-cases,
  Option-cases, inl, inr,
}
use vikram_backend.Orders.Status.{OrderStatus}
use vikram_backend.Orders.World.{
  World, Order, OrderError, PaymentStatus, find_live, unless_deleted, put, update_order,
  add_timeline, continue,
}
use vikram_backend.Orders.Effects.{
  refund_redemption, release_slot, restore_benefit, release_reserved_stock,
}
use vikram_backend.Orders.Outcomes.{refund_redemption-order, restore_benefit-order}
use vikram_backend.Orders.Customer.{
  release_at, release_checkout, release_found, is_unpaid_checkout, confirm_paid_order,
  release_unpaid_online_order, ConfirmPaidOrderResult, confirmed, already_confirmed,
  order_cancelled,
}

-- What a second confirmation answers.
abbrev pub again : ConfirmPaidOrderResult → ConfirmPaidOrderResult
again confirmed = already_confirmed
again r = r

-- A confirmation that is repeated, as a webhook repeats it, changes nothing: the answer is that of the
-- first one, or that the order was confirmed already.
pub confirm_paid_order_once :
    (now later i : ℕ) (w : World)
    → let (v, r) = confirm_paid_order now i w in confirm_paid_order later i v ≡ (v, again r)
unfolding confirm_paid_order
confirm_paid_order_once now later i w = ground arith

-- After an order was confirmed as paid, the release of unpaid orders does not touch it.
pub release-confirm :
    (am : ℕ → ℕ → ℕ) (now later i : ℕ) (w v : World)
    → confirm_paid_order now i w ≡ (v, confirmed)
    → release_unpaid_online_order am later i v ≡ (v, ok false)
unfolding confirm_paid_order release_unpaid_online_order
release-confirm am now later i w v h = ground arith

abbrev released_columns : ℕ → Order → Order
released_columns now x = record x {
  status = OrderStatus.cancelled;
  payment_status = PaymentStatus.cancelled;
  cancelled_at = some now;
}

release_at-order : (h : Option ℕ) (i : ℕ) (w : World) → (release_at h i w).order ≡ w.order
unfolding release_reserved_stock
release_at-order none i w = refl
release_at-order (some h) i w = refl

-- The tables of a release before points come back.
abbrev let_go : ℕ → ℕ → Option ℕ → World → World
let_go now i hub w =
    add_timeline i OrderStatus.cancelled
      (release_slot i (release_at hub i (update_order i (released_columns now) w)))

restored-order :
    (i : ℕ) (r : World × Result OrderError (Unit {0}))
    → (continue {0, 0} r (λ _ v. (restore_benefit i v, ok true))).0.order ≡ r.0.order
restored-order i (v, ok a) = restore_benefit-order i v
restored-order i (v, err e) = refl

-- Whatever a release does to the other tables, of the orders it changes this one alone.
release_checkout-order :
    (am : ℕ → ℕ → ℕ) (now i : ℕ) (hub : Option ℕ) (w : World)
    → (release_checkout am now i hub w).0.order ≡ put i (released_columns now) w.order
unfolding release_checkout release_slot
release_checkout-order am now i hub w =
    let v = let_go now i hub w in
    restored-order i (refund_redemption am now i v)
    ∙ refund_redemption-order am now i v
    ∙ release_at-order hub i (update_order i (released_columns now) w)

-- A row that was released is no unpaid checkout any more.
put-released :
    (now i : ℕ) (t : ℕ → Option Order) (o : Order)
    → unless_deleted (put i (released_columns now) t i) ≡ some o
    → is_unpaid_checkout o ≡ false
put-released now i t o h = ground arith

released-found :
    (am : ℕ → ℕ → ℕ) (now later i : ℕ) (t : ℕ → Option Order) (v : World)
    → v.order ≡ put i (released_columns now) t
    → release_found am later i (unless_deleted (v.order i)) v ≡ (v, ok false)
released-found am now later i t v e = elim (Option-cases (unless_deleted (v.order i))) [
  | inl n ↦ rw n refl
  | inr (o, n) ↦
      let same : v.order i ≡ put i (released_columns now) t i =
        ap (λ (k : ℕ → Option Order). k i) e in
      let done : is_unpaid_checkout o ≡ false =
        put-released now i t o (ap unless_deleted (sym same) ∙ n) in
      rw (n, done) refl
]

-- A release that is repeated, changes nothing the second time and
-- answers that nothing was released, whatever the first one did, errors included.
pub release_unpaid_online_order_once :
    (am : ℕ → ℕ → ℕ) (now later i : ℕ) (w : World)
    → let v = (release_unpaid_online_order am now i w).0 in
      release_unpaid_online_order am later i v ≡ (v, ok false)
unfolding release_unpaid_online_order
release_unpaid_online_order_once am now later i w = elim (Option-cases (find_live w i)) [
  | inl n ↦ rw (n, n) refl
  | inr (o, n) ↦ elim (Bool-cases (is_unpaid_checkout o)) [
    | inr b ↦ rw (n, b, n, b) refl
    | inl b ↦
        rw (n, b)
          (released-found am now later i w.order (release_checkout am now i o.hub_id w).0
            (release_checkout-order am now i o.hub_id w))
  ]
]

-- The released row, of an order that is not deleted, is cancelled.
put-cancelled :
    (now i : ℕ) (t : ℕ → Option Order) (o : Order)
    → unless_deleted (t i) ≡ some o
    → unless_deleted (put i (released_columns now) t i) ≡ some (released_columns now o)
put-cancelled now i t o h = ground arith

-- After the release of an unpaid order, a payment that arrives late is answered by ORDER_CANCELLED and
-- changes nothing: the order is not revived.
pub confirm-release :
    (am : ℕ → ℕ → ℕ) (now later i : ℕ) (w : World) (o : Order)
    → find_live w i ≡ some o
    → is_unpaid_checkout o ≡ true
    → let v = (release_unpaid_online_order am now i w).0 in
      confirm_paid_order later i v ≡ (v, order_cancelled)
unfolding release_unpaid_online_order confirm_paid_order
confirm-release am now later i w o n b =
    let v = (release_checkout am now i o.hub_id w).0 in
    let row : find_live v i ≡ some (released_columns now o) =
      ap (λ (k : ℕ → Option Order). unless_deleted (k i))
        (release_checkout-order am now i o.hub_id w)
      ∙ put-cancelled now i w.order o n in
    rw (n, b, row) refl
