-- ===== src/Orders/Otp.antt =====
-- Locked orders under the operations that end an order or assign it
-- (src/hub/orders/hub-orders.service.ts, src/admin/orders/admin-orders.service.ts,
-- src/modules/orders/orders.service.ts).
use Prim.Native.String.{String}
use vikram_backend.Prelude.{
  ℕ, ◌≡◌, ap, sym, ◌∙◌, ==_iff, true, false, Option, some, arith, ◌==◌, Result, ok, err, Bool-cases,
  Option-cases, inl, inr,
}
use vikram_backend.Orders.Status.{OrderStatus, same_status}
use vikram_backend.Orders.World.{World, Order, OrderError, continue, add_timeline, update_order}
use vikram_backend.Orders.Effects.{
  refund_redemption, restore_benefit, release_slot, release_reserved_stock, consume_reserved_stock,
}
use vikram_backend.Orders.Hub.{find_hub_order, transition_order, OtpConfig, accepts, scoped}
use vikram_backend.Orders.Handover.{
  finalize_delivery, deliver, complete_delivery, verify_delivery_otp, cancel_order, assign_driver,
  can_verify, assign_vehicle, assert_assignable, sync_availability_from_orders,
}
use vikram_backend.Orders.Requests.{assign_hub, admin_assign_driver}
use vikram_backend.Orders.Customer.{confirm_paid_order}
use vikram_backend.Orders.Outcomes.{
  handed_over, called_off, finalize_delivery-eq, finalize_delivery-eq_same,
  finalize_delivery-eq_err, cancel_order-eq, scoped-same, cancel_order-eq_err, earn_points-order,
  refund_redemption-order, restore_benefit-order,
}
use vikram_backend.Orders.Locks.{IsLocked, is_locked, Keeps}

-- A table with the same orders.
same_orders :
    (j : ℕ) (t t' : ℕ → Option Order) → t ≡ t' → is_locked (t' j) ≡ true → is_locked (t j) ≡ true
same_orders j t t' e l = rw e l

-- The end of a cancellation.
ended :
    (j i : ℕ) (r : World × Result OrderError (Unit {0}))
    → IsLocked j r.0
    → IsLocked j (continue {0, 0} r (λ _ v. (release_slot i (restore_benefit i v), ok tt))).0
unfolding release_slot
ended j i (v, ok a) k = same_orders j _ v.order (restore_benefit-order i v) k
ended j i (v, err e) k = k

can_verify-accepts :
    (c : OtpConfig) (provided : String) (o : Order)
    → can_verify c provided o ≡ true
    → accepts c o.delivery_otp provided ≡ true
unfolding can_verify
can_verify-accepts c provided o h = elim (Bool-cases (accepts c o.delivery_otp provided)) [
  | inl a ↦ a
  | inr a ↦ ground arith
]

-- An order that is verified with its own code is not one whose code it is not.
another :
    (j hub i : ℕ) (w : World) (o : Order) (c : OtpConfig) (provided : String)
    → scoped hub (w.order i) ≡ some o
    → can_verify c provided o ≡ true
    → (w.order j ≡ some o → (i == j) ≡ true → accepts c o.delivery_otp provided ≡ false)
    → (i == j) ≡ false
another j hub i w o c provided s b h = elim (Bool-cases (i == j)) [
  | inr e ↦ e
  | inl e ↦
      let same : w.order i ≡ some o = scoped-same hub (w.order i) o s in
      let i≡j : i ≡ j = (==_iff i j).0 e in
      let no_code : accepts c o.delivery_otp provided ≡ false = h (ap w.order (sym i≡j) ∙ same) e in
      let code = can_verify-accepts c provided o b in cc
]

module _ (am : ℕ → ℕ → ℕ) where
  -- An order other than the one that is delivered.
  finalize_delivery-Keeps :
      (j now hub i : ℕ) (w : World)
      → (i == j) ≡ false
      → IsLocked j w
      → IsLocked j (finalize_delivery am now hub i w).0
  finalize_delivery-Keeps j now hub i w d l = elim (Option-cases (scoped hub (w.order i))) [
    | inl n ↦ rw (finalize_delivery-eq_err am now hub i w n) l
    | inr (o, s) ↦ elim (Bool-cases (same_status o.status OrderStatus.delivered)) [
      | inl b ↦ rw (finalize_delivery-eq_same am now hub i w o s b) l
      | inr b ↦
          let v = handed_over now hub i o w in
          rw (finalize_delivery-eq am now hub i w o s b) (
            same_orders j _ v.order (earn_points-order am now i v)
              (unfold consume_reserved_stock in (ground arith)))
    ]
  ]

  pub deliver-Keeps : (j now hub i : ℕ) → Keeps j (deliver am now hub i)
  unfolding deliver find_hub_order
  deliver-Keeps j now hub i w l = elim (Option-cases (scoped hub (w.order i))) [
    | inl n ↦ rw n l
    | inr (o, s) ↦ elim (Bool-cases o.otp_verified) [
      | inr b ↦ rw (s, b) l
      | inl b ↦ rw (s, b) (finalize_delivery-Keeps j now hub i w (ground arith) l)
    ]
  ]

  pub complete_delivery-Keeps : (j now hub i : ℕ) → Keeps j (complete_delivery am now hub i)
  unfolding complete_delivery find_hub_order
  complete_delivery-Keeps j now hub i w l = elim (Option-cases (scoped hub (w.order i))) [
    | inl n ↦ rw n l
    | inr (o, s) ↦ elim (Bool-cases (same_status o.status OrderStatus.delivered)) [
      | inl d ↦ rw (s, d) l
      | inr d ↦ elim (Bool-cases o.otp_verified) [
        | inr b ↦ rw (s, d, b) l
        | inl b ↦ rw (s, d, b) (finalize_delivery-Keeps j now hub i w (ground arith) l)
      ]
    ]
  ]

  called_off-Keeps :
      (j now hub i : ℕ) (w : World) → IsLocked j w → IsLocked j (called_off now hub i w)
  unfolding release_reserved_stock
  called_off-Keeps j now hub i w l = ground arith

  pub cancel_order-Keeps : (j now hub i : ℕ) → Keeps j (cancel_order am now hub i)
  cancel_order-Keeps j now hub i w l = elim (Option-cases (scoped hub (w.order i))) [
    | inl n ↦ rw (cancel_order-eq_err am now hub i w n) (unfold release_reserved_stock in l)
    | inr (o, s) ↦
        let v = called_off now hub i w in
        rw (cancel_order-eq am now hub i w o s) (
          ended j i (refund_redemption am now i v) (
            same_orders j _ v.order (refund_redemption-order am now i v)
              (called_off-Keeps j now hub i w l)))
  ]

  -- A verification of another order, or with a code that is not the order's.
  pub verify_delivery_otp-Keeps :
      (j : ℕ) (c : OtpConfig) (trim : String → String) (otp : String) (now hub i : ℕ) (w : World)
      → ((o : Order)
          → w.order j ≡ some o
          → (i == j) ≡ true
          → accepts c o.delivery_otp (trim otp) ≡ false)
      → IsLocked j w
      → IsLocked j (verify_delivery_otp am c trim otp now hub i w).0
  unfolding verify_delivery_otp find_hub_order
  verify_delivery_otp-Keeps j c trim otp now hub i w h l =
      elim (Option-cases (scoped hub (w.order i))) [
        | inl n ↦ rw n l
        | inr (o, s) ↦ elim (Bool-cases (can_verify c (trim otp) o)) [
          | inr b ↦ rw (s, b) l
          | inl b ↦
              let other : (i == j) ≡ false = another j hub i w o c (trim otp) s b (h o) in
              let v =
                add_timeline i o.status
                  (update_order i (λ x. record x { otp_verified = true }) w) in
              rw (s, b) (finalize_delivery-Keeps j now hub i v other (ground arith))
        ]
      ]

pub assign_vehicle-Keeps : (j vehicle hub i : ℕ) → Keeps j (assign_vehicle vehicle hub i)
unfolding assign_vehicle find_hub_order
assign_vehicle-Keeps j vehicle hub i w l = ground arith

pub assign_hub-Keeps : (j hub i : ℕ) → Keeps j (assign_hub hub i)
unfolding assign_hub
assign_hub-Keeps j hub i w l = ground arith

pub admin_assign_driver-Keeps :
    (j driver : ℕ) (vehicle : Option ℕ) (i : ℕ) → Keeps j (admin_assign_driver driver vehicle i)
unfolding admin_assign_driver
admin_assign_driver-Keeps j driver vehicle i w l = ground arith

pub assign_driver-Keeps :
    (j today driver : ℕ) (vehicle : Option ℕ) (hub i : ℕ)
    → Keeps j (assign_driver today driver vehicle hub i)
unfolding assign_driver find_hub_order transition_order sync_availability_from_orders
    assert_assignable
assign_driver-Keeps j today driver vehicle hub i w l = ground arith

pub confirm_paid_order-Keeps :
    (j now i : ℕ) (w : World) → IsLocked j w → IsLocked j (confirm_paid_order now i w).0
unfolding confirm_paid_order
confirm_paid_order-Keeps j now i w l = ground arith
