-- ===== src/Payments/Covered.antt =====
-- An order becomes paid by a payment that is authorized or captured
-- (src/modules/payments/payments.service.ts).
use vikram_backend.Prelude.{
  ℕ, ◌≡◌, ◌⊎◌, refl, subst, Bool, true, false, not, ◌&&◌, Option, some, none, List, [], ◌∷◌, arith,
  find?, is_some, find?-holds, Option-cases, Bool-cases, if_either, inl, inr, Result, ok, err,
  if◌then◌else◌, ◌==◌, update_first,
}
use vikram_backend.Prelude.Handlers.{continue, return, write}
use vikram_backend.Prelude.Rows.{find?-update_first}
use vikram_backend.Orders.World.{World, Order, is_paid, update_order}
use vikram_backend.Orders.Customer.{
  confirm_paid_order, ConfirmPaidOrderResult, order_cancelled, not_found, confirmed,
  already_confirmed,
}
use vikram_backend.Payments.Gateway.{
  Gateway, GatewayPaymentStatus, RazorpayPaymentRecord, RemoteStatus, same_gateway,
}
use vikram_backend.Payments.Rows.{
  Cashier, Payment, PaymentError, Till, has_id, transition_payment, confirm_order_for_payment,
  record_refund, refund_required_code, is_in_flight, is_money, same_payment_id, is_used_elsewhere,
}
use vikram_backend.Payments.Remote.{
  apply_created, ensure_captured, apply_remote_payment, apply_status, apply_money, apply_failure,
  fail_payment, failed_extra, note_failure, fail_order, status_after_capture, gateway_status,
  is_other_attempt,
}
use vikram_backend.Payments.Sync.{money_moved, is_moving}
use vikram_backend.Payments.Mismatch.{transition-world}

abbrev pub is_paid_row : Option Order → Bool
is_paid_row none = false
is_paid_row (some o) = is_paid o.payment_status

-- Order j is paid.
abbrev pub IsPaid : ℕ → World → Type 0
IsPaid j w = is_paid_row (w.order j) ≡ true

abbrev pub Covered : ℕ → Cashier → Cashier → Type 0
Covered j c d = IsPaid j d.world → IsPaid j c.world ⊎ (money_moved j d ≡ true)

same-Covered : (j : ℕ) (c d : Cashier) → d.world ≡ c.world → Covered j c d
same-Covered j c d e h = inl (subst (IsPaid j) e h)

find?-other :
    {A : Type 0} (p q : A → Bool) (xs : List A) {x : A}
    → find? p xs ≡ some x
    → q x ≡ true
    → is_some (find? q xs) ≡ true
find?-other p q [] e h = cc
find?-other p q (y ∷ ys) {x} e h = ground (arith, find?-other p q ys {x = x})

-- The note of a refund changes no status.
record_refund-moved :
    (j i : ℕ) (r : ConfirmPaidOrderResult) (c : Cashier) (p : Payment)
    → find? (has_id i) c.payments ≡ some p
    → is_moving j p ≡ true
    → money_moved j (record_refund i r c).0 ≡ true
record_refund-moved j i order_cancelled c p e h =
    let f = λ (q : Payment). record q { failure_code = some refund_required_code } in
    find?-other (has_id i) (is_moving j) (update_first (has_id i) f c.payments) {x = f p}
      (find?-update_first (has_id i) (has_id i) f c.payments p e
        (find?-holds (has_id i) c.payments e))
      h
record_refund-moved j i not_found c p e h = find?-other (has_id i) (is_moving j) c.payments e h
record_refund-moved j i already_confirmed c p e h =
    find?-other (has_id i) (is_moving j) c.payments e h
record_refund-moved j i confirmed c p e h = find?-other (has_id i) (is_moving j) c.payments e h

record_refund-world :
    (i : ℕ) (r : ConfirmPaidOrderResult) (c : Cashier) → (record_refund i r c).0.world ≡ c.world
record_refund-world i order_cancelled c = refl
record_refund-world i not_found c = refl
record_refund-world i already_confirmed c = refl
record_refund-world i confirmed c = refl

confirm_paid_order-other :
    (j now i : ℕ) (w : World)
    → (j == i) ≡ false
    → (confirm_paid_order now i w).0.order j ≡ w.order j
unfolding confirm_paid_order
confirm_paid_order-other j now i w h = ground arith

refunded-Covered :
    (j now i : ℕ) (c : Cashier) (p : Payment)
    → find? (has_id i) c.payments ≡ some p
    → is_in_flight p.status ≡ true
    → let (w, r) = confirm_paid_order now p.order_id c.world in
      Covered j c (record_refund i r (record c { world = w })).0
refunded-Covered j now i c p n f h =
    let w = confirm_paid_order now p.order_id c.world in
    let e : Cashier = record c { world = w.0 } in
    elim (Bool-cases (j == p.order_id)) [
      | inl b ↦ inr (record_refund-moved j i w.1 e p n (rw (b, f) refl))
      | inr b ↦ inl (
          subst (λ (o : Option Order). is_paid_row o ≡ true)
            (confirm_paid_order-other j now p.order_id c.world b)
            (subst (IsPaid j) (record_refund-world i w.1 e) h))
    ]

confirm-Covered : (j now i : ℕ) (c : Cashier) → Covered j c (confirm_order_for_payment now i c).0
unfolding confirm_order_for_payment
confirm-Covered j now i c = elim (Option-cases (find? (has_id i) c.payments)) [
  | inl n ↦ rw n (same-Covered j c c refl)
  | inr (p, n) ↦ elim (Bool-cases (is_in_flight p.status)) [
    | inr b ↦ rw (n, b) (same-Covered j c c refl)
    | inl b ↦ rw (n, b) (refunded-Covered j now i c p n b)
  ]
]

ensure-world :
    (g : Gateway) (now i : ℕ) (r : RazorpayPaymentRecord) (c : Cashier)
    → (ensure_captured g now i r c).0.world ≡ c.world
unfolding ensure_captured
ensure-world g now i r c = elim (Option-cases (find? (has_id i) c.payments)) [
  | inl n ↦ rw n refl
  | inr (p, n) ↦
      let s = status_after_capture g r p.amount_paise r.status in
      elim (Bool-cases (is_money s)) [
        | inr b ↦ rw (n, b) refl
        | inl b ↦
            rw (n, b)
              (transition-world now i p.status (gateway_status s)
                (record {
                  provider_payment_id = some r.id;
                  failure_code = none;
                  is_captured = same_gateway (gateway_status s) GatewayPaymentStatus.captured;
                })
                c)
      ]
]

continue-Covered :
    (j now i : ℕ) (c : Cashier) (r : Cashier × Result PaymentError (Unit {0}))
    → r.0.world ≡ c.world
    → Covered j c (continue {0, 0} r (λ _. confirm_order_for_payment now i)).0
continue-Covered j now i c (d, ok a) e h = elim (confirm-Covered j now i d h) [
  | inl x ↦ inl (subst (IsPaid j) e x)
  | inr x ↦ inr x
]
continue-Covered j now i c (d, err x) e h = inl (subst (IsPaid j) e h)

apply_money-Covered :
    (g : Gateway) (j now : ℕ) (p : Payment) (r : RazorpayPaymentRecord) (c : Cashier)
    → Covered j c (apply_money g now p r c).0
apply_money-Covered g j now p r c =
    if_either (λ (x : Cashier × Result PaymentError (Unit {0})). Covered j c x.0)
      (not (same_payment_id p.provider_payment_id r.id) && is_used_elsewhere r.id p.id c)
      (λ _. same-Covered j c c refl)
      (λ _.
        continue-Covered j now p.id c (ensure_captured g now p.id r c)
          (ensure-world g now p.id r c))

-- The failure of a payment makes no order paid.
fail_order-IsPaid : (j i : ℕ) (w : World) → IsPaid j (update_order i fail_order w) → IsPaid j w
unfolding fail_order
fail_order-IsPaid j i w h = ground arith

noted-Covered :
    (j i : ℕ) (c : Cashier) (r : Cashier × Result PaymentError (Unit {0}))
    → r.0.world ≡ c.world
    → Covered j c (continue {0, 0} r (λ _. write (note_failure i))).0
noted-Covered j i c (d, ok a) e h = inl (subst (IsPaid j) e (fail_order-IsPaid j i d.world h))
noted-Covered j i c (d, err x) e h = inl (subst (IsPaid j) e h)

apply_failure-Covered :
    (j now : ℕ) (p : Payment) (r : RazorpayPaymentRecord) (c : Cashier)
    → Covered j c (apply_failure now p r c).0
apply_failure-Covered j now p r c =
    let m = transition_payment now p.id p.status GatewayPaymentStatus.failed (failed_extra r) in
    if-Either (is_other_attempt p r.id) (return tt) (fail_payment now p r) c
      (same-Covered j c c refl)
      (noted-Covered j p.order_id c (m c)
        (transition-world now p.id p.status GatewayPaymentStatus.failed (failed_extra r) c))
  where
    if-Either :
        (b : Bool) (m k : Till (Unit {0})) (c : Cashier)
        → Covered j c (m c).0
        → Covered j c (k c).0
        → Covered j c ((if b then m else k) c).0
    if-Either true m k c h l = h
    if-Either false m k c h l = l

apply_created-world :
    (now : ℕ) (p : Payment) (r : RazorpayPaymentRecord) (c : Cashier)
    → (apply_created now p r c).0.world ≡ c.world
apply_created-world now p r c =
    elim (Bool-cases (same_gateway p.status GatewayPaymentStatus.created)) [
      | inl b ↦ rw b (
          transition-world now p.id p.status GatewayPaymentStatus.pending
            (record { provider_payment_id = some r.id; failure_code = none; is_captured = false })
            c)
      | inr b ↦ rw b refl
    ]

apply_status-Covered :
    (g : Gateway) (j now : ℕ) (p : Payment) (r : RazorpayPaymentRecord) (s : RemoteStatus)
    (c : Cashier)
    → Covered j c (apply_status g now p r s c).0
apply_status-Covered g j now p r RemoteStatus.captured c = apply_money-Covered g j now p r c
apply_status-Covered g j now p r RemoteStatus.authorized c = apply_money-Covered g j now p r c
apply_status-Covered g j now p r RemoteStatus.failed c = apply_failure-Covered j now p r c
apply_status-Covered g j now p r RemoteStatus.created c =
    same-Covered j c (apply_created now p r c).0 (apply_created-world now p r c)
apply_status-Covered g j now p r RemoteStatus.other c = same-Covered j c c refl

apply-Covered :
    (g : Gateway) (j now i : ℕ) (r : RazorpayPaymentRecord) (c : Cashier)
    → Covered j c (apply_remote_payment g now i r c).0
unfolding apply_remote_payment
apply-Covered g j now i r c = elim (Option-cases (find? (has_id i) c.payments)) [
  | inl n ↦ rw n (same-Covered j c c refl)
  | inr (p, n) ↦ rw n (apply_status-Covered g j now p r r.status c)
]

-- Whatever is applied to a payment, an order that was not paid before and is paid after it has a payment
-- that is authorized or captured: neither a failed nor an unknown attempt pays for an order, and no
-- payment pays for another one's order.
pub paid_in_flight :
    (g : Gateway) (j now i : ℕ) (r : RazorpayPaymentRecord) (c : Cashier)
    → let d = (apply_remote_payment g now i r c).0 in
      is_paid_row (c.world.order j) ≡ false
      → is_paid_row (d.world.order j) ≡ true
      → money_moved j d ≡ true
paid_in_flight g j now i r c old new = elim (apply-Covered g j now i r c new) [
  | inl x ↦ absurd (cc (old, x))
  | inr x ↦ x
]
