-- ===== src/Payments/Mismatch.antt =====
-- What the gateway says of another payment, or of another amount, is refused
-- (src/modules/payments/payments.service.ts).
use Prim.Native.String.{String}
use text.Mathlib.TextEquality.{eq_iff}
use vikram_backend.Prelude.{
  ℕ, ◌≡◌, ◌≢◌, ◌⊎◌, refl, true, false, some, none, find?, Option-cases, Bool-cases, inl, inr,
  Result, ok, err, ◌==◌, ==_iff,
}
use vikram_backend.Prelude.Handlers.{continue, require}
use vikram_backend.Orders.Status.{text_eq}
use vikram_backend.Payments.Gateway.{
  Gateway, GatewayPaymentStatus, WebhookBody, RazorpayPaymentRecord, can_transition_gateway_status,
}
use vikram_backend.Payments.Rows.{
  Cashier, Payment, PaymentError, Till, Extra, has_id, transition_payment, mismatch, order_mismatch,
  amount_mismatch, assert_remote_matches, payment_not_found,
}
use vikram_backend.Payments.Remote.{apply_remote_payment}
use vikram_backend.Payments.Webhooks.{
  process_webhook_event, row_of, is_failure, is_success, named_payment,
}

-- The record is not of the row's order at the gateway, its amount or its currency.
abbrev pub Mismatched : (String → String) → Payment → RazorpayPaymentRecord → Type 0
Mismatched up p r =
    (r.order_id ≢ p.provider_order_id)
    ⊎ ((r.amount ≢ p.amount_paise) ⊎ (up r.currency ≢ p.currency))

-- A throw that leaves the orders as they were.
abbrev pub Refused : {A : Type 0} → Cashier → Cashier × Result PaymentError A → Type 0
Refused {A} c r = (r.0.world ≡ c.world) × (e : PaymentError) × (r.1 ≡ err e)

mismatch-some :
    (up : String → String) (p : Payment) (r : RazorpayPaymentRecord)
    → Mismatched up p r
    → (x : String × PaymentError) × (mismatch up p r ≡ some x)
mismatch-some up p r h = elim (Bool-cases (text_eq r.order_id p.provider_order_id)) [
  | inr a ↦ rw a (("ORDER_MISMATCH", order_mismatch), refl)
  | inl a ↦ elim (Bool-cases (r.amount == p.amount_paise)) [
    | inr b ↦ rw (a, b) (("AMOUNT_MISMATCH", amount_mismatch), refl)
    | inl b ↦ elim (Bool-cases (text_eq (up r.currency) p.currency)) [
      | inr d ↦ rw (a, b, d) (("CURRENCY_MISMATCH", amount_mismatch), refl)
      | inl d ↦ elim h [
        | inl x ↦ absurd (x ((eq_iff r.order_id p.provider_order_id).0 a))
        | inr (inl x) ↦ absurd (x ((==_iff r.amount p.amount_paise).0 b))
        | inr (inr x) ↦ absurd (x ((eq_iff (up r.currency) p.currency).0 d))
      ]
    ]
  ]
]

pub transition-world :
    (now i : ℕ) (from to : GatewayPaymentStatus) (x : Extra) (c : Cashier)
    → (transition_payment now i from to x c).0.world ≡ c.world
unfolding transition_payment
transition-world now i from to x c = elim (Option-cases (find? (has_id i) c.payments)) [
  | inl n ↦ rw n refl
  | inr (p, n) ↦ elim (Bool-cases (can_transition_gateway_status from to)) [
    | inl b ↦ rw (n, b) refl
    | inr b ↦ rw (n, b) refl
  ]
]

require-Refused :
    (c : Cashier) (r : Cashier × Result PaymentError (Unit {0})) (e : PaymentError)
    → r.0.world ≡ c.world
    → Refused {A = Unit {0}} c (continue {0, 0} r (λ _. require false e))
require-Refused c (d, ok a) e h = (h, e, refl)
require-Refused c (d, err x) e h = (h, x, refl)

assert-Refused :
    (up : String → String) (now : ℕ) (p : Payment) (r : RazorpayPaymentRecord) (c : Cashier)
    → Mismatched up p r
    → Refused c (assert_remote_matches up now p r c)
unfolding assert_remote_matches
assert-Refused up now p r c h =
    let ((code, e), m) = mismatch-some up p r h in
    let x : Extra = record {
      provider_payment_id = none;
      failure_code = some code;
      is_captured = false;
    } in
    let to = GatewayPaymentStatus.verification_failed in
    elim (Option-cases (find? (has_id p.id) c.payments)) [
      | inl n ↦ rw (m, n) (refl, payment_not_found, refl)
      | inr (q, n) ↦
          rw (m, n)
            (require-Refused c (transition_payment now p.id q.status to x c) e
              (transition-world now p.id q.status to x c))
    ]

continue-Refused :
    {A : Type 0} (c : Cashier) (r : Cashier × Result PaymentError (Unit {0}))
    (f : Unit {0} → Till A)
    → Refused c r
    → Refused c (continue {0, 0} r f)
continue-Refused c (d, ok a) f (h, e, n) = absurd (cc n)
continue-Refused c (d, err x) f (h, e, n) = (h, x, refl)

-- A webhook of a payment that did not fail is refused, and no order, stock or any other table of the
-- orders changes, when the gateway, asked for that payment, answers with another order at the gateway,
-- another amount or another currency than those of the row.
pub process_webhook_event-Refused :
    (g : Gateway) (now : ℕ) (b : WebhookBody) (p : Payment) (r : RazorpayPaymentRecord) (i : String)
    (c : Cashier)
    → row_of b c ≡ some p
    → is_failure b ≡ false
    → is_success b ≡ true
    → named_payment b p ≡ some i
    → text_eq i "" ≡ false
    → g.fetch_payment i ≡ ok r
    → Mismatched g.to_upper p r
    → Refused c (process_webhook_event g now b c)
unfolding process_webhook_event
process_webhook_event-Refused g now b p r i c row failure success named there fetched h =
    rw (row, failure, success, named, there, failure, fetched)
      (continue-Refused c (assert_remote_matches g.to_upper now p r c)
        (λ _. apply_remote_payment g now p.id r) (assert-Refused g.to_upper now p r c h))
