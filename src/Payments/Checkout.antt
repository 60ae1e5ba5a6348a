-- ===== src/Payments/Checkout.antt =====
-- What the application tells of a checkout: that it was paid, or closed
-- (src/modules/payments/payments.service.ts). Making a checkout is left out.
use Prim.Native.String.{String}
use vikram_backend.Prelude.{
  ℕ, Bool, true, false, not, ◌&&◌, none, some, [], ◌∷◌, ◌==◌, if◌then◌else◌, find?, err,
}
use vikram_backend.Prelude.Handlers.{continue, ◌>>=◌, ◌>>◌, return, write, require}
use vikram_backend.Orders.Status.{text_eq}
use vikram_backend.Orders.World.{Order, is_settled}
use vikram_backend.Payments.Gateway.{
  RazorpayPaymentRecord, Gateway, GatewayPaymentStatus, same_gateway, one_of,
}
use vikram_backend.Payments.Rows.{
  Extra, Payment, payment_not_found, not_configured, verification_failed, duplicate_payment,
  payment_failed, Till, found_payment, find_payment, update_payment, transition_payment,
  is_used_elsewhere, assert_remote_matches,
}
use vikram_backend.Payments.Remote.{apply_remote_payment}
use vikram_backend.Payments.Sync.{call, attempt, find_order, sync_order_payment, get_status}

abbrev pub is_open : GatewayPaymentStatus → Bool
is_open s = one_of (GatewayPaymentStatus.created ∷ GatewayPaymentStatus.pending ∷ []) s

-- A verification by the application.
pub record VerifyInput : Type 0 where
  pub internal_order_id : ℕ
  pub razorpay_order_id : String
  pub razorpay_payment_id : String
  pub razorpay_signature : String

abbrev pub is_row_of : ℕ → VerifyInput → Payment → Bool
is_row_of customer x p =
    x.internal_order_id == p.order_id
    && customer == p.customer_id
    && text_eq p.provider_order_id x.razorpay_order_id

abbrev pub is_checkout_of : ℕ → ℕ → Payment → Bool
is_checkout_of customer i p = i == p.order_id && customer == p.customer_id

-- Only the status is set.
abbrev pub no_extra : Extra
no_extra = record { provider_payment_id = none; failure_code = none; is_captured = false }

abbrev pub close_open : ℕ → Payment → Till (Unit {0})
close_open now p =
    if is_open p.status
    then transition_payment now p.id p.status GatewayPaymentStatus.cancelled no_extra
    else return tt

abbrev pub note_mismatch : Payment → Payment
note_mismatch q = record q { failure_code = some "SIGNATURE_MISMATCH" }

abbrev pub note_callback : ℕ → VerifyInput → Payment → Payment
note_callback now x q = record q {
  provider_payment_id = some x.razorpay_payment_id;
  verified_at = some now;
}

module _ (am : ℕ → ℕ → ℕ) (g : Gateway) (now : ℕ) where
  abbrev pub sync_and_close : ℕ → Payment → Till (Unit {0})
  sync_and_close i p =
      if is_open p.status
      then attempt (sync_order_payment am g now i) >> (find_payment p.id >>= close_open now)
      else return tt

  abbrev pub cancel_owned : ℕ → ℕ → Payment → Order → Till (Unit {0})
  cancel_owned customer i p o = do
    require (o.customer_id == customer) payment_not_found
    sync_and_close i p
    get_status am g now customer i false

  abbrev pub cancel_for : ℕ → ℕ → Payment → Till (Unit {0})
  cancel_for customer i p = find_order p.order_id >>= cancel_owned customer i p

  -- `cancelCheckout`.
  unfoldable pub cancel_checkout : ℕ → ℕ → Till (Unit {0})
  cancel_checkout customer i c =
      continue (found_payment c (find? (is_checkout_of customer i) c.payments))
        (cancel_for customer i)

  abbrev pub refuse_failed : Payment → Till (Unit {0})
  refuse_failed p = require (not (same_gateway p.status GatewayPaymentStatus.failed)) payment_failed

  abbrev pub verify_fetched : Payment → RazorpayPaymentRecord → Till (Unit {0})
  verify_fetched p r = do
    assert_remote_matches g.to_upper now p r
    apply_remote_payment g now p.id r
    find_payment p.id >>= refuse_failed

  -- The payment that the application names is read from the gateway and applied.
  abbrev pub verify_remote : Payment → VerifyInput → Till (Unit {0})
  verify_remote p x = do
    write (update_payment p.id (note_callback now x))
    transition_payment now p.id p.status GatewayPaymentStatus.pending no_extra
    call (g.fetch_payment x.razorpay_payment_id) >>= verify_fetched p

  abbrev pub verify_unused : Payment → VerifyInput → Till (Unit {0})
  verify_unused p x c =
      if is_used_elsewhere x.razorpay_payment_id p.id c
      then (c, err duplicate_payment)
      else verify_remote p x c

  abbrev pub verify_signed : Payment → VerifyInput → Till (Unit {0})
  verify_signed p x c =
      if g.verify_checkout_signature p.provider_order_id x.razorpay_payment_id x.razorpay_signature
      then verify_unused p x c
      else (update_payment p.id note_mismatch c, err verification_failed)

  abbrev pub verify_new : Payment → VerifyInput → Order → Till Bool
  verify_new p x o =
      if same_gateway p.status GatewayPaymentStatus.captured && is_settled o.payment_status
      then return true
      else verify_signed p x >> return false

  abbrev pub verify_owned : ℕ → VerifyInput → Payment → Order → Till Bool
  verify_owned customer x p o = do
    require (o.customer_id == customer) payment_not_found
    replay ← verify_new p x o
    get_status am g now customer p.order_id false
    return replay

  abbrev pub verify_for : ℕ → VerifyInput → Payment → Till Bool
  verify_for customer x p = find_order p.order_id >>= verify_owned customer x p

  -- `verifyCheckoutPayment`; whether it is a replay.
  unfoldable pub verify_checkout_payment : ℕ → VerifyInput → Till Bool
  verify_checkout_payment customer x = require g.is_configured not_configured >> λ c.
      continue (found_payment c (find? (is_row_of customer x) c.payments)) (verify_for customer x)
