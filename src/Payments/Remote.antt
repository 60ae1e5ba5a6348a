-- ===== src/Payments/Remote.antt =====
-- Applying to a payment row what the gateway says of a payment
-- (src/modules/payments/payments.service.ts).
use Prim.Native.String.{String}
use vikram_backend.Prelude.{ℕ, Bool, false, not, ◌&&◌, none, some, if◌then◌else◌, Result, ok, err}
use vikram_backend.Prelude.Handlers.{◌>>=◌, ◌>>◌, return, write, require}
use vikram_backend.Orders.Status.{same_status, OrderStatus}
use vikram_backend.Orders.World.{Order, PaymentStatus, update_order, is_settled}
use vikram_backend.Payments.Gateway.{
  Gateway, GatewayPaymentStatus, same_gateway, RemoteStatus, RazorpayPaymentRecord, has_text,
}
use vikram_backend.Payments.Rows.{
  Payment, Cashier, Till, find_payment, Extra, transition_payment, same_payment_id,
  is_used_elsewhere, confirm_order_for_payment, is_money, not_captured,
}

abbrev pub or_authorized : Result (Unit {0}) RazorpayPaymentRecord → RemoteStatus
or_authorized (ok r) = r.status
or_authorized (err e) = RemoteStatus.authorized

-- The capture of what is only authorized.
abbrev pub status_after_capture : Gateway → RazorpayPaymentRecord → ℕ → RemoteStatus → RemoteStatus
status_after_capture g r amount RemoteStatus.authorized =
    or_authorized (g.capture_payment r.id amount)
status_after_capture g r amount s = s

abbrev pub gateway_status : RemoteStatus → GatewayPaymentStatus
gateway_status RemoteStatus.captured = GatewayPaymentStatus.captured
gateway_status _ = GatewayPaymentStatus.authorized

-- `ensureCaptured`.
unfoldable pub ensure_captured : Gateway → ℕ → ℕ → RazorpayPaymentRecord → Till (Unit {0})
ensure_captured g now i r = do
  current ← find_payment i
  let status = status_after_capture g r current.amount_paise r.status
  require (is_money status) not_captured
  transition_payment now i current.status (gateway_status status) (record {
    provider_payment_id = some r.id;
    failure_code = none;
    is_captured = same_gateway (gateway_status status) GatewayPaymentStatus.captured;
  })

unfoldable pub fail_order : Order → Order
fail_order o =
    if not (same_status o.status OrderStatus.cancelled) && not (is_settled o.payment_status)
    then record o { payment_status = PaymentStatus.failed }
    else o

-- A failed attempt that the row does not keep: the row is of another attempt, that is under way.
abbrev pub is_other_attempt : Payment → String → Bool
is_other_attempt p s =
    has_text p.provider_payment_id
    && not (same_payment_id p.provider_payment_id s)
    && same_gateway p.status GatewayPaymentStatus.pending

abbrev pub apply_money : Gateway → ℕ → Payment → RazorpayPaymentRecord → Till (Unit {0})
apply_money g now p r c =
    if not (same_payment_id p.provider_payment_id r.id) && is_used_elsewhere r.id p.id c
    then (c, ok tt)
    else (ensure_captured g now p.id r >> confirm_order_for_payment now p.id) c

abbrev pub failed_extra : RazorpayPaymentRecord → Extra
failed_extra r = record {
  provider_payment_id = some r.id;
  failure_code = r.error_code;
  is_captured = false;
}

-- The `updateMany` of the order that follows.
abbrev pub note_failure : ℕ → Cashier → Cashier
note_failure i c = record c { world = update_order i fail_order c.world }

abbrev pub fail_payment : ℕ → Payment → RazorpayPaymentRecord → Till (Unit {0})
fail_payment now p r =
    transition_payment now p.id p.status GatewayPaymentStatus.failed (failed_extra r)
    >> write (note_failure p.order_id)

abbrev pub apply_failure : ℕ → Payment → RazorpayPaymentRecord → Till (Unit {0})
apply_failure now p r = if is_other_attempt p r.id then return tt else fail_payment now p r

abbrev pub apply_created : ℕ → Payment → RazorpayPaymentRecord → Till (Unit {0})
apply_created now p r =
    if same_gateway p.status GatewayPaymentStatus.created
    then transition_payment now p.id p.status GatewayPaymentStatus.pending
        (record { provider_payment_id = some r.id; failure_code = none; is_captured = false })
    else return tt

abbrev pub apply_status :
    Gateway → ℕ → Payment → RazorpayPaymentRecord → RemoteStatus → Till (Unit {0})
apply_status g now p r RemoteStatus.captured = apply_money g now p r
apply_status g now p r RemoteStatus.authorized = apply_money g now p r
apply_status g now p r RemoteStatus.failed = apply_failure now p r
apply_status g now p r RemoteStatus.created = apply_created now p r
apply_status g now p r RemoteStatus.other = return tt

-- `applyRemotePayment`.
unfoldable pub apply_remote_payment : Gateway → ℕ → ℕ → RazorpayPaymentRecord → Till (Unit {0})
apply_remote_payment g now i r = do current ← find_payment i; apply_status g now current r r.status
