-- ===== src/Payments/Rows.antt =====
-- The payment rows and what changes them (src/modules/payments/payments.service.ts). Methods,
-- descriptions, stored signatures, logs and amounts in rupees are left out.
use Prim.Native.String.{String}
use vikram_backend.Prelude.{
  ℕ, Bool, true, false, not, ◌&&◌, ◌||◌, Option, none, some, List, [], ◌∷◌, ◌==◌, if◌then◌else◌,
  find?, is_some, update_first, Result, ok, err,
}
use vikram_backend.Prelude.Handlers.{◌>>=◌, ◌>>◌, return, write, require}
use vikram_backend.Orders.Status.{text_eq}
use vikram_backend.Orders.World.{World, OrderError}
use vikram_backend.Orders.Customer.{confirm_paid_order, ConfirmPaidOrderResult, order_cancelled}
use vikram_backend.Payments.Gateway.{
  GatewayPaymentStatus, same_gateway, one_of, can_transition_gateway_status, RemoteStatus,
  RazorpayPaymentRecord, has_text,
}

pub record Payment : Type 0 where
  pub id : ℕ
  pub order_id : ℕ
  pub customer_id : ℕ
  pub provider_order_id : String
  pub provider_payment_id : Option String
  pub amount_paise : ℕ
  pub currency : String
  pub status : GatewayPaymentStatus
  pub failure_code : Option String
  pub verified_at : Option ℕ
  pub captured_at : Option ℕ

pub data WebhookProcessingStatus : Type 0 where
  received processed failed : WebhookProcessingStatus

pub record WebhookEvent : Type 0 where
  pub dedupe_key : String
  pub processing_status : WebhookProcessingStatus

-- The tables of the orders, the payments, the newest first, the webhook's events, and the time at
-- which an order was made.
pub record Cashier : Type 0 where
  pub world : World
  pub payments : List Payment
  pub events : List WebhookEvent
  pub created_at : ℕ → ℕ

-- PaymentException by its code, what the gateway's calls throw, and what the orders' throw.
pub data PaymentError : Type 0 where
  payment_not_found order_not_found not_configured verification_failed duplicate_payment :
      PaymentError
  order_mismatch amount_mismatch not_captured payment_failed : PaymentError
  webhook_signature_invalid webhook_payload_invalid gateway : PaymentError
  orders : OrderError → PaymentError

abbrev pub Till {ℓ} : Type ℓ → Type ℓ
Till A = Cashier → Cashier × Result PaymentError A

-- The primary key.
abbrev pub has_id : ℕ → Payment → Bool
has_id i p = i == p.id

abbrev pub found_payment : Cashier → Option Payment → Cashier × Result PaymentError Payment
found_payment c none = (c, err payment_not_found)
found_payment c (some p) = (c, ok p)

-- `findUniqueOrThrow`.
abbrev pub find_payment : ℕ → Till Payment
find_payment i c = found_payment c (find? (has_id i) c.payments)

abbrev pub update_payment : ℕ → (Payment → Payment) → Cashier → Cashier
update_payment i f c = record c { payments = update_first (has_id i) f c.payments }

-- The columns that `transitionPayment` sets beside the status.
pub record Extra : Type 0 where
  pub provider_payment_id : Option String
  pub failure_code : Option String
  pub is_captured : Bool

-- `...(value ? { column: value } : {})`.
abbrev pub or_old : Option String → Option String → Option String
or_old new old = if has_text new then new else old

unfoldable pub transition_row : ℕ → GatewayPaymentStatus → Extra → Payment → Payment
transition_row now to x p = record p {
  status = to;
  provider_payment_id = or_old x.provider_payment_id p.provider_payment_id;
  failure_code = or_old x.failure_code p.failure_code;
  captured_at = if x.is_captured then some now else p.captured_at;
  verified_at =
      if x.is_captured || same_gateway to GatewayPaymentStatus.authorized
      then some now
      else p.verified_at;
}

-- `transitionPayment`. A transition that is not in the table is left alone.
unfoldable pub transition_payment :
    ℕ → ℕ → GatewayPaymentStatus → GatewayPaymentStatus → Extra → Till (Unit {0})
transition_payment now i from to x = do
  p ← find_payment i
  if can_transition_gateway_status from to
      then write (update_payment i (transition_row now to x))
      else return tt

abbrev pub same_payment_id : Option String → String → Bool
same_payment_id none s = false
same_payment_id (some t) s = text_eq t s

-- `findFirst({ providerPaymentId, NOT: { id } })`.
abbrev pub is_used_elsewhere : String → ℕ → Cashier → Bool
is_used_elsewhere s i c =
    is_some (find? (λ p. same_payment_id p.provider_payment_id s && not (has_id i p)) c.payments)

-- The column that tells that money must go back.
abbrev pub refund_required_code : String
refund_required_code = "ORDER_CANCELLED_REFUND_REQUIRED"

-- IN_FLIGHT_GATEWAY_STATUSES.
abbrev pub is_in_flight : GatewayPaymentStatus → Bool
is_in_flight s = one_of (GatewayPaymentStatus.authorized ∷ GatewayPaymentStatus.captured ∷ []) s

abbrev pub record_refund : ℕ → ConfirmPaidOrderResult → Till (Unit {0})
record_refund i order_cancelled =
    write (update_payment i (λ p. record p { failure_code = some refund_required_code }))
record_refund i _ = return tt

abbrev pub confirm_order : ℕ → ℕ → Till ConfirmPaidOrderResult
confirm_order now i c =
    let (w, r) = confirm_paid_order now i c.world in (record c { world = w }, ok r)

abbrev pub confirm_in_flight : ℕ → ℕ → Payment → Till (Unit {0})
confirm_in_flight now i p =
    if is_in_flight p.status then confirm_order now p.order_id >>= record_refund i else return tt

-- `confirmOrderForPayment`.
unfoldable pub confirm_order_for_payment : ℕ → ℕ → Till (Unit {0})
confirm_order_for_payment now i = do p ← find_payment i; confirm_in_flight now i p

-- The failure code of `assertRemoteMatches`.
abbrev pub mismatch :
    (String → String) → Payment → RazorpayPaymentRecord → Option (String × PaymentError)
mismatch to_upper p r =
    if not (text_eq r.order_id p.provider_order_id)
    then some ("ORDER_MISMATCH", order_mismatch)
    else if not (r.amount == p.amount_paise)
    then some ("AMOUNT_MISMATCH", amount_mismatch)
    else if not (text_eq (to_upper r.currency) p.currency)
    then some ("CURRENCY_MISMATCH", amount_mismatch)
    else none

abbrev pub refuse : ℕ → ℕ → Option (String × PaymentError) → Till (Unit {0})
refuse now i none = return tt
refuse now i (some (code, e)) = do
  current ← find_payment i
  transition_payment now i current.status GatewayPaymentStatus.verification_failed
      (record { provider_payment_id = none; failure_code = some code; is_captured = false })
  require false e

-- `assertRemoteMatches`.
unfoldable pub assert_remote_matches :
    (String → String) → ℕ → Payment → RazorpayPaymentRecord → Till (Unit {0})
assert_remote_matches to_upper now p r = refuse now p.id (mismatch to_upper p r)

abbrev pub is_money : RemoteStatus → Bool
is_money RemoteStatus.captured = true
is_money RemoteStatus.authorized = true
is_money _ = false
