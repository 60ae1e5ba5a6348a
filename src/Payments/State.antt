-- ===== src/Payments/State.antt =====
-- The state of a payment that the application shows (`derivePaymentState` of
-- src/modules/payments/payments.service.ts).
use vikram_backend.Prelude.{Bool, false, not, ◌&&◌, Option, none, some, if◌then◌else◌}
use vikram_backend.Orders.Status.{OrderStatus, same_status}
use vikram_backend.Orders.World.{Order, is_settled}
use vikram_backend.Payments.Gateway.{GatewayPaymentStatus, has_text}
use vikram_backend.Payments.Rows.{Payment, is_in_flight}

-- CustomerPaymentState.
pub data CustomerPaymentState : Type 0 where
  paid processing awaiting_payment failed cancelled order_cancelled refund_pending :
      CustomerPaymentState

abbrev pub has_in_flight : Option Payment → Bool
has_in_flight none = false
has_in_flight (some p) = is_in_flight p.status

-- The `switch`.
abbrev pub state_of : Payment → GatewayPaymentStatus → CustomerPaymentState
state_of p GatewayPaymentStatus.captured = processing
state_of p GatewayPaymentStatus.authorized = processing
state_of p GatewayPaymentStatus.pending =
    if has_text p.provider_payment_id then processing else awaiting_payment
state_of p GatewayPaymentStatus.failed = CustomerPaymentState.failed
state_of p GatewayPaymentStatus.verification_failed = CustomerPaymentState.failed
state_of p GatewayPaymentStatus.cancelled = CustomerPaymentState.cancelled
state_of p GatewayPaymentStatus.refunded = order_cancelled
state_of p GatewayPaymentStatus.created = awaiting_payment

abbrev pub state_of_payment : Option Payment → CustomerPaymentState
state_of_payment none = awaiting_payment
state_of_payment (some p) = state_of p p.status

-- `derivePaymentState`.
unfoldable pub derive_payment_state : Order → Option Payment → CustomerPaymentState
derive_payment_state o p =
    let is_cancelled = same_status o.status OrderStatus.cancelled in
    if not is_cancelled && is_settled o.payment_status
    then paid
    else if is_cancelled
    then (if has_in_flight p then refund_pending else order_cancelled)
    else state_of_payment p
