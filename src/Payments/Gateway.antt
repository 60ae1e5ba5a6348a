-- ===== src/Payments/Gateway.antt =====
-- The statuses of a payment row and their table, and what the payment gateway answers
-- (src/modules/payments/razorpay.crypto.ts, src/modules/payments/razorpay.service.ts). Signatures are
-- checked by the crypto library, so that their verification is an operation of the gateway here.
use Prim.Native.String.{String, ◌++◌}
use vikram_backend.Prelude.{
  ℕ, Bool, false, not, ◌||◌, Option, none, some, List, [], ◌∷◌, ◌==◌, ltb, leb, if◌then◌else◌,
  Result,
}
use vikram_backend.Orders.Status.{text_eq}

pub data GatewayPaymentStatus : Type 0 where
  created pending authorized captured failed cancelled refunded verification_failed :
      GatewayPaymentStatus

-- The status' place in the enumeration.
abbrev pub gateway_code : GatewayPaymentStatus → ℕ
gateway_code GatewayPaymentStatus.created = 0
gateway_code GatewayPaymentStatus.pending = 1
gateway_code GatewayPaymentStatus.authorized = 2
gateway_code GatewayPaymentStatus.captured = 3
gateway_code GatewayPaymentStatus.failed = 4
gateway_code GatewayPaymentStatus.cancelled = 5
gateway_code GatewayPaymentStatus.refunded = 6
gateway_code GatewayPaymentStatus.verification_failed = 7

abbrev pub same_gateway : GatewayPaymentStatus → GatewayPaymentStatus → Bool
same_gateway s t = gateway_code s == gateway_code t

abbrev pub one_of : List GatewayPaymentStatus → GatewayPaymentStatus → Bool
one_of [] s = false
one_of (t ∷ ts) s = same_gateway t s || one_of ts s

-- GATEWAY_PAYMENT_TRANSITIONS.
abbrev pub gateway_payment_transitions : GatewayPaymentStatus → List GatewayPaymentStatus
gateway_payment_transitions GatewayPaymentStatus.created =
    GatewayPaymentStatus.pending ∷ GatewayPaymentStatus.authorized ∷ GatewayPaymentStatus.captured
    ∷ GatewayPaymentStatus.failed ∷ GatewayPaymentStatus.cancelled
    ∷ GatewayPaymentStatus.verification_failed ∷ []
gateway_payment_transitions GatewayPaymentStatus.pending =
    GatewayPaymentStatus.authorized ∷ GatewayPaymentStatus.captured ∷ GatewayPaymentStatus.failed
    ∷ GatewayPaymentStatus.cancelled ∷ GatewayPaymentStatus.verification_failed ∷ []
gateway_payment_transitions GatewayPaymentStatus.authorized =
    GatewayPaymentStatus.captured ∷ GatewayPaymentStatus.failed ∷ GatewayPaymentStatus.refunded ∷ []
gateway_payment_transitions GatewayPaymentStatus.captured = GatewayPaymentStatus.refunded ∷ []
gateway_payment_transitions GatewayPaymentStatus.failed =
    GatewayPaymentStatus.pending ∷ GatewayPaymentStatus.authorized ∷ GatewayPaymentStatus.captured
    ∷ GatewayPaymentStatus.cancelled ∷ []
gateway_payment_transitions GatewayPaymentStatus.cancelled =
    GatewayPaymentStatus.pending ∷ GatewayPaymentStatus.authorized ∷ GatewayPaymentStatus.captured
    ∷ []
gateway_payment_transitions _ = []

-- `canTransitionGatewayStatus`.
unfoldable pub can_transition_gateway_status : GatewayPaymentStatus → GatewayPaymentStatus → Bool
can_transition_gateway_status from to =
    same_gateway from to || one_of (gateway_payment_transitions from) to

-- The statuses of a payment at the gateway that the code knows by name.
pub data RemoteStatus : Type 0 where
  captured authorized created failed other : RemoteStatus

-- RazorpayPaymentRecord.
pub record RazorpayPaymentRecord : Type 0 where
  pub id : String
  pub order_id : String
  pub amount : ℕ
  pub currency : String
  pub status : RemoteStatus
  pub error_code : Option String
  pub created_at : Option ℕ

-- REMOTE_STATUS_PRIORITY, 0 where it has no entry.
abbrev pub remote_status_priority : RemoteStatus → ℕ
remote_status_priority RemoteStatus.captured = 4
remote_status_priority RemoteStatus.authorized = 3
remote_status_priority RemoteStatus.created = 2
remote_status_priority RemoteStatus.failed = 1
remote_status_priority RemoteStatus.other = 0

abbrev pub rank : RazorpayPaymentRecord → ℕ
rank r = remote_status_priority r.status

-- `created_at ?? 0`.
abbrev pub made_at : RazorpayPaymentRecord → ℕ
made_at r = elim r.created_at [ none ↦ 0 | some t ↦ t ]

-- `money_moved ? rank > best_rank : created_at > best.created_at`.
abbrev pub replaces : RazorpayPaymentRecord → RazorpayPaymentRecord → Bool
replaces r best =
    if leb 3 (rank r) || leb 3 (rank best)
    then ltb (rank best) (rank r)
    else ltb (made_at best) (made_at r)

-- The loop, once there is a best payment.
abbrev pub pick_from : RazorpayPaymentRecord → List RazorpayPaymentRecord → RazorpayPaymentRecord
pick_from best [] = best
pick_from best (r ∷ rs) = pick_from (if replaces r best then r else best) rs

-- `pickAuthoritativePayment`.
unfoldable pub pick_authoritative_payment :
    List RazorpayPaymentRecord → Option RazorpayPaymentRecord
pick_authoritative_payment [] = none
pick_authoritative_payment (r ∷ rs) = some (pick_from r rs)

-- What `handleWebhook` takes from the parsed body, after its `typeof` tests.
pub record WebhookBody : Type 0 where
  pub event : String
  pub event_id : Option String
  pub payment_id : Option String
  pub payment_order_id : Option String
  pub order_id : Option String
  pub status : Option RemoteStatus
  pub error_code : Option String

-- The payment's order, and otherwise the order's own id.
abbrev pub provider_order : WebhookBody → Option String
provider_order b = elim b.payment_order_id [ some i ↦ some i | none ↦ b.order_id ]

-- A text that is there, and not the empty one.
abbrev pub has_text : Option String → Bool
has_text none = false
has_text (some s) = not (text_eq s "")

-- `?? ''`.
abbrev pub or_empty : Option String → String
or_empty none = ""
or_empty (some s) = s

abbrev pub fields_key : WebhookBody → String
fields_key b = b.event ++ (":" ++ (or_empty b.payment_id ++ (":" ++ or_empty (provider_order b))))

abbrev pub event_key : String → WebhookBody → String
event_key id b = if not (text_eq id "") then "evt:" ++ id else fields_key b

-- `webhookDedupeKey`, with JavaScript's `trim`.
abbrev pub webhook_dedupe_key : (String → String) → WebhookBody → String
webhook_dedupe_key trim b = elim b.event_id [
  | none ↦ fields_key b
  | some id ↦ event_key (trim id) b
]

-- The gateway and the configuration: what the calls answer, or that they fail.
pub record Gateway : Type 0 where
  pub is_configured : Bool
  -- payment.razorpay.pendingExpiryMinutes
  pub pending_expiry_minutes : ℕ
  pub verify_checkout_signature : String → String → String → Bool
  pub verify_webhook : String → Option String → Bool
  -- JSON.parse
  pub parse : String → Option WebhookBody
  pub trim : String → String
  pub to_upper : String → String
  pub fetch_payment : String → Result (Unit {0}) RazorpayPaymentRecord
  pub fetch_order_payments : String → Result (Unit {0}) (List RazorpayPaymentRecord)
  pub capture_payment : String → ℕ → Result (Unit {0}) RazorpayPaymentRecord
