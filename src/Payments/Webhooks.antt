-- ===== src/Payments/Webhooks.antt =====
-- The gateway's webhook (src/modules/payments/payments.service.ts). The stored payload is left out.
use Prim.Native.String.{String}
use vikram_backend.Prelude.{
  ℕ, Bool, true, false, ◌||◌, Option, none, some, ◌∷◌, if◌then◌else◌, find?, is_some, update_first,
  Result, ok, err,
}
use vikram_backend.Prelude.Handlers.{◌>>=◌, ◌>>◌, return}
use vikram_backend.Orders.Status.{text_eq}
use vikram_backend.Payments.Gateway.{
  Gateway, RemoteStatus, RazorpayPaymentRecord, WebhookBody, provider_order, webhook_dedupe_key,
}
use vikram_backend.Payments.Rows.{
  Payment, Cashier, WebhookEvent, WebhookProcessingStatus, PaymentError, webhook_signature_invalid,
  webhook_payload_invalid, Till, is_money, assert_remote_matches,
}
use vikram_backend.Payments.Remote.{apply_remote_payment}
use vikram_backend.Payments.Sync.{call}

abbrev pub is_failure : WebhookBody → Bool
is_failure b =
    text_eq b.event "payment.failed"
    || elim b.status [ some RemoteStatus.failed ↦ true | _ ↦ false ]

abbrev pub is_success : WebhookBody → Bool
is_success b =
    text_eq b.event "payment.authorized"
    || text_eq b.event "payment.captured"
    || text_eq b.event "order.paid"
    || elim b.status [ some s ↦ is_money s | none ↦ false ]

abbrev pub named_payment : WebhookBody → Payment → Option String
named_payment b p = elim b.payment_id [ some i ↦ some i | none ↦ p.provider_payment_id ]

-- The failed attempt that the webhook names, as a record of the gateway.
abbrev pub failed_attempt : WebhookBody → Payment → String → RazorpayPaymentRecord
failed_attempt b p i = record {
  id = i;
  order_id = p.provider_order_id;
  amount = p.amount_paise;
  currency = p.currency;
  status = RemoteStatus.failed;
  error_code = b.error_code;
  created_at = none;
}

abbrev pub has_provider_order : String → Payment → Bool
has_provider_order s p = text_eq p.provider_order_id s

-- The order that the webhook names, when its name is not the empty text.
abbrev pub row_of : WebhookBody → Cashier → Option Payment
row_of b c = elim (provider_order b) [
  | none ↦ none
  | some s ↦ if text_eq s "" then none else find? (has_provider_order s) c.payments
]

abbrev pub has_key : String → WebhookEvent → Bool
has_key k e = text_eq e.dedupe_key k

abbrev pub is_processed : Option WebhookEvent → Bool
is_processed none = false
is_processed (some e) = elim e.processing_status [
  | WebhookProcessingStatus.processed ↦ true
  | _ ↦ false
]

-- The row of the event, made when there is none.
abbrev pub receive_event : String → Cashier → Cashier
receive_event k c = if is_some (find? (has_key k) c.events) then c else record c {
  events =
      record { dedupe_key = k; processing_status = WebhookProcessingStatus.received } ∷ c.events;
}

abbrev pub mark_event : String → WebhookProcessingStatus → Cashier → Cashier
mark_event k s c = record c {
  events = update_first (has_key k) (λ e. record e { processing_status = s }) c.events;
}

abbrev pub settle_event :
    String → Cashier × Result PaymentError (Unit {0}) → Cashier × Result PaymentError Bool
settle_event k (c, ok a) = (mark_event k WebhookProcessingStatus.processed c, ok false)
settle_event k (c, err e) = (mark_event k WebhookProcessingStatus.failed c, err e)

module _ (g : Gateway) (now : ℕ) where
  -- What the webhook says of money is read again from the gateway.
  abbrev pub apply_fetched : Payment → RazorpayPaymentRecord → Till (Unit {0})
  apply_fetched p r = assert_remote_matches g.to_upper now p r >> apply_remote_payment g now p.id r

  abbrev pub apply_success : Payment → String → Till (Unit {0})
  apply_success p i = call (g.fetch_payment i) >>= apply_fetched p

  abbrev pub apply_event : WebhookBody → Payment → Option String → Till (Unit {0})
  apply_event b p none = return tt
  apply_event b p (some i) =
      if text_eq i ""
      then return tt
      else if is_failure b
      then apply_remote_payment g now p.id (failed_attempt b p i)
      else apply_success p i

  abbrev pub process_for : WebhookBody → Option Payment → Till (Unit {0})
  process_for b none = return tt
  process_for b (some p) =
      if is_failure b || is_success b then apply_event b p (named_payment b p) else return tt

  -- `processWebhookEvent`.
  unfoldable pub process_webhook_event : WebhookBody → Till (Unit {0})
  process_webhook_event b c = process_for b (row_of b c) c

  abbrev pub handle_body : Option WebhookBody → Till Bool
  handle_body none c = (c, err webhook_payload_invalid)
  handle_body (some b) c =
      let k = webhook_dedupe_key g.trim b in
      if is_processed (find? (has_key k) c.events)
      then (c, ok true)
      else settle_event k (process_webhook_event b (receive_event k c))

  -- `handleWebhook`; whether it is a duplicate.
  unfoldable pub handle_webhook : String → Option String → Till Bool
  handle_webhook body signature c =
      if g.verify_webhook body signature
      then handle_body (g.parse body) c
      else (c, err webhook_signature_invalid)
