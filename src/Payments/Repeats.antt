-- ===== src/Payments/Repeats.antt =====
-- A webhook that is delivered again (src/modules/payments/payments.service.ts).
use Prim.Native.String.{String}
use vikram_backend.Prelude.{
  ℕ, ◌≡◌, refl, sym, subst, ap, Bool, true, Option, some, List, find?, find?-holds, Option-cases,
  Bool-cases, inl, inr, Result, ok, err,
}
use vikram_backend.Prelude.Rows.{find?-update_first}
use vikram_backend.Orders.Placement.Repeating.{text_eq_self}
use vikram_backend.Payments.Gateway.{Gateway, WebhookBody, webhook_dedupe_key}
use vikram_backend.Payments.Rows.{Cashier, WebhookEvent, WebhookProcessingStatus, PaymentError}
use vikram_backend.Payments.Webhooks.{
  handle_webhook, handle_body, process_webhook_event, settle_event, mark_event, receive_event,
  has_key, is_processed,
}
use vikram_backend.Payments.Events.{process-Sound}
use vikram_backend.Payments.Reads.{Distinct}
use vikram_backend.Payments.Steps.{History}
use vikram_backend.Payments.Handled.{IsDone, History-IsDone}

abbrev IsRecorded : String → List WebhookEvent → Type 0
IsRecorded k es = (e : WebhookEvent) × (find? (has_key k) es ≡ some e)

receive_event-IsRecorded : (k : String) (c : Cashier) → IsRecorded k (receive_event k c).events
receive_event-IsRecorded k c = elim (Option-cases (find? (has_key k) c.events)) [
  | inl n ↦ rw (n, text_eq_self k) (_, refl)
  | inr (e, n) ↦ rw n (e, n)
]

-- After the mark, the event is processed.
mark_event-processed :
    (k : String) (c : Cashier)
    → IsRecorded k c.events
    → is_processed (find? (has_key k) (mark_event k WebhookProcessingStatus.processed c).events)
      ≡ true
mark_event-processed k c (e, n) =
    let f =
      λ (x : WebhookEvent). record x { processing_status = WebhookProcessingStatus.processed } in
    rw
      (find?-update_first (has_key k) (has_key k) f c.events e n
        (find?-holds (has_key k) c.events n))
      refl

settle_event-ok :
    (k : String) (r : Cashier × Result PaymentError (Unit {0})) (d : Cashier) (b : Bool)
    → settle_event k r ≡ (d, ok b)
    → mark_event k WebhookProcessingStatus.processed r.0 ≡ d
settle_event-ok k (c, ok a) d b h = ap (λ (x : Cashier × Result PaymentError Bool). x.0) h
settle_event-ok k (c, err e) d b h = absurd (cc h)

body-processed :
    (g : Gateway) (now : ℕ) (b : WebhookBody) (c d : Cashier) (dup : Bool)
    → handle_body g now (some b) c ≡ (d, ok dup)
    → is_processed (find? (has_key (webhook_dedupe_key g.trim b)) d.events) ≡ true
body-processed g now b c d dup h =
    let k = webhook_dedupe_key g.trim b in
    let start = receive_event k c in
    let r = process_webhook_event g now b start in
    elim (Bool-cases (is_processed (find? (has_key k) c.events))) [
      | inl p ↦
          let same : c ≡ d = ap (λ (x : Cashier × Result PaymentError Bool). x.0) (rw p at h) in
          subst (λ (x : Cashier). is_processed (find? (has_key k) x.events) ≡ true) same p
      | inr p ↦
          let settled : settle_event k r ≡ (d, ok dup) = rw p at h in
          let recorded : IsRecorded k r.0.events =
            subst (IsRecorded k) (sym (process-Sound 0 g now b start).events)
              (receive_event-IsRecorded k c) in
          subst (λ (x : Cashier). is_processed (find? (has_key k) x.events) ≡ true)
            (settle_event-ok k r d dup settled) (mark_event-processed k r.0 recorded)
    ]

-- A webhook that was handled without an error and is delivered again, with a valid signature, at any
-- later time, whatever the application, but for making a checkout, the webhook and the timer asked of
-- the payments in between and whatever the gateway answers, is answered as a duplicate and changes
-- nothing, provided that its body is read the same way and that no two payment rows had one id.
pub handle_webhook_again :
    (am : ℕ → ℕ → ℕ) (g g' : Gateway) (now later : ℕ) (body : String) (s s' : Option String)
    (c d e : Cashier) (dup : Bool)
    → handle_webhook g now body s c ≡ (d, ok dup)
    → Distinct d.payments
    → History am d e
    → g'.verify_webhook body s' ≡ true
    → g'.parse body ≡ g.parse body
    → g'.trim ≡ g.trim
    → handle_webhook g' later body s' e ≡ (e, ok true)
unfolding handle_webhook
handle_webhook_again am g g' now later body s s' c d e dup h u between v same t =
    elim (Bool-cases (g.verify_webhook body s)) [
      | inr n ↦ absurd (cc (rw n at h))
      | inl n ↦ elim (Option-cases (g.parse body)) [
        | inl m ↦ absurd (cc (rw (n, m) at h))
        | inr (b, m) ↦
            let first : handle_body g now (some b) c ≡ (d, ok dup) = rw (n, m) at h in
            let done : IsDone (webhook_dedupe_key g'.trim b) d.events =
              subst (λ (f : String → String). IsDone (webhook_dedupe_key f b) d.events) (sym t)
                (body-processed g now b c d dup first) in
            let still = History-IsDone am (webhook_dedupe_key g'.trim b) between u done in
            rw (v, same, m, still) refl
      ]
    ]
