-- ===== src/Payments/Steps.antt =====
-- Histories of the payments: the operations of src/modules/payments/payments.service.ts but for making
-- a checkout, each with its own time and its own answers of the gateway.
use Prim.Native.String.{String}
use vikram_backend.Prelude.{
  subst, if_either, find?, List, ℕ, ◌≡◌, Bool, Option, some, none, arith, Bool-cases, inl, inr,
  Result, ok, err,
}
use vikram_backend.Payments.Gateway.{Gateway, WebhookBody, webhook_dedupe_key}
use vikram_backend.Payments.Rows.{Payment, Cashier, PaymentError}
use vikram_backend.Payments.Statuses.{AllFollow, AllFollow-refl, AllFollow-trans}
use vikram_backend.Payments.Sync.{sync_order_payment, reconcile_stale_pending_orders, get_status}
use vikram_backend.Payments.Checkout.{VerifyInput, cancel_checkout, verify_checkout_payment}
use vikram_backend.Payments.Webhooks.{
  handle_webhook, process_webhook_event, is_processed, has_key, handle_body, settle_event,
  receive_event,
}
use vikram_backend.Payments.Timely.{sync-Rows, stale-Rows, get_status-Rows}
use vikram_backend.Payments.Events.{process-Sound}
use vikram_backend.Payments.Callbacks.{cancel-Rows, verify-Rows}
use vikram_backend.Payments.Reads.{Distinct, AllFollow-Distinct}

-- The rows of the payments alone, since the webhook writes events.
abbrev Follow : Cashier → Cashier → Type 0
Follow c d = AllFollow c.payments d.payments

module _ (g : Gateway) (now : ℕ) where
  settle-Rows :
      (k : String) (c : Cashier) (r : Cashier × Result PaymentError (Unit {0}))
      → Follow c r.0
      → Follow c (settle_event k r).0
  settle-Rows k c (d, ok a) h = h
  settle-Rows k c (d, err e) h = h

  receive_event-payments : (k : String) (c : Cashier) → (receive_event k c).payments ≡ c.payments
  receive_event-payments k c = ground arith

  body-Rows : (o : Option WebhookBody) (c : Cashier) → Follow c (handle_body g now o c).0
  body-Rows none c = AllFollow-refl c.payments
  body-Rows (some b) c =
      let k = webhook_dedupe_key g.trim b in
      let d = receive_event k c in
      let done : Follow c (process_webhook_event g now b d).0 =
        subst (λ (ps : List Payment). AllFollow ps (process_webhook_event g now b d).0.payments)
          (receive_event-payments k c) ((process-Sound 0 g now b d).rows) in
      if_either (λ (x : Cashier × Result PaymentError Bool). Follow c x.0)
        (is_processed (find? (has_key k) c.events)) (λ _. AllFollow-refl c.payments)
        (λ _. settle-Rows k c (process_webhook_event g now b d) done)

  pub webhook-Rows :
      (body : String) (signature : Option String) (c : Cashier)
      → Follow c (handle_webhook g now body signature c).0
  unfolding handle_webhook
  webhook-Rows body signature c = elim (Bool-cases (g.verify_webhook body signature)) [
    | inl b ↦ rw b (body-Rows (g.parse body) c)
    | inr b ↦ rw b (AllFollow-refl c.payments)
  ]

module _ (am : ℕ → ℕ → ℕ) where
  -- One operation, whether it fails or not.
  pub data Step : Cashier → Cashier → Type 0 where
    step_sync : (g : Gateway) (now i : ℕ) (c : Cashier) → Step c (sync_order_payment am g now i c).0
    step_stale :
        (g : Gateway) (now : ℕ) (c : Cashier) → Step c (reconcile_stale_pending_orders am g now c).0
    step_status :
        (g : Gateway) (now customer i : ℕ) (b : Bool) (c : Cashier)
        → Step c (get_status am g now customer i b c).0
    step_cancel :
        (g : Gateway) (now customer i : ℕ) (c : Cashier)
        → Step c (cancel_checkout am g now customer i c).0
    step_verify :
        (g : Gateway) (now customer : ℕ) (x : VerifyInput) (c : Cashier)
        → Step c (verify_checkout_payment am g now customer x c).0
    step_webhook :
        (g : Gateway) (now : ℕ) (body : String) (signature : Option String) (c : Cashier)
        → Step c (handle_webhook g now body signature c).0

  pub data History : Cashier → Cashier → Type 0 where
    start : {c : Cashier} → History c c
    later : {c d e : Cashier} → History c d → Step d e → History c e

  Step-Rows : {c d : Cashier} → Step c d → Distinct c.payments → Follow c d
  Step-Rows (step_sync g now i c) h = (sync-Rows am g now i c).rows
  Step-Rows (step_stale g now c) h = (stale-Rows am g now c).rows
  Step-Rows (step_status g now customer i b c) h = (get_status-Rows am g now customer i b c).rows
  Step-Rows (step_cancel g now customer i c) h = (cancel-Rows am g now customer i c).rows
  Step-Rows (step_verify g now customer x c) h = (verify-Rows am g now customer x c h).rows
  Step-Rows (step_webhook g now body signature c) h = webhook-Rows g now body signature c

-- Whatever the gateway answers, and whatever the application, but for making a checkout, the webhook and
-- the timer ask of the payments, in any order and whether it fails or not, the release of orders that
-- were not paid in time included, the rows of the payments stay in place with their ids, orders and
-- amounts, and the status of each goes a way through the table of the transitions, provided that no
-- two rows had one id.
pub rows_follow :
    (am : ℕ → ℕ → ℕ) {c d : Cashier}
    → History am c d
    → Distinct c.payments
    → AllFollow c.payments d.payments
rows_follow am {c} start h = AllFollow-refl c.payments
rows_follow am (later k s) h =
    let before = rows_follow am k h in
    AllFollow-trans before (Step-Rows am s (AllFollow-Distinct before h))
