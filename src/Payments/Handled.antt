-- ===== src/Payments/Handled.antt =====
-- An event of the webhook that was processed stays processed, whatever is done to the payments
-- (src/modules/payments/payments.service.ts).
use Prim.Native.String.{String}
use text.Mathlib.TextEquality.{eq_iff}
use vikram_backend.Prelude.{
  ℕ, ◌≡◌, sym, subst, true, false, Option, some, none, List, [], ◌∷◌, find?, update_first, is_some,
  Bool-cases, inl, inr, Result, ok, err,
}
use vikram_backend.Orders.Status.{text_eq}
use vikram_backend.Payments.Gateway.{Gateway, WebhookBody, webhook_dedupe_key}
use vikram_backend.Payments.Rows.{Cashier, WebhookEvent, WebhookProcessingStatus, PaymentError}
use vikram_backend.Payments.Webhooks.{
  handle_webhook, handle_body, process_webhook_event, settle_event, receive_event, has_key,
  is_processed,
}
use vikram_backend.Payments.Timely.{Rows, sync-Rows, stale-Rows, get_status-Rows}
use vikram_backend.Payments.Callbacks.{cancel-Rows, verify-Rows}
use vikram_backend.Payments.Events.{process-Sound}
use vikram_backend.Payments.Reads.{Distinct, AllFollow-Distinct}
use vikram_backend.Payments.Steps.{
  Step, History, start, later, rows_follow, step_sync, step_stale, step_status, step_cancel,
  step_verify, step_webhook,
}

abbrev pub IsDone : String → List WebhookEvent → Type 0
IsDone k es = is_processed (find? (has_key k) es) ≡ true

other_key :
    (k k' : String) (e : WebhookEvent)
    → text_eq k' k ≡ false
    → has_key k' e ≡ true
    → has_key k e ≡ false
other_key k k' e d h =
    subst (λ (s : String). text_eq s k ≡ false) (sym ((eq_iff e.dedupe_key k').0 h)) d

-- The mark of another event.
mark-IsDone :
    (k k' : String) (s : WebhookProcessingStatus) (es : List WebhookEvent)
    → text_eq k' k ≡ false
    → IsDone k es
    → IsDone k
        (update_first (has_key k') (λ (e : WebhookEvent). record e { processing_status = s }) es)
mark-IsDone k k' s [] d h = h
mark-IsDone k k' s (e ∷ es) d h = elim (Bool-cases (has_key k' e)) [
  | inl b ↦ let other : has_key k e ≡ false = other_key k k' e d b in rw (b, other) (rw other at h)
  | inr b ↦ elim (Bool-cases (has_key k e)) [
    | inl x ↦ rw (b, x) (rw x at h)
    | inr x ↦ rw (b, x) (mark-IsDone k k' s es d (rw x at h))
  ]
]

receive-IsDone :
    (k k' : String) (c : Cashier)
    → text_eq k' k ≡ false
    → IsDone k c.events
    → IsDone k (receive_event k' c).events
receive-IsDone k k' c d h = elim (Bool-cases (is_some (find? (has_key k') c.events))) [
  | inl b ↦ rw b h
  | inr b ↦ rw (b, d) h
]

settle-IsDone :
    (k k' : String) (r : Cashier × Result PaymentError (Unit {0}))
    → text_eq k' k ≡ false
    → IsDone k r.0.events
    → IsDone k (settle_event k' r).0.events
settle-IsDone k k' (c, ok a) d h = mark-IsDone k k' WebhookProcessingStatus.processed c.events d h
settle-IsDone k k' (c, err e) d h = mark-IsDone k k' WebhookProcessingStatus.failed c.events d h

-- An event that is not processed is another one.
IsDone-other :
    (k k' : String) (es : List WebhookEvent)
    → IsDone k es
    → is_processed (find? (has_key k') es) ≡ false
    → text_eq k' k ≡ false
IsDone-other k k' es h n = elim (Bool-cases (text_eq k' k)) [
  | inr b ↦ b
  | inl b ↦
      let done : IsDone k' es = subst (λ (s : String). IsDone s es) (sym ((eq_iff k' k).0 b)) h in
      absurd (cc (done, n))
]

body-IsDone :
    (g : Gateway) (now : ℕ) (k : String) (o : Option WebhookBody) (c : Cashier)
    → IsDone k c.events
    → IsDone k (handle_body g now o c).0.events
body-IsDone g now k none c h = h
body-IsDone g now k (some b) c h =
    let k' = webhook_dedupe_key g.trim b in
    let start = receive_event k' c in
    elim (Bool-cases (is_processed (find? (has_key k') c.events))) [
      | inl p ↦ rw p h
      | inr p ↦
          let other : text_eq k' k ≡ false = IsDone-other k k' c.events h p in
          let r = process_webhook_event g now b start in
          let done : IsDone k r.0.events =
            subst (IsDone k) (sym (process-Sound 0 g now b start).events)
              (receive-IsDone k k' c other h) in
          rw p (settle-IsDone k k' r other done)
    ]

webhook-IsDone :
    (g : Gateway) (now : ℕ) (body : String) (s : Option String) (k : String) (c : Cashier)
    → IsDone k c.events
    → IsDone k (handle_webhook g now body s c).0.events
unfolding handle_webhook
webhook-IsDone g now body s k c h = elim (Bool-cases (g.verify_webhook body s)) [
  | inl b ↦ rw b (body-IsDone g now k (g.parse body) c h)
  | inr b ↦ rw b h
]

kept-IsDone : (k : String) {c d : Cashier} → Rows c d → IsDone k c.events → IsDone k d.events
kept-IsDone k r h = subst (IsDone k) (sym r.events) h

module _ (am : ℕ → ℕ → ℕ) (k : String) where
  Step-IsDone :
      {c d : Cashier} → Step am c d → Distinct c.payments → IsDone k c.events → IsDone k d.events
  Step-IsDone (step_sync g now i c) u h = kept-IsDone k (sync-Rows am g now i c) h
  Step-IsDone (step_stale g now c) u h = kept-IsDone k (stale-Rows am g now c) h
  Step-IsDone (step_status g now customer i b c) u h =
      kept-IsDone k (get_status-Rows am g now customer i b c) h
  Step-IsDone (step_cancel g now customer i c) u h =
      kept-IsDone k (cancel-Rows am g now customer i c) h
  Step-IsDone (step_verify g now customer x c) u h =
      kept-IsDone k (verify-Rows am g now customer x c u) h
  Step-IsDone (step_webhook g now body s c) u h = webhook-IsDone g now body s k c h

  pub History-IsDone :
      {c d : Cashier} → History am c d → Distinct c.payments → IsDone k c.events → IsDone k d.events
  History-IsDone {c} start u h = h
  History-IsDone (later t s) u h =
      Step-IsDone s (AllFollow-Distinct (rows_follow am t u) u) (History-IsDone t u h)
