-- ===== src/Payments/Events.antt =====
-- What an event of the webhook keeps (src/modules/payments/payments.service.ts).
use Prim.Native.String.{String}
use vikram_backend.Prelude.{◌||◌, ℕ, Option, some, none}
use vikram_backend.Prelude.Handlers.{bind-Respects, if-Respects, return}
use vikram_backend.Orders.Status.{text_eq}
use vikram_backend.Payments.Gateway.{Gateway, WebhookBody}
use vikram_backend.Payments.Rows.{Payment}
use vikram_backend.Payments.Remote.{apply_remote_payment}
use vikram_backend.Payments.Sync.{call}
use vikram_backend.Payments.Webhooks.{
  process_webhook_event, row_of, process_for, apply_event, named_payment, failed_attempt,
  apply_success, apply_fetched, is_failure, is_success,
}
use vikram_backend.Payments.Keeps.{Safe, Sound, Safe-refl, Safe-IsPreorder, apply-Sound}
use vikram_backend.Payments.Timely.{call-Sound, checked-Sound}

module _ (j : ℕ) (g : Gateway) (now : ℕ) where
  success-Sound : (p : Payment) (i : String) → Sound j (apply_success g now p i)
  success-Sound p i =
      bind-Respects (Safe j) (Safe-IsPreorder j) (call (g.fetch_payment i)) (apply_fetched g now p)
        (call-Sound j (g.fetch_payment i)) (checked-Sound j g now p)

  event-Sound :
      (b : WebhookBody) (p : Payment) (o : Option String) → Sound j (apply_event g now b p o)
  event-Sound b p none c = Safe-refl j c
  event-Sound b p (some i) c =
      if-Respects (Safe j) (Safe-IsPreorder j) (text_eq i "") (return tt) _ c (Safe-refl j c) (
        if-Respects (Safe j) (Safe-IsPreorder j) (is_failure b)
          (apply_remote_payment g now p.id (failed_attempt b p i)) (apply_success g now p i) c
          (apply-Sound j g now p.id (failed_attempt b p i) c) (success-Sound p i c))

  process_for-Sound : (b : WebhookBody) (o : Option Payment) → Sound j (process_for g now b o)
  process_for-Sound b none c = Safe-refl j c
  process_for-Sound b (some p) c =
      if-Respects (Safe j) (Safe-IsPreorder j) (is_failure b || is_success b)
        (apply_event g now b p (named_payment b p)) (return tt) c
        (event-Sound b p (named_payment b p) c) (Safe-refl j c)

  pub process-Sound : (b : WebhookBody) → Sound j (process_webhook_event g now b)
  unfolding process_webhook_event
  process-Sound b c = process_for-Sound b (row_of b c) c
