-- ===== src/Payments/Tests.antt =====
-- Payments of an online order at a gateway that answers in one way, and the theorems at them.
use Prim.Native.String.{String}
use vikram_backend.Prelude.{
  ℕ, ◌≡◌, refl, inl, inr, Bool, true, false, some, none, List, [], ◌∷◌, arith, Result, ok, err,
}
use vikram_backend.Orders.Status.{OrderStatus}
use vikram_backend.Orders.Customer.{confirm_paid_order}
use vikram_backend.Orders.World.{PaymentStatus}
use vikram_backend.Orders.Tests.{add_months, same_text, world_of, online_order}
use vikram_backend.Payments.Gateway.{
  Gateway, GatewayPaymentStatus, can_transition_gateway_status, RazorpayPaymentRecord, RemoteStatus,
  WebhookBody, pick_authoritative_payment,
}
use vikram_backend.Payments.Rows.{
  Cashier, Payment, PaymentError, assert_remote_matches, transition_payment,
  confirm_order_for_payment, transition_row,
}
use vikram_backend.Payments.Remote.{apply_remote_payment, ensure_captured}
use vikram_backend.Payments.Statuses.{AllFollow}
use vikram_backend.Payments.Sync.{
  sync_order_payment, money_moved, reconcile_all, reconcile_payment, release_expired,
}
use vikram_backend.Payments.Webhooks.{handle_webhook, process_webhook_event}
use vikram_backend.Payments.Keeps.{IsLive}
use vikram_backend.Payments.Timely.{sync_in_flight}
use vikram_backend.Payments.Covered.{paid_in_flight}
use vikram_backend.Payments.Steps.{start, later, step_webhook, step_sync, rows_follow}
use vikram_backend.Payments.Attempts.{IsPickOf, pick_authoritative_payment_lem}
use vikram_backend.Payments.Repeats.{handle_webhook_again}
use vikram_backend.Payments.Mismatch.{Refused, process_webhook_event-Refused}

abbrev attempt_of : String → RemoteStatus → ℕ → ℕ → RazorpayPaymentRecord
attempt_of i s amount made = record {
  id = i;
  order_id = "order_A";
  amount = amount;
  currency = "INR";
  status = s;
  error_code = none;
  created_at = some made;
}

abbrev captured_hook : WebhookBody
captured_hook = record {
  event = "payment.captured";
  event_id = some "evt_1";
  payment_id = some "pay_1";
  payment_order_id = some "order_A";
  order_id = none;
  status = some RemoteStatus.captured;
  error_code = none;
}

-- The gateway's only payment is captured, of the amount given.
abbrev gateway_of : ℕ → Gateway
gateway_of amount = record {
  is_configured = true;
  pending_expiry_minutes = 30;
  verify_checkout_signature = λ order payment signature. true;
  verify_webhook = λ body signature. true;
  parse = λ body. some captured_hook;
  trim = same_text;
  to_upper = same_text;
  fetch_payment = λ i. ok (attempt_of i RemoteStatus.captured amount 7);
  fetch_order_payments = λ i. ok (attempt_of "pay_1" RemoteStatus.captured amount 7 ∷ []);
  capture_payment = λ i a. err tt;
}

abbrev row_1 : Payment
row_1 = record {
  id = 1;
  order_id = 0;
  customer_id = 9;
  provider_order_id = "order_A";
  provider_payment_id = none;
  amount_paise = 50000;
  currency = "INR";
  status = GatewayPaymentStatus.created;
  failure_code = none;
  verified_at = none;
  captured_at = none;
}

abbrev till : Cashier
till = record {
  world = world_of online_order;
  payments = row_1 ∷ [];
  events = [];
  created_at = λ i. 0;
}

abbrev handled : Cashier × Result PaymentError Bool
handled = handle_webhook (gateway_of 50000) 100 "body" (some "signature") till

-- The order is paid and goes to its hub.
paid :
    handled.0.world.order 0
    ≡ some (record online_order {
      status = OrderStatus.hub_assigned;
      payment_status = PaymentStatus.paid;
      payment_collected_at = some 100;
    })
unfolding handle_webhook process_webhook_event assert_remote_matches apply_remote_payment
    ensure_captured transition_payment can_transition_gateway_status confirm_order_for_payment
    transition_row confirm_paid_order
paid = refl

-- Between the deliveries, the order is brought in line with the gateway.
abbrev synced : Cashier
synced = (sync_order_payment add_months (gateway_of 50000) 150 0 handled.0).0

handle_webhook_again_example :
    handle_webhook (gateway_of 100) 200 "body" none synced ≡ (synced, ok true)
unfolding handle_webhook process_webhook_event assert_remote_matches apply_remote_payment
    ensure_captured transition_payment can_transition_gateway_status confirm_order_for_payment
    transition_row confirm_paid_order
handle_webhook_again_example =
    handle_webhook_again add_months (gateway_of 50000) (gateway_of 100) 100 200 "body"
      (some "signature") none till handled.0 synced false refl (refl, tt)
      (later start (step_sync (gateway_of 50000) 150 0 handled.0)) refl refl refl

sync_in_flight_example :
    IsLive 0 (sync_order_payment add_months (gateway_of 50000) 100 0 till).0.world
unfolding sync_order_payment reconcile_all reconcile_payment pick_authoritative_payment
    assert_remote_matches apply_remote_payment ensure_captured transition_payment
    can_transition_gateway_status confirm_order_for_payment transition_row confirm_paid_order
    release_expired
sync_in_flight_example = sync_in_flight add_months (gateway_of 50000) 100 0 till refl refl

rows_follow_example :
    AllFollow till.payments (handle_webhook (gateway_of 50000) 100 "body" none till).0.payments
rows_follow_example =
    rows_follow add_months (later start (step_webhook (gateway_of 50000) 100 "body" none till))
      (refl, tt)

abbrev two_attempts : List RazorpayPaymentRecord
two_attempts =
    attempt_of "pay_1" RemoteStatus.captured 50000 5
    ∷ attempt_of "pay_2" RemoteStatus.failed 50000 7
    ∷ []

pick_authoritative_payment_lem_example :
    IsPickOf two_attempts (some (attempt_of "pay_1" RemoteStatus.captured 50000 5))
unfolding pick_authoritative_payment
pick_authoritative_payment_lem_example = pick_authoritative_payment_lem two_attempts

process_webhook_event-Refused_example :
    Refused till (process_webhook_event (gateway_of 100) 100 captured_hook till)
process_webhook_event-Refused_example =
    process_webhook_event-Refused (gateway_of 100) 100 captured_hook row_1
      (attempt_of "pay_1" RemoteStatus.captured 100 7) "pay_1" till refl refl refl refl refl refl
      (inr (inl λ e. omega (arith, e)))

paid_in_flight_example :
    money_moved 0
      (apply_remote_payment
        (gateway_of 50000)
        100
        1
        (attempt_of "pay_1" RemoteStatus.captured 50000 7)
        till).0
    ≡ true
unfolding apply_remote_payment ensure_captured transition_payment can_transition_gateway_status
    confirm_order_for_payment transition_row confirm_paid_order
paid_in_flight_example =
    paid_in_flight (gateway_of 50000) 0 100 1 (attempt_of "pay_1" RemoteStatus.captured 50000 7)
      till refl refl
