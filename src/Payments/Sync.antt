-- ===== src/Payments/Sync.antt =====
-- Bringing orders in line with the gateway (src/modules/payments/payments.service.ts). What the
-- operations answer for the application to show is derived from the rows and left out.
use vikram_backend.Prelude.{
  ℕ, ◌+◌, ◌*◌, Bool, false, not, ◌&&◌, Option, none, some, List, [], ◌∷◌, ◌==◌, leb, if◌then◌else◌,
  find?, update_where, is_some, filter_if, take, Result, ok, err,
}
use vikram_backend.Prelude.Handlers.{for_each, ◌>>=◌, ◌>>◌, return}
use vikram_backend.Orders.Status.{same_status, OrderStatus}
use vikram_backend.Orders.World.{World, Order, OrderError, find_live, is_unpaid_online, is_razorpay}
use vikram_backend.Orders.Customer.{release_unpaid_online_order, is_unpaid_checkout}
use vikram_backend.Payments.Gateway.{
  Gateway, GatewayPaymentStatus, same_gateway, one_of, RazorpayPaymentRecord,
  pick_authoritative_payment,
}
use vikram_backend.Payments.Rows.{
  Payment, Cashier, PaymentError, order_not_found, gateway, orders, Till, is_in_flight, is_money,
  assert_remote_matches, confirm_order_for_payment,
}
use vikram_backend.Payments.Remote.{apply_remote_payment}

-- What the gateway's call answers, or its exception.
abbrev pub call {ℓ} : {A : Type ℓ} → Result (Unit {0}) A → Till A
call (ok a) c = (c, ok a)
call (err e) c = (c, err gateway)

-- try ... catch that goes on: what was written stays.
abbrev pub attempt {ℓ} : {A : Type ℓ} → Till A → Till (Unit {0})
attempt m c = ((m c).0, ok tt)

abbrev pub in_world {ℓ} :
    {A : Type ℓ} → Cashier → World × Result OrderError A → Cashier × Result PaymentError A
in_world c (w, ok a) = (record c { world = w }, ok a)
in_world c (w, err e) = (record c { world = w }, err (orders e))

-- SETTLED_GATEWAY_STATUSES.
abbrev pub is_settled_gateway : GatewayPaymentStatus → Bool
is_settled_gateway s =
    one_of
      (GatewayPaymentStatus.captured ∷ GatewayPaymentStatus.refunded
        ∷ GatewayPaymentStatus.verification_failed ∷ [])
      s

abbrev pub assert_if_money : Gateway → ℕ → Payment → RazorpayPaymentRecord → Till (Unit {0})
assert_if_money g now p r =
    if is_money r.status then assert_remote_matches g.to_upper now p r else return tt

abbrev pub reconcile_with : Gateway → ℕ → Payment → Option RazorpayPaymentRecord → Till (Unit {0})
reconcile_with g now p none = return tt
reconcile_with g now p (some r) = assert_if_money g now p r >> apply_remote_payment g now p.id r

abbrev pub reconcile_settled : ℕ → Payment → Till (Unit {0})
reconcile_settled now p =
    if same_gateway p.status GatewayPaymentStatus.captured
    then confirm_order_for_payment now p.id
    else return tt

-- `reconcilePayment`.
unfoldable pub reconcile_payment : Gateway → ℕ → Payment → Till (Unit {0})
reconcile_payment g now p =
    if is_settled_gateway p.status
    then reconcile_settled now p
    else call (g.fetch_order_payments p.provider_order_id) >>= λ rs.
        reconcile_with g now p (pick_authoritative_payment rs)

abbrev pub of_order : ℕ → Payment → Bool
of_order i p = i == p.order_id

abbrev pub payments_of : ℕ → Cashier → List Payment
payments_of i c = filter_if (of_order i) c.payments

abbrev pub is_moving : ℕ → Payment → Bool
is_moving i p = of_order i p && is_in_flight p.status

-- `moneyMoved`.
abbrev pub money_moved : ℕ → Cashier → Bool
money_moved i c = is_some (find? (is_moving i) c.payments)

-- `expiresAt`, 30 minutes when the configuration has no positive number.
abbrev pub expires_at : Gateway → ℕ → ℕ
expires_at g made =
    made + (if leb 1 g.pending_expiry_minutes then g.pending_expiry_minutes else 30) * 60000

abbrev pub is_expired : Gateway → ℕ → ℕ → Option Order → Cashier → Bool
is_expired g now i none c = false
is_expired g now i (some o) c =
    not (money_moved i c)
    && same_status o.status OrderStatus.pending
    && is_unpaid_online o.payment_status
    && leb (expires_at g (c.created_at i)) now

abbrev pub found_order : Cashier → Option Order → Cashier × Result PaymentError Order
found_order c none = (c, err order_not_found)
found_order c (some o) = (c, ok o)

-- The order of a payment.
abbrev pub find_order : ℕ → Till Order
find_order i c = found_order c (c.world.order i)

abbrev pub owned_live : ℕ → Option Order → Bool
owned_live customer none = false
owned_live customer (some o) = o.customer_id == customer

-- The rows of the order, as they were read.
unfoldable pub reconcile_all : Gateway → ℕ → List Payment → Till (Unit {0})
reconcile_all g now ps = for_each (reconcile_payment g now) ps

abbrev pub is_synced : Gateway → Option Order → Bool
is_synced g none = false
is_synced g (some o) = is_razorpay o.payment_method && g.is_configured

-- `updateMany` of the order's rows in `releaseUnpaidOnlineOrder`, which does not ask the table of the
-- transitions.
abbrev pub is_unpaid_row : GatewayPaymentStatus → Bool
is_unpaid_row =
    one_of (
      GatewayPaymentStatus.created ∷ GatewayPaymentStatus.pending ∷ GatewayPaymentStatus.failed
      ∷ [])

abbrev pub cancelled_row : Payment → Payment
cancelled_row p = record p { status = GatewayPaymentStatus.cancelled }

unfoldable pub cancel_rows : ℕ → List Payment → List Payment
cancel_rows i ps = update_where (λ p. of_order i p && is_unpaid_row p.status) cancelled_row ps

-- The order is there and still unpaid: the release's own `updateMany` finds it.
abbrev pub is_releasable : Option Order → Bool
is_releasable none = false
is_releasable (some o) = is_unpaid_checkout o

unfoldable pub release_rows : ℕ → Cashier → Cashier
unfolding cancel_rows
release_rows i c = record c {
  payments = if is_releasable (find_live c.world i) then cancel_rows i c.payments else c.payments;
}

module _ (am : ℕ → ℕ → ℕ) (g : Gateway) (now : ℕ) where
  -- `releaseUnpaidOnlineOrder`, with the payment rows.
  abbrev pub release_order : ℕ → Till Bool
  release_order i c = in_world (release_rows i c) (release_unpaid_online_order am now i c.world)

  -- The end of `syncOrderPayment`.
  unfoldable pub release_expired : ℕ → Till (Unit {0})
  unfolding release_rows
  release_expired i c =
      if is_expired g now i (c.world.order i) c
      then (release_order i >>= λ _. return tt) c
      else return tt c

  -- `syncOrderPayment`.
  unfoldable pub sync_order_payment : ℕ → Till (Unit {0})
  sync_order_payment i c =
      if is_synced g (find_live c.world i)
      then (reconcile_all g now (payments_of i c) >> release_expired i) c
      else return tt c

  abbrev pub is_candidate : Cashier → ℕ → Option Order → Bool
  is_candidate c i none = false
  is_candidate c i (some o) =
      is_razorpay o.payment_method
      && is_unpaid_online o.payment_status
      && same_status o.status OrderStatus.pending
      && leb (c.created_at i + 120000) now

  abbrev pub candidates : Cashier → List ℕ
  candidates c = take 50 (filter_if (λ i. is_candidate c i (find_live c.world i)) c.world.order_ids)

  -- `reconcileStalePendingOrders`, with the keys of the orders from the oldest on.
  unfoldable pub reconcile_stale_pending_orders : Till (Unit {0})
  reconcile_stale_pending_orders c = for_each (λ i. attempt (sync_order_payment i)) (candidates c) c

  -- `getStatus`, but for what it answers.
  unfoldable pub get_status : ℕ → ℕ → Bool → Till (Unit {0})
  get_status customer i reconcile c =
      if owned_live customer (find_live c.world i)
      then (if reconcile then attempt (sync_order_payment i) c else (c, ok tt))
      else (c, err order_not_found)
