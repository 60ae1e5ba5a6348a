-- ===== src/Payments/Keeps.antt =====
-- What the operations on payments keep: their rows follow the table of the transitions, and no order is
-- cancelled (src/modules/payments/payments.service.ts). The rules for handlers, and the rows' operations.
use Prim.Native.String.{String}
use vikram_backend.Prelude.{
  ◌∙◌, ℕ, ◌≡◌, refl, Bool, true, false, Option, some, none, arith, find?, not, ◌&&◌, Option-cases,
  Bool-cases, if_either, inl, inr, Result,
}
use vikram_backend.Prelude.Handlers.{
  IsPreorder, continue-Respects, bind-Respects, if-Respects, ◌>>=◌, write, require, return,
}
use vikram_backend.Orders.Status.{OrderStatus, same_status}
use vikram_backend.Orders.World.{World, Order, update_order}
use vikram_backend.Orders.Customer.{
  confirm_paid_order, ConfirmPaidOrderResult, order_cancelled, not_found, confirmed,
  already_confirmed,
}
use vikram_backend.Payments.Gateway.{
  Gateway, GatewayPaymentStatus, RazorpayPaymentRecord, RemoteStatus, can_transition_gateway_status,
  same_gateway,
}
use vikram_backend.Payments.Rows.{
  Payment, Cashier, PaymentError, Till, has_id, find_payment, update_payment, transition_payment,
  transition_row, Extra, confirm_order_for_payment, confirm_in_flight, confirm_order, record_refund,
  assert_remote_matches, mismatch, is_in_flight, is_money, same_payment_id, is_used_elsewhere,
}
use vikram_backend.Payments.Remote.{
  ensure_captured, apply_remote_payment, apply_status, apply_money, fail_payment, fail_order,
  failed_extra, note_failure, is_other_attempt, status_after_capture,
}
use vikram_backend.Payments.Statuses.{
  AllFollow, AllFollow-refl, AllFollow-trans, Follows, stay, go, found_self, update-AllFollow,
}

abbrev pub is_cancelled_row : Option Order → Bool
is_cancelled_row none = false
is_cancelled_row (some o) = same_status o.status OrderStatus.cancelled

-- Order j is not cancelled.
abbrev pub IsLive : ℕ → World → Type 0
IsLive j w = is_cancelled_row (w.order j) ≡ false

pub record Safe (j : ℕ) (c d : Cashier) : Type 0 where
  pub rows : AllFollow c.payments d.payments
  pub orders : IsLive j c.world → IsLive j d.world
  pub events : d.events ≡ c.events

abbrev pub Found : ℕ → Cashier → Payment → Type 0
Found i c p = find? (has_id i) c.payments ≡ some p

module _ (j : ℕ) where
  abbrev pub Sound {ℓ} : {A : Type ℓ} → Till A → Type 0
  Sound m = (c : Cashier) → Safe j c (m c).0

  pub Safe-refl : (c : Cashier) → Safe j c c
  Safe-refl c = record { rows = AllFollow-refl c.payments; orders = λ h. h; events = refl }

  pub Safe-trans : {c d e : Cashier} → Safe j c d → Safe j d e → Safe j c e
  Safe-trans h k = record {
    rows = AllFollow-trans h.rows k.rows;
    orders = λ x. k.orders (h.orders x);
    events = k.events ∙ h.events;
  }

  pub Safe-IsPreorder : IsPreorder (Safe j)
  Safe-IsPreorder = record { reflexive = Safe-refl; transitive = Safe-trans }

  -- A row is read, and the handler goes on with it.
  pub find-Safe {ℓ} :
      {B : Type ℓ} (i : ℕ) (f : Payment → Till B) (c : Cashier)
      → ((p : Payment) → Found i c p → Found p.id c p → Safe j c (f p c).0)
      → Safe j c ((find_payment i >>= f) c).0
  find-Safe i f c h = elim (Option-cases (find? (has_id i) c.payments)) [
    | inl n ↦ rw n (Safe-refl c)
    | inr (p, n) ↦ rw n (h p n (found_self i c.payments p n))
  ]

  -- An update that keeps the status.
  pub update-Safe :
      (i : ℕ) (f : Payment → Payment) (c : Cashier) (p : Payment)
      → Found i c p
      → Follows p (f p)
      → Safe j c (update_payment i f c)
  update-Safe i f c p e h = record {
    rows = update-AllFollow i f c.payments p e h;
    orders = λ x. x;
    events = refl;
  }

  transition_row-Follows :
      (now : ℕ) (to : GatewayPaymentStatus) (x : Extra) (p : Payment)
      → can_transition_gateway_status p.status to ≡ true
      → Follows p (transition_row now to x p)
  unfolding transition_row
  transition_row-Follows now to x p h = record {
    same_id = refl;
    same_order = refl;
    same_amount = refl;
    leads = go h stay;
  }

  pub transition-Safe :
      (now i : ℕ) (to : GatewayPaymentStatus) (x : Extra) (c : Cashier) (p : Payment)
      → Found i c p
      → Safe j c (transition_payment now i p.status to x c).0
  unfolding transition_payment
  transition-Safe now i to x c p e = elim (Bool-cases (can_transition_gateway_status p.status to)) [
    | inl b ↦
        rw (e, b)
          (update-Safe i (transition_row now to x) c p e (transition_row-Follows now to x p b))
    | inr b ↦ rw (e, b) (Safe-refl c)
  ]

  world-Safe :
      (c : Cashier) (w : World)
      → (IsLive j c.world → IsLive j w)
      → Safe j c (record c { world = w })
  world-Safe c w h = record { rows = AllFollow-refl c.payments; orders = h; events = refl }

  confirm_paid_order-IsLive :
      (now i : ℕ) (w : World) → IsLive j w → IsLive j (confirm_paid_order now i w).0
  unfolding confirm_paid_order
  confirm_paid_order-IsLive now i w h = ground arith

  fail_order-IsLive : (i : ℕ) (w : World) → IsLive j w → IsLive j (update_order i fail_order w)
  unfolding fail_order
  fail_order-IsLive i w h = ground arith

  skip_Sound : Sound {A = Unit {0}} (return tt)
  skip_Sound c = Safe-refl c

  record_refund-Safe :
      (i : ℕ) (r : ConfirmPaidOrderResult) (c : Cashier) (p : Payment)
      → Found i c p
      → Safe j c (record_refund i r c).0
  record_refund-Safe i order_cancelled c p e =
      update-Safe i _ c p e
        (record { same_id = refl; same_order = refl; same_amount = refl; leads = stay })
  record_refund-Safe i not_found c p e = Safe-refl c
  record_refund-Safe i already_confirmed c p e = Safe-refl c
  record_refund-Safe i confirmed c p e = Safe-refl c

  pub confirm-Sound : (now i : ℕ) → Sound (confirm_order_for_payment now i)
  unfolding confirm_order_for_payment
  confirm-Sound now i c = find-Safe i (confirm_in_flight now i) c λ p e s.
      if-Respects (Safe j) Safe-IsPreorder (is_in_flight p.status)
        (confirm_order now p.order_id >>= record_refund i) (return tt) c
        (let w = confirm_paid_order now p.order_id c.world in
          Safe-trans (world-Safe c w.0 (confirm_paid_order-IsLive now p.order_id c.world))
            (record_refund-Safe i w.1 (record c { world = w.0 }) p e))
        (Safe-refl c)

  pub assert-Sound :
      (up : String → String) (now : ℕ) (p : Payment) (r : RazorpayPaymentRecord)
      → Sound (assert_remote_matches up now p r)
  unfolding assert_remote_matches
  assert-Sound up now p r c = elim (Option-cases (mismatch up p r)) [
    | inl n ↦ rw n (Safe-refl c)
    | inr ((code, x), n) ↦ rw n (
        find-Safe p.id _ c λ q e s.
          continue-Respects (Safe j) Safe-IsPreorder c _ (λ _. require false x)
            (transition-Safe now p.id _ _ c q e) (λ a. Safe-refl _))
  ]

  ensure-Sound :
      (g : Gateway) (now i : ℕ) (r : RazorpayPaymentRecord) → Sound (ensure_captured g now i r)
  unfolding ensure_captured
  ensure-Sound g now i r c = find-Safe i _ c λ p e s.
      elim (Bool-cases (is_money (status_after_capture g r p.amount_paise r.status))) [
        | inl b ↦ rw b (transition-Safe now i _ _ c p e)
        | inr b ↦ rw b (Safe-refl c)
      ]

  apply_money-Safe :
      (g : Gateway) (now : ℕ) (p : Payment) (r : RazorpayPaymentRecord)
      → Sound (apply_money g now p r)
  apply_money-Safe g now p r c =
      if_either (λ (x : Cashier × Result PaymentError (Unit {0})). Safe j c x.0)
        (not (same_payment_id p.provider_payment_id r.id) && is_used_elsewhere r.id p.id c)
        (λ _. Safe-refl c)
        (λ _.
          bind-Respects (Safe j) Safe-IsPreorder (ensure_captured g now p.id r)
            (λ _. confirm_order_for_payment now p.id) (ensure-Sound g now p.id r)
            (λ _. confirm-Sound now p.id) c)

  fail_payment-Safe :
      (now : ℕ) (r : RazorpayPaymentRecord) (c : Cashier) (p : Payment)
      → Found p.id c p
      → Safe j c (fail_payment now p r c).0
  fail_payment-Safe now r c p e =
      let m = transition_payment now p.id p.status GatewayPaymentStatus.failed (failed_extra r) in
      let d = (m c).0 in
      continue-Respects {0, 0} (Safe j) Safe-IsPreorder c (m c)
        (λ _. write (note_failure p.order_id))
        (transition-Safe now p.id GatewayPaymentStatus.failed (failed_extra r) c p e)
        (λ _.
          world-Safe d (update_order p.order_id fail_order d.world)
            (fail_order-IsLive p.order_id d.world))

  apply_status-Safe :
      (g : Gateway) (now : ℕ) (r : RazorpayPaymentRecord) (s : RemoteStatus) (c : Cashier)
      (p : Payment)
      → Found p.id c p
      → Safe j c (apply_status g now p r s c).0
  apply_status-Safe g now r RemoteStatus.captured c p e = apply_money-Safe g now p r c
  apply_status-Safe g now r RemoteStatus.authorized c p e = apply_money-Safe g now p r c
  apply_status-Safe g now r RemoteStatus.failed c p e =
      if-Respects (Safe j) Safe-IsPreorder (is_other_attempt p r.id) (return tt)
        (fail_payment now p r) c (Safe-refl c) (fail_payment-Safe now r c p e)
  apply_status-Safe g now r RemoteStatus.created c p e =
      if-Respects (Safe j) Safe-IsPreorder (same_gateway p.status GatewayPaymentStatus.created) _
        (return tt) c (transition-Safe now p.id GatewayPaymentStatus.pending _ c p e) (Safe-refl c)
  apply_status-Safe g now r RemoteStatus.other c p e = Safe-refl c

  pub apply-Sound :
      (g : Gateway) (now i : ℕ) (r : RazorpayPaymentRecord) → Sound (apply_remote_payment g now i r)
  unfolding apply_remote_payment
  apply-Sound g now i r c =
      find-Safe i (λ p. apply_status g now p r r.status) c
        λ p e s. apply_status-Safe g now r r.status c p s
