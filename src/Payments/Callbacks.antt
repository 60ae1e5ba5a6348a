-- ===== src/Payments/Callbacks.antt =====
-- What the application tells of a checkout leaves the rows on their way
-- (src/modules/payments/payments.service.ts).
use vikram_backend.Prelude.{
  find?-holds, ℕ, refl, Bool, true, false, not, ◌&&◌, find?, Bool-cases, inl, inr, ◌==◌,
}
use vikram_backend.Prelude.Rows.{find?-update_first}
use vikram_backend.Prelude.Handlers.{
  continue-Respects, bind-Respects, if-Respects, continue, ◌>>=◌, ◌>>◌, return,
}
use vikram_backend.Orders.World.{Order, is_settled}
use vikram_backend.Payments.Gateway.{
  Gateway, GatewayPaymentStatus, same_gateway, RazorpayPaymentRecord,
}
use vikram_backend.Payments.Rows.{
  Payment, Cashier, has_id, find_payment, found_payment, update_payment, transition_payment,
  is_used_elsewhere, assert_remote_matches, payment_failed, payment_not_found, not_configured,
}
use vikram_backend.Payments.Remote.{apply_remote_payment}
use vikram_backend.Payments.Statuses.{stay}
use vikram_backend.Payments.Sync.{call, attempt, sync_order_payment, get_status}
use vikram_backend.Payments.Checkout.{
  VerifyInput, cancel_checkout, verify_checkout_payment, verify_remote, verify_signed, verify_new,
  sync_and_close, close_open, is_row_of, is_open, is_checkout_of, no_extra, note_mismatch,
  note_callback, cancel_owned, cancel_for, refuse_failed, verify_fetched, verify_unused,
  verify_owned, verify_for,
}
use vikram_backend.Payments.Keeps.{
  Safe-IsPreorder, Safe-refl, Safe, apply-Sound, assert-Sound, Found, transition-Safe, find-Safe,
  update-Safe,
}
use vikram_backend.Payments.Timely.{
  Rows, Rows-refl, Rows-trans, Safe-Rows, Rows-IsPreorder, call-Sound, sync-Rows, get_status-Rows,
}
use vikram_backend.Payments.Reads.{
  Distinct, find?-Distinct, read-Rows, order-Rows, require-Rows, passed-Rows,
}

module _ (am : ℕ → ℕ → ℕ) (g : Gateway) (now : ℕ) where
  close-Rows : (i : ℕ) (c : Cashier) → Rows c ((find_payment i >>= close_open now) c).0
  close-Rows i c =
      (Safe-Rows (
        find-Safe 0 i (close_open now) c λ p e s.
          if-Respects (Safe 0) (Safe-IsPreorder 0) (is_open p.status)
            (transition_payment now p.id p.status GatewayPaymentStatus.cancelled no_extra)
            (return tt) c (transition-Safe 0 now p.id GatewayPaymentStatus.cancelled no_extra c p s)
            (Safe-refl 0 c)))

  sync_and_close-Rows :
      (i : ℕ) (p : Payment) (c : Cashier) → Rows c (sync_and_close am g now i p c).0
  sync_and_close-Rows i p c =
      if-Respects Rows Rows-IsPreorder (is_open p.status)
        (attempt (sync_order_payment am g now i) >> (find_payment p.id >>= close_open now))
        (return tt) c
        (bind-Respects Rows Rows-IsPreorder (attempt (sync_order_payment am g now i))
          (λ _. find_payment p.id >>= close_open now) (sync-Rows am g now i) (λ _. close-Rows p.id)
          c)
        (Rows-refl c)

  pub cancel-Rows :
      (customer i : ℕ) (c : Cashier) → Rows c (cancel_checkout am g now customer i c).0
  unfolding cancel_checkout
  cancel-Rows customer i c =
      read-Rows (find? (is_checkout_of customer i) c.payments) (cancel_for am g now customer i) c
        λ p e. order-Rows p.order_id (cancel_owned am g now customer i p) c λ o.
          require-Rows (o.customer_id == customer) payment_not_found
            (sync_and_close am g now i p >> get_status am g now customer i false) c
            (bind-Respects Rows Rows-IsPreorder (sync_and_close am g now i p)
              (λ _. get_status am g now customer i false) (sync_and_close-Rows i p)
              (λ _. get_status-Rows am g now customer i false) c)

  refuse_failed-Rows :
      (i : ℕ) (c : Cashier) → Rows c ((find_payment i >>= refuse_failed am g now) c).0
  refuse_failed-Rows i c =
      read-Rows (find? (has_id i) c.payments) (refuse_failed am g now) c λ p e.
        passed-Rows (not (same_gateway p.status GatewayPaymentStatus.failed)) payment_failed c

  fetched-Rows :
      (p : Payment) (r : RazorpayPaymentRecord) (c : Cashier)
      → Rows c (verify_fetched am g now p r c).0
  fetched-Rows p r =
      bind-Respects Rows Rows-IsPreorder (assert_remote_matches g.to_upper now p r)
        (λ _. apply_remote_payment g now p.id r >> (find_payment p.id >>= refuse_failed am g now))
        (λ c. (Safe-Rows (assert-Sound 0 g.to_upper now p r c)))
        (λ _.
          bind-Respects Rows Rows-IsPreorder (apply_remote_payment g now p.id r)
            (λ _. find_payment p.id >>= refuse_failed am g now)
            (λ c. (Safe-Rows (apply-Sound 0 g now p.id r c))) (λ _. refuse_failed-Rows p.id))

  -- From the callback on: the row that was found is still found, with the status that was read.
  remote-Rows :
      (p : Payment) (x : VerifyInput) (c : Cashier)
      → Found p.id c p
      → Rows c (verify_remote am g now p x c).0
  remote-Rows p x c e =
      let f = note_callback now x in
      let d = update_payment p.id f c in
      let to = GatewayPaymentStatus.pending in
      let again : Found p.id d (f p) =
        find?-update_first (has_id p.id) (has_id p.id) f c.payments p e
          (find?-holds (has_id p.id) c.payments e) in
      let noted : Rows c d =
        (Safe-Rows (
          update-Safe 0 p.id f c p e
            (record { same_id = refl; same_order = refl; same_amount = refl; leads = stay }))) in
      Rows-trans noted (
        continue-Respects {0, 0} Rows Rows-IsPreorder d
          (transition_payment now p.id p.status to no_extra d)
          (λ _. call (g.fetch_payment x.razorpay_payment_id) >>= verify_fetched am g now p)
          (Safe-Rows (transition-Safe 0 now p.id to no_extra d (f p) again))
          (λ _.
            bind-Respects Rows Rows-IsPreorder (call (g.fetch_payment x.razorpay_payment_id))
              (verify_fetched am g now p)
              (λ v. (Safe-Rows (call-Sound 0 (g.fetch_payment x.razorpay_payment_id) v)))
              (fetched-Rows p) (transition_payment now p.id p.status to no_extra d).0))

  unused-Rows :
      (p : Payment) (x : VerifyInput) (c : Cashier)
      → Found p.id c p
      → Rows c (verify_unused am g now p x c).0
  unused-Rows p x c e = elim (Bool-cases (is_used_elsewhere x.razorpay_payment_id p.id c)) [
    | inl b ↦ rw b (Rows-refl c)
    | inr b ↦ rw b (remote-Rows p x c e)
  ]

  signed-Rows :
      (p : Payment) (x : VerifyInput) (c : Cashier)
      → Found p.id c p
      → Rows c (verify_signed am g now p x c).0
  signed-Rows p x c e =
      elim (Bool-cases (
        g.verify_checkout_signature p.provider_order_id x.razorpay_payment_id
          x.razorpay_signature)) [
            | inl b ↦ rw b (unused-Rows p x c e)
            | inr b ↦ rw b (
                Safe-Rows (
                  update-Safe 0 p.id note_mismatch c p e (record {
                    same_id = refl;
                    same_order = refl;
                    same_amount = refl;
                    leads = stay;
                  })))
          ]

  new-Rows :
      (p : Payment) (x : VerifyInput) (o : Order) (c : Cashier)
      → Found p.id c p
      → Rows c (verify_new am g now p x o c).0
  new-Rows p x o c e =
      if-Respects Rows Rows-IsPreorder
        (same_gateway p.status GatewayPaymentStatus.captured && is_settled o.payment_status)
        (return true) (verify_signed am g now p x >> return false) c (Rows-refl c)
        (continue-Respects Rows Rows-IsPreorder c (verify_signed am g now p x c) (λ _. return false)
          (signed-Rows p x c e) (λ _. Rows-refl (verify_signed am g now p x c).0))

  answered-Rows :
      (customer i : ℕ) (b : Bool) (c : Cashier)
      → Rows c ((get_status am g now customer i false >> return b) c).0
  answered-Rows customer i b =
      bind-Respects Rows Rows-IsPreorder (get_status am g now customer i false) (λ _. return b)
        (get_status-Rows am g now customer i false) (λ _ c. Rows-refl c)

  owned-Rows :
      (customer : ℕ) (x : VerifyInput) (p : Payment) (o : Order) (c : Cashier)
      → Found p.id c p
      → Rows c (verify_owned am g now customer x p o c).0
  owned-Rows customer x p o c e =
      require-Rows (o.customer_id == customer) payment_not_found
        (verify_new am g now p x o >>= λ b.
          get_status am g now customer p.order_id false >> return b)
        c
        (continue-Respects Rows Rows-IsPreorder c (verify_new am g now p x o c)
          (λ b. get_status am g now customer p.order_id false >> return b) (new-Rows p x o c e)
          (λ b. answered-Rows customer p.order_id b (verify_new am g now p x o c).0))

  pub verify-Rows :
      (customer : ℕ) (x : VerifyInput) (c : Cashier)
      → Distinct c.payments
      → Rows c (verify_checkout_payment am g now customer x c).0
  unfolding verify_checkout_payment
  verify-Rows customer x c h =
      require-Rows g.is_configured not_configured
        (λ c.
          continue (found_payment c (find? (is_row_of customer x) c.payments))
            (verify_for am g now customer x))
        c
        (read-Rows (find? (is_row_of customer x) c.payments) (verify_for am g now customer x) c
          λ p e. order-Rows p.order_id (verify_owned am g now customer x p) c λ o.
            owned-Rows customer x p o c (find?-Distinct (is_row_of customer x) c.payments p h e))
