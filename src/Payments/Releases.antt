-- ===== src/Payments/Releases.antt =====
-- The payment rows that are cancelled with the release of their order (`releaseUnpaidOnlineOrder` of
-- src/modules/orders/orders.service.ts).
use vikram_backend.Prelude.{
  ℕ, ◌≡◌, refl, List, [], ◌∷◌, true, ◌&&◌, arith, find?, is_some, Bool-cases, inl, inr,
}
use vikram_backend.Orders.World.{find_live}
use vikram_backend.Payments.Gateway.{GatewayPaymentStatus, can_transition_gateway_status}
use vikram_backend.Payments.Rows.{Payment, Cashier}
use vikram_backend.Payments.Statuses.{
  AllFollow, AllFollow-refl, Follows, Follows-refl, row_follows, none_left, stay, go,
}
use vikram_backend.Payments.Sync.{
  of_order, is_unpaid_row, cancelled_row, cancel_rows, is_releasable, release_rows, is_moving,
  money_moved,
}

-- The table has the step to CANCELLED for each of the statuses.
unpaid-may_cancel :
    (s : GatewayPaymentStatus)
    → is_unpaid_row s ≡ true
    → can_transition_gateway_status s GatewayPaymentStatus.cancelled ≡ true
unfolding can_transition_gateway_status
unpaid-may_cancel GatewayPaymentStatus.created h = refl
unpaid-may_cancel GatewayPaymentStatus.pending h = refl
unpaid-may_cancel GatewayPaymentStatus.authorized h = cc
unpaid-may_cancel GatewayPaymentStatus.captured h = cc
unpaid-may_cancel GatewayPaymentStatus.failed h = refl
unpaid-may_cancel GatewayPaymentStatus.cancelled h = refl
unpaid-may_cancel GatewayPaymentStatus.refunded h = cc
unpaid-may_cancel GatewayPaymentStatus.verification_failed h = cc

cancelled_row-Follows : (p : Payment) → is_unpaid_row p.status ≡ true → Follows p (cancelled_row p)
cancelled_row-Follows p h = record {
  same_id = refl;
  same_order = refl;
  same_amount = refl;
  leads = go (unpaid-may_cancel p.status h) stay;
}

cancel_rows-follow : (i : ℕ) (ps : List Payment) → AllFollow ps (cancel_rows i ps)
unfolding cancel_rows
cancel_rows-follow i [] = none_left
cancel_rows-follow i (p ∷ ps) = elim (Bool-cases (of_order i p && is_unpaid_row p.status)) [
  | inl b ↦
      let unpaid : is_unpaid_row p.status ≡ true = ground arith in
      rw b (row_follows (cancelled_row-Follows p unpaid) (cancel_rows-follow i ps))
  | inr b ↦ rw b (row_follows (Follows-refl p) (cancel_rows-follow i ps))
]

-- None of them is authorized or captured.
cancel_rows-moved :
    (i : ℕ) (ps : List Payment)
    → is_some (find? (is_moving i) (cancel_rows i ps)) ≡ is_some (find? (is_moving i) ps)
unfolding cancel_rows
cancel_rows-moved i [] = refl
cancel_rows-moved i (p ∷ ps) = ground (arith, cancel_rows-moved i ps)

pub release_rows-follow : (i : ℕ) (c : Cashier) → AllFollow c.payments (release_rows i c).payments
unfolding release_rows
release_rows-follow i c = elim (Bool-cases (is_releasable (find_live c.world i))) [
  | inl b ↦ rw b (cancel_rows-follow i c.payments)
  | inr b ↦ rw b (AllFollow-refl c.payments)
]

pub release_rows-moved : (i : ℕ) (c : Cashier) → money_moved i (release_rows i c) ≡ money_moved i c
unfolding release_rows
release_rows-moved i c = elim (Bool-cases (is_releasable (find_live c.world i))) [
  | inl b ↦ rw b (cancel_rows-moved i c.payments)
  | inr b ↦ rw b refl
]

pub release_rows-events : (i : ℕ) (c : Cashier) → (release_rows i c).events ≡ c.events
unfolding release_rows
release_rows-events i c = refl
