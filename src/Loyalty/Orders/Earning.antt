-- ===== src/Loyalty/Orders/Earning.antt =====
-- Points are earned once for an order, one percent of what it was worth.
use vikram_backend.Prelude.{
  ℕ, ◌+◌, ◌-◌, ◌/◌, ◌≡◌, refl, true, some, none, arith, ltb, ok, Result-cases, Bool-cases, inl, inr,
}
use vikram_backend.Loyalty.Ledger.{
  earn, order_earned, Entry, Ledger, Input, find_existing, record_entry, post, credit_account,
  ensure_account,
}
use vikram_backend.Loyalty.Once.{record_entry_again}
use vikram_backend.Loyalty.Redemption.{calculate_earn_points}
use vikram_backend.Loyalty.Orders.{
  LoyaltyOrder, expiry_months, eligible_earn_amount, credit_input, recorded,
  maybe_credit_first_order_bonus, earn_for_delivered_order,
}

pub recorded-eq_ok :
    (now : ℕ) (i : Input) (l l' : Ledger)
    → recorded now i l ≡ ok l'
    → (e : Entry) × (record_entry now i l ≡ ok (l', e))
recorded-eq_ok now i l l' h = elim (Result-cases (record_entry now i l)) [
  | inl ((k, e), made) ↦ (e, ground arith)
  | inr (x, failed) ↦ absurd (ground arith)
]

module _ (add_months : ℕ → ℕ → ℕ) where
  maybe_credit_off :
      (now prior : ℕ) (o : LoyaltyOrder) (l : Ledger)
      → maybe_credit_first_order_bonus add_months now prior o l ≡ ok l
  unfolding maybe_credit_first_order_bonus
  maybe_credit_off now prior o l = ground arith

  abbrev earning : ℕ → ℕ → LoyaltyOrder → Input
  earning now p o =
      credit_input earn p (order_earned o.id) (some o.id) (add_months now expiry_months)

  -- Earning again for the same order, at whatever time, changes nothing.
  pub earn_for_delivered_order_once :
      (now later prior prior' : ℕ) (o : LoyaltyOrder) (l l' : Ledger)
      → earn_for_delivered_order add_months now prior o l ≡ ok l'
      → earn_for_delivered_order add_months later prior' o l' ≡ ok l'
  unfolding earn_for_delivered_order
  earn_for_delivered_order_once now later prior prior' o l l' h =
      let p = calculate_earn_points (eligible_earn_amount o) in
      elim (Bool-cases (ltb 0 p)) [
        | inr none_due ↦
            ground (arith, maybe_credit_off now prior o l, maybe_credit_off later prior' o l')
        | inl due ↦ elim (Result-cases (recorded now (earning now p o) l)) [
          | inl (k, made) ↦
              let (e, entry) = recorded-eq_ok now (earning now p o) l k made in
              ground (
                arith,
                maybe_credit_off now prior o k,
                maybe_credit_off later prior' o k,
                record_entry_again now later (earning now p o) (earning later p o)
                    (order_earned o.id) l k e refl refl (ground arith) entry,
              )
          | inr (x, failed) ↦ ground arith
        ]
      ]

  -- The first time, a delivered order adds one percent of its subtotal less the membership discount.
  pub earn_for_delivered_order_lem :
      (now prior : ℕ) (o : LoyaltyOrder) (l : Ledger)
      → o.is_delivered ≡ true
      → find_existing (some (order_earned o.id)) l.entries ≡ none
      → (l' : Ledger) × (earn_for_delivered_order add_months now prior o l ≡ ok l')
        × ((ensure_account l').available
            ≡ (ensure_account l).available + (o.subtotal - o.membership_discount) / 100)
  unfolding earn_for_delivered_order record_entry calculate_earn_points
  earn_for_delivered_order_lem now prior o l d n =
      let p = calculate_earn_points (eligible_earn_amount o) in
      let a = ensure_account l in
      elim (Bool-cases (ltb 0 p)) [
        | inr none_due ↦ (l, ground (arith, maybe_credit_off now prior o l), ground arith)
        | inl due ↦
            let l' = (post l (earning now p o) p a (credit_account p a) l.entries).0 in
            (l', ground (arith, maybe_credit_off now prior o l'), ground arith)
      ]
