-- ===== src/Loyalty/Orders/Refund.antt =====
-- Points redeemed for an order come back when the order is cancelled.
use vikram_backend.Prelude.{
  ℕ, ◌+◌, ◌≤◌, ◌<◌, ◌≡◌, refl, ap, Bool, false, some, none, List, [], ◌∷◌, ◌++◌, arith, ltb, Option,
  find?, sum_of-append, ok, Bool-cases, inl, inr,
}
use vikram_backend.Loyalty.Ledger.{
  redeem, new_entry, redeemed, refund_restore, order_earned, adjustment, Entry, Ledger, Input,
  or_zero, has_reference, find_existing, debited_lots, debit_lots, record_entry, record_new,
  ensure_account, post, credit_account, debit_account,
}
use vikram_backend.Loyalty.Lots.{total_remaining, debit_lots-eq_ok}
use vikram_backend.Loyalty.Balance.{record_new-eq_ok}
use vikram_backend.Loyalty.Once.{debited_lots-find}
use vikram_backend.Loyalty.Orders.Earning.{recorded-eq_ok}
use vikram_backend.Loyalty.Orders.{
  LoyaltyOrder, expiry_months, is_earn_entry, is_first_bonus_of, credit_input, redeem_input,
  commit_redemption_for_placed_order, reverse_earned_points_for_order,
  refund_redemption_for_cancelled_order,
}

find-append_none :
    (q : Entry → Bool) (es : List Entry) (e : Entry)
    → find? q es ≡ none
    → q e ≡ false
    → find? q (es ++ (e ∷ [])) ≡ none
find-append_none q [] e h n = ground arith
find-append_none q (x ∷ es) e h n = ground (arith, find-append_none q es e)

-- The lots of a redemption lose its points.
taken :
    (now p : ℕ) (i : Input) (es lots : List Entry)
    → i.type ≡ redeem
    → debited_lots now i p es ≡ ok lots
    → total_remaining lots + p ≡ total_remaining es
unfolding debited_lots
taken now p i es lots t h =
    let took : debit_lots now p es ≡ ok lots = ground arith in (debit_lots-eq_ok now p es took).1

module _ (add_months : ℕ → ℕ → ℕ) where
  abbrev refund : ℕ → LoyaltyOrder → Input
  refund now o =
      credit_input adjustment o.loyalty_points_used (refund_restore o.id) (some o.id)
        (add_months now expiry_months)

  -- With nothing earned on the order there is nothing to reverse.
  reverse_nothing :
      (now : ℕ) (o : LoyaltyOrder) (l : Ledger)
      → find? (is_earn_entry (order_earned o.id)) l.entries ≡ none
      → find? (is_first_bonus_of o.id) l.entries ≡ none
      → reverse_earned_points_for_order add_months now o l ≡ (l, none)
  unfolding reverse_earned_points_for_order
  reverse_nothing now o l n m = ground arith

-- What the redemption of some points leaves.
redemption :
    (now : ℕ) (o : LoyaltyOrder) (l l' : Ledger)
    → 0 < o.loyalty_points_used
    → find_existing (some (redeemed o.id)) l.entries ≡ none
    → commit_redemption_for_placed_order now o o.loyalty_points_used l ≡ ok l'
    → let p = o.loyalty_points_used in
      let a = ensure_account l in
      (lots : List Entry) × (debited_lots now (redeem_input p o) p l.entries ≡ ok lots)
      × (p ≤ a.available)
      × (total_remaining lots + p ≡ total_remaining l.entries)
      × (l' ≡ (post l (redeem_input p o) p a (debit_account redeem p a) lots).0)
unfolding commit_redemption_for_placed_order record_entry
redemption now o l l' h n c =
    let p = o.loyalty_points_used in
    let i = redeem_input p o in
    let (e, made) = recorded-eq_ok now i l l' (ground arith) in
    let new : record_new now i p l ≡ ok (l', e) = ground arith in
    elim (record_new-eq_ok now p i l l' e new) [
      | inl (credits, done) ↦ absurd (ground arith)
      | inr (lots, d, enough, took, done) ↦
          (lots, took, enough, taken now p i l.entries lots refl took, ground arith)
    ]

-- After a redemption for an order, the cancellation of that order brings the ledger back to as many
-- available points and as many points in lots as before the redemption: if nothing was redeemed,
-- refunded or earned for the order before, and whatever the times.
pub refund_restores :
    (add_months : ℕ → ℕ → ℕ) (now later : ℕ) (o : LoyaltyOrder) (l l' : Ledger)
    → find_existing (some (redeemed o.id)) l.entries ≡ none
    → find_existing (some (refund_restore o.id)) l.entries ≡ none
    → find? (is_earn_entry (order_earned o.id)) l.entries ≡ none
    → find? (is_first_bonus_of o.id) l.entries ≡ none
    → commit_redemption_for_placed_order now o o.loyalty_points_used l ≡ ok l'
    → (l'' : Ledger) × (refund_redemption_for_cancelled_order add_months later o l' ≡ (l'', none))
      × ((ensure_account l'').available ≡ (ensure_account l).available)
      × (total_remaining l''.entries ≡ total_remaining l.entries)
unfolding refund_redemption_for_cancelled_order record_entry
refund_restores add_months now later o l l' n r m b c =
    elim (Bool-cases (ltb 0 o.loyalty_points_used)) [
      | inr unused ↦
          let same : l ≡ l' = unfold commit_redemption_for_placed_order in (ground arith) in
          (
            l',
            ground (arith, same, reverse_nothing add_months later o l m b),
            ground arith,
            ground arith,
          )
      | inl used ↦
          let p = o.loyalty_points_used in
          let a = ensure_account l in
          let i = refund add_months later o in
          let (lots, took, enough, total, done) = redemption now o l l' (ground arith) n c in
          let spent =
            new_entry l (redeem_input p o) p a.available (debit_account redeem p a).available in
          let a' = ensure_account l' in
          let l'' = (post l' i p a' (credit_account p a') l'.entries).0 in
          let back = new_entry l' i p a'.available (credit_account p a').available in
          let rows : l'.entries ≡ lots ++ (spent ∷ []) = ap (λ (k : Ledger). k.entries) done in
          let absent =
            λ (q : Entry → Bool)
                (same : (e : Entry) (x : Option ℕ) → q (record e { remaining = x }) ≡ q e)
                (none_in : find? q l.entries ≡ none) (not_spent : q spent ≡ false).
              find-append_none q lots spent
                (debited_lots-find q now p (redeem_input p o) l.entries lots same took none_in)
                not_spent in
          let missing : find_existing (some (refund_restore o.id)) l'.entries ≡ none =
            rw rows (absent (has_reference (some (refund_restore o.id))) (λ x k. refl) r refl) in
          let no_earning : find? (is_earn_entry (order_earned o.id)) l''.entries ≡ none =
            find-append_none _ l'.entries back
              (rw rows (absent (is_earn_entry (order_earned o.id)) (λ x k. refl) m refl)) refl in
          let no_bonus : find? (is_first_bonus_of o.id) l''.entries ≡ none =
            find-append_none _ l'.entries back
              (rw rows (absent (is_first_bonus_of o.id) (λ x k. refl) b refl)) refl in
          (
            l'',
            ground (arith, missing, reverse_nothing add_months later o l'' no_earning no_bonus),
            ground (arith, done, enough),
            ground (
              arith,
              rows,
              total,
              sum_of-append (λ (x : Entry). or_zero x.remaining) lots (spent ∷ []),
              sum_of-append (λ (x : Entry). or_zero x.remaining) l'.entries (back ∷ []),
            ),
          )
    ]
