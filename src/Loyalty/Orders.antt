-- ===== src/Loyalty/Orders.antt =====
-- What orders do to the ledger (src/modules/loyalty/loyalty-transaction.service.ts): the welcome
-- bonus, redemption at placing, earning at delivery, refund and reversal at cancellation.
-- `addMonths` of the JavaScript `Date` is a parameter; the cache is left out.
pub mod Earning
pub mod Refund
use vikram_backend.Prelude.{
  ℕ, ◌-◌, Bool, true, false, not, ◌&&◌, Option, some, none, ltb, leb, ◌==◌, if◌then◌else◌, find?,
  Result, ok, err, ◌>>=◌, ◌>>◌,
}
use vikram_backend.Prelude.Int.{pos}
use vikram_backend.Loyalty.Ledger.{
  earn, redeem, adjustment, credit, debit, Reference, welcome_bonus, first_order_bonus,
  order_earned, redeemed, refund_restore, earn_reversal, first_order_reversal, Entry, Ledger, Input,
  EntryType, LoyaltyError, has_reference, find_existing, record_entry,
}
use vikram_backend.Loyalty.Redemption.{calculate_earn_points}

-- The columns of an order that the programme reads.
pub record LoyaltyOrder : Type 0 where
  pub id : ℕ
  pub is_delivered : Bool
  pub subtotal : ℕ
  pub membership_discount : ℕ
  pub loyalty_points_used : ℕ

-- LOYALTY_WELCOME_BONUS_POINTS, LOYALTY_FIRST_ORDER_BONUS_POINTS, LOYALTY_POINTS_EXPIRY_MONTHS.
abbrev pub welcome_points : ℕ
welcome_points = 50

abbrev pub first_order_points : ℕ
first_order_points = 0

abbrev pub expiry_months : ℕ
expiry_months = 12

-- `eligibleEarnAmount`; `Math.max(0, …)` is subtraction on ℕ.
abbrev pub eligible_earn_amount : LoyaltyOrder → ℕ
eligible_earn_amount o = o.subtotal - o.membership_discount

abbrev is_earn : EntryType → Bool
is_earn earn = true
is_earn _ = false

-- `referenceId` and type EARN.
abbrev pub is_earn_entry : Reference → Entry → Bool
is_earn_entry r e = has_reference (some r) e && is_earn e.type

abbrev pub is_first_bonus_of : ℕ → Entry → Bool
is_first_bonus_of o e =
    is_earn_entry first_order_bonus e && elim e.order [ none ↦ false | some i ↦ i == o ]

abbrev pub credit_input : EntryType → ℕ → Reference → Option ℕ → ℕ → Input
credit_input t p r order expires = record {
  type = t;
  points = pos p;
  reference = some r;
  order = order;
  expires_at = some expires;
  track_lot = true;
  direction = credit;
}

abbrev pub debit_input : EntryType → ℕ → Reference → ℕ → Input
debit_input t p r order = record {
  type = t;
  points = pos p;
  reference = some r;
  order = some order;
  expires_at = none;
  track_lot = false;
  direction = debit;
}

-- `recordEntry`, for its effect on the ledger.
abbrev pub recorded : ℕ → Input → Ledger → Result LoyaltyError Ledger
recorded now i l = do (l', e) ← record_entry now i l; ok l'

abbrev pub redeem_input : ℕ → LoyaltyOrder → Input
redeem_input p o = record {
  type = redeem;
  points = pos p;
  reference = some (redeemed o.id);
  order = some o.id;
  expires_at = none;
  track_lot = false;
  direction = credit;
}

-- Several transactions in a row: what an earlier one did stays when a later one throws.
abbrev pub Outcome : Type 0
Outcome = Ledger × Option LoyaltyError

abbrev pub attempt : Input → ℕ → Ledger → Outcome
attempt i now l = elim (recorded now i l) [ ok l' ↦ (l', none) | err x ↦ (l, some x) ]

abbrev pub and_then : Outcome → (Ledger → Outcome) → Outcome
and_then (l, none) k = k l
and_then (l, some x) k = (l, some x)

-- `creditWelcomeBonus`.
unfoldable pub credit_welcome_bonus : ℕ → ℕ → Ledger → Result LoyaltyError Ledger
credit_welcome_bonus now expires =
    recorded now (credit_input earn welcome_points welcome_bonus none expires)

-- `commitRedemptionForPlacedOrder`.
unfoldable pub commit_redemption_for_placed_order :
    ℕ → LoyaltyOrder → ℕ → Ledger → Result LoyaltyError Ledger
commit_redemption_for_placed_order now o p l =
    if leb p 0 then ok l else recorded now (redeem_input p o) l

module _ (add_months : ℕ → ℕ → ℕ) where
  -- `creditFirstOrderBonus`, which is off while its points are 0.
  unfoldable pub credit_first_order_bonus : ℕ → LoyaltyOrder → Ledger → Result LoyaltyError Ledger
  credit_first_order_bonus now o l =
      if leb first_order_points 0
      then ok l
      else recorded now
          (credit_input earn first_order_points first_order_bonus (some o.id)
            (add_months now expiry_months))
          l

  -- `maybeCreditFirstOrderBonus`; `prior` counts the customer's other delivered orders.
  unfoldable pub maybe_credit_first_order_bonus :
      ℕ → ℕ → LoyaltyOrder → Ledger → Result LoyaltyError Ledger
  unfolding credit_first_order_bonus
  maybe_credit_first_order_bonus now prior o l =
      elim (find_existing (some first_order_bonus) l.entries) [
        | some _ ↦ ok l
        | none ↦ if ltb 0 prior then ok l else credit_first_order_bonus now o l
      ]

  -- `earnForDeliveredOrder`.
  unfoldable pub earn_for_delivered_order :
      ℕ → ℕ → LoyaltyOrder → Ledger → Result LoyaltyError Ledger
  unfolding maybe_credit_first_order_bonus
  earn_for_delivered_order now prior o l =
      let p = calculate_earn_points (eligible_earn_amount o) in
      if not o.is_delivered then ok l else do
        l' ←
            (if ltb 0 p
              then recorded now
                  (credit_input earn p (order_earned o.id) (some o.id)
                    (add_months now expiry_months))
                  l
              else ok l)
        maybe_credit_first_order_bonus now prior o l'

  -- `reverseEarnedPointsForOrder`.
  unfoldable pub reverse_earned_points_for_order : ℕ → LoyaltyOrder → Ledger → Outcome
  reverse_earned_points_for_order now o l = elim l.account [
    | none ↦ (l, none)
    | some a ↦
        and_then
          (elim (find? (is_earn_entry (order_earned o.id)) l.entries) [
            | none ↦ (l, none)
            | some e ↦
                if ltb 0 e.points
                then attempt (debit_input adjustment e.points (earn_reversal o.id) o.id) now l
                else (l, none)
          ])
          λ l'. elim (find? (is_first_bonus_of o.id) l'.entries) [
            | none ↦ (l', none)
            | some e ↦
                if ltb 0 e.points
                then attempt (debit_input adjustment e.points (first_order_reversal o.id) o.id) now
                    l'
                else (l', none)
          ]
  ]

  -- `refundRedemptionForCancelledOrder`.
  unfoldable pub refund_redemption_for_cancelled_order : ℕ → LoyaltyOrder → Ledger → Outcome
  unfolding reverse_earned_points_for_order
  refund_redemption_for_cancelled_order now o l =
      and_then
        (if ltb 0 o.loyalty_points_used
          then attempt
              (credit_input adjustment o.loyalty_points_used (refund_restore o.id) (some o.id)
                (add_months now expiry_months))
              now l
          else (l, none))
        (reverse_earned_points_for_order now o)
