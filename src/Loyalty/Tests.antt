-- ===== src/Loyalty/Tests.antt =====
-- Runs of the ledger, and the theorems at concrete ledgers.
use vikram_backend.Prelude.{
  if◌then◌else◌, ◌||◌, ◌==◌, ℕ, ◌+◌, ◌*◌, ◌-◌, ◌/◌, ◌≤◌, ◌<◌, ◌≡◌, refl, true, false, some, none,
  List, ◌∷◌, [], arith, ok, err, take,
}
use vikram_backend.Prelude.Int.{pos}
use vikram_backend.Loyalty.Ledger.{
  earn, redeem, adjustment, welcome_bonus, other, order_earned, Reference, Entry, Ledger, Input,
  empty_ledger, ensure_account, non_expired_balance, consume_points_from_lots, record_entry,
  no_points,
}
use vikram_backend.Loyalty.Lots.{total_remaining, consume_lots_fifo}
use vikram_backend.Loyalty.Balance.{IsBalanced, record_entry-IsBalanced}
use vikram_backend.Loyalty.Once.{record_entry_once, IsSameEntry, has_expired, unchanged}
use vikram_backend.Loyalty.Expiry.{expire_lot}
use vikram_backend.Loyalty.Nightly.{
  Ledgers, Row, IsTable, expired_batch, own, expire_loyalty_points, expire_loyalty_points_lem,
}
use vikram_backend.Loyalty.Redemption.{
  Floats, Validation, calculate_earn_points, min_redeem_order_value, base, none_given,
  validate_redemption, calculate_max_redeemable_points, validate_redemption_sound,
}
use vikram_backend.Loyalty.Orders.{
  LoyaltyOrder, credit_input, debit_input, credit_welcome_bonus, commit_redemption_for_placed_order,
  earn_for_delivered_order, refund_redemption_for_cancelled_order,
}
use vikram_backend.Loyalty.Orders.Refund.{refund_restores}

abbrev lot : ℕ → ℕ → Reference → ℕ → ℕ → Entry
lot id points r opening expires = record {
  id = id;
  type = earn;
  points = points;
  reference = some r;
  order = none;
  opening = opening;
  closing = opening + points;
  expires_at = some expires;
  remaining = some points;
}

abbrev welcome : Entry
welcome = lot 0 50 welcome_bonus 0 900

abbrev second : Entry
second = lot 1 30 (other 4) 50 2000

abbrev welcomed : Ledger
welcomed = record {
  account = some (record { current = 50; redeemed_points = 0; available = 50 });
  entries = welcome ∷ [];
  next_id = 1;
}

abbrev two_lots : Ledger
two_lots = record {
  account = some (record { current = 80; redeemed_points = 0; available = 80 });
  entries = welcome ∷ second ∷ [];
  next_id = 2;
}

welcome_run : credit_welcome_bonus 100 900 empty_ledger ≡ ok welcomed
unfolding credit_welcome_bonus record_entry
welcome_run = refl

two_lots-IsBalanced : IsBalanced two_lots
two_lots-IsBalanced = omega arith

consume_lots_fifo_example :
    (es' : List Entry) × (consume_points_from_lots 100 60 two_lots.entries ≡ ok es')
    × (total_remaining es' + 60 ≡ 80)
    × ((k : ℕ)
        → non_expired_balance 100 (take k es')
          ≡ non_expired_balance 100 (take k two_lots.entries) - 60)
consume_lots_fifo_example = consume_lots_fifo 100 60 two_lots.entries (omega arith)

abbrev reward : Input
reward = credit_input earn 30 (other 4) none 2000

reward_run : record_entry 200 reward welcomed ≡ ok (two_lots, second)
unfolding record_entry
reward_run = refl

record_entry-IsBalanced_example : IsBalanced two_lots
record_entry-IsBalanced_example =
    record_entry-IsBalanced 200 reward welcomed two_lots second (ground arith) (omega arith)
      reward_run

-- Then the first lot runs out.
record_entry_once_example :
    let m = expire_lot welcome two_lots in
    (x : Entry) × (record_entry 300 (credit_input earn 7 (other 4) none 5) m ≡ ok (m, x))
    × IsSameEntry second x
record_entry_once_example =
    record_entry_once 200 300 reward (credit_input earn 7 (other 4) none 5) (other 4) welcomed
      two_lots (expire_lot welcome two_lots) second refl refl (omega arith) reward_run
      (has_expired welcome unchanged)

-- Accounts 2 and 4 have two lots each, one of which has run out by then.
abbrev two_accounts : Ledgers
two_accounts k = if k == 2 || k == 4 then two_lots else empty_ledger

abbrev mixed : List Row
mixed = (4, welcome) ∷ (2, welcome) ∷ (2, second) ∷ (4, second) ∷ []

mixed-IsTable : IsTable mixed two_accounts
mixed-IsTable k = ground arith

expire_loyalty_points_lem_example :
    let l = expire_loyalty_points 1000 mixed two_accounts 4 in
    IsBalanced l
    × ((ensure_account l).available + total_remaining (own 4 (expired_batch 1000 mixed)) ≡ 80)
expire_loyalty_points_lem_example =
    expire_loyalty_points_lem 1000 mixed two_accounts 4 mixed-IsTable (ground arith)
      two_lots-IsBalanced

expired_run : (ensure_account (expire_loyalty_points 1000 mixed two_accounts 4)).available ≡ 30
unfolding expire_loyalty_points
expired_run = refl

abbrev exact : Floats
exact = record {
  to_points = λ v. v;
  thirty_percent_to_points = λ v. 3 * v / 10;
  to_points_le = λ v. omega arith;
  thirty_percent_le = λ v. omega arith;
}

abbrev allowed : Validation
allowed = record (base exact (pos 40) 60_000 80 none_given) {
  allowed_points = 40;
  discount_amount = 40;
  remaining_balance = 40;
}

validate_redemption_sound_example :
    (40 + 40 ≡ 80) × (10 * 40 ≤ 3 * 60_000) × (0 < 40 → min_redeem_order_value ≤ 60_000)
unfolding validate_redemption calculate_max_redeemable_points
validate_redemption_sound_example =
    validate_redemption_sound exact (pos 40) 60_000 80 false allowed refl

abbrev order : LoyaltyOrder
order = record {
  id = 9;
  is_delivered = true;
  subtotal = 120_000;
  membership_discount = 20_000;
  loyalty_points_used = 60;
}

abbrev add_months : ℕ → ℕ → ℕ
add_months t n = t + n * 1000

abbrev earned : Entry
earned = record (lot 2 1000 (order_earned 9) 80 12_500) { order = some 9 }

abbrev three_lots : Ledger
three_lots = record {
  account = some (record { current = 1080; redeemed_points = 0; available = 1080 });
  entries = welcome ∷ second ∷ earned ∷ [];
  next_id = 3;
}

earn_run : earn_for_delivered_order add_months 500 0 order two_lots ≡ ok three_lots
unfolding earn_for_delivered_order record_entry calculate_earn_points
earn_run = refl

abbrev spent : Ledger
spent = record {
  account = some (record { current = 80; redeemed_points = 60; available = 20 });
  entries =
      record welcome { remaining = some 0 }
      ∷ record second { remaining = some 20 }
      ∷ record {
        id = 2;
        type = redeem;
        points = 60;
        reference = some (Reference.redeemed 9);
        order = some 9;
        opening = 80;
        closing = 20;
        expires_at = none;
        remaining = none;
      }
      ∷ [];
  next_id = 3;
}

spend_run : commit_redemption_for_placed_order 300 order 60 two_lots ≡ ok spent
unfolding commit_redemption_for_placed_order record_entry
spend_run = refl

refund_restores_example :
    (l'' : Ledger) × (refund_redemption_for_cancelled_order add_months 400 order spent
      ≡ (l'', none))
    × ((ensure_account l'').available ≡ 80)
    × (total_remaining l''.entries ≡ 80)
refund_restores_example =
    refund_restores add_months 300 400 order two_lots spent refl refl refl refl spend_run

no_points_run : record_entry 1 (debit_input adjustment 0 (other 1) 2) two_lots ≡ err no_points
unfolding record_entry
no_points_run = refl
