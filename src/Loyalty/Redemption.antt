-- ===== src/Loyalty/Redemption.antt =====
-- Redemption limits (src/modules/loyalty/loyalty.constants.ts, and `validateRedemption` of
-- src/modules/loyalty/loyalty-transaction.service.ts). Amounts are whole paise; a point is one
-- paisa, so `pointsToDiscountAmount` is the number of points.
use vikram_backend.Prelude.{
  ℕ, ◌+◌, ◌-◌, ◌*◌, ◌/◌, ◌≤◌, ◌<◌, ◌≡◌, refl, min, Bool, true, false, arith, ltb, leb, ◌==◌,
  if◌then◌else◌, Result, ok, err, ◌↔◌,
}
use vikram_backend.Prelude.Int.{ℤ, pos, negsuc}

-- The two divisions by LOYALTY_POINT_VALUE_INR that the code makes in floating point: of the order
-- value, and of three tenths of it. Rounding may lose a point and never adds one.
pub record Floats : Type 0 where
  pub to_points : ℕ → ℕ
  pub thirty_percent_to_points : ℕ → ℕ
  pub to_points_le : (v : ℕ) → to_points v ≤ v
  pub thirty_percent_le : (v : ℕ) → 10 * thirty_percent_to_points v ≤ 3 * v

-- LOYALTY_MIN_REDEEM_ORDER_VALUE, ₹500.
abbrev pub min_redeem_order_value : ℕ
min_redeem_order_value = 50_000

abbrev pub points_to_discount_amount : ℕ → ℕ
points_to_discount_amount p = p

-- One percent of the paise, in points of one paisa.
unfoldable pub calculate_earn_points : ℕ → ℕ
calculate_earn_points paise = paise / 100

-- LOYALTY_REF and the messages are left out of the result; `allowed` and the amounts stay.
pub data Message : Type 0 where
  none_given must_be_positive below_minimum insufficient_balance above_maximum : Message

pub record Validation : Type 0 where
  pub requested_points : ℤ
  pub allowed_points : ℕ
  pub discount_amount : ℕ
  pub remaining_balance : ℕ
  pub max_redeemable_points : ℕ
  pub redemption_eligible : Bool
  pub message : Message

abbrev pub is_redemption_eligible : ℕ → Bool
is_redemption_eligible v = leb min_redeem_order_value v

module _ (f : Floats) where
  unfoldable pub calculate_max_redeemable_points : ℕ → ℕ → ℕ
  calculate_max_redeemable_points v available =
      if ltb v min_redeem_order_value
      then 0
      else if leb available 0
      then 0
      else min available (min (f.to_points v) (f.thirty_percent_to_points v))

  -- `base`, with a message.
  abbrev pub base : ℤ → ℕ → ℕ → Message → Validation
  base requested v available m = record {
    requested_points = requested;
    allowed_points = 0;
    discount_amount = 0;
    remaining_balance = available;
    max_redeemable_points = calculate_max_redeemable_points v available;
    redemption_eligible = is_redemption_eligible v;
    message = m;
  }

  -- A refusal: the message is in the result if the validation is soft, and is thrown if not.
  abbrev pub refuse : Bool → ℤ → ℕ → ℕ → Message → Result Message Validation
  refuse soft requested v available m = if soft then ok (base requested v available m) else err m

  unfoldable pub validate_redemption : ℤ → ℕ → ℕ → Bool → Result Message Validation
  validate_redemption (negsuc n) v available soft =
      refuse soft (negsuc n) v available must_be_positive
  validate_redemption (pos n) v available soft =
      if n == 0
      then ok (
          base (pos n) v available (if is_redemption_eligible v then none_given else below_minimum))
      else if ltb v min_redeem_order_value
      then refuse soft (pos n) v available below_minimum
      else if ltb available n
      then refuse soft (pos n) v available insufficient_balance
      else if ltb (calculate_max_redeemable_points v available) n
      then refuse soft (pos n) v available above_maximum
      else ok (record (base (pos n) v available none_given) {
        allowed_points = n;
        discount_amount = points_to_discount_amount n;
        remaining_balance = available - n;
      })

  -- What a validation allows is covered by the available points, comes only on an order of ₹500 or
  -- more, and discounts no more than 30% of the order value; the balance that it reports is what
  -- is left of the available points.
  pub validate_redemption_sound :
      (requested : ℤ) (v available : ℕ) (soft : Bool) (r : Validation)
      → validate_redemption requested v available soft ≡ ok r
      → (r.allowed_points + r.remaining_balance ≡ available)
        × (10 * r.discount_amount ≤ 3 * v)
        × (0 < r.allowed_points → min_redeem_order_value ≤ v)
  unfolding validate_redemption calculate_max_redeemable_points
  validate_redemption_sound (pos n) v available soft r h = ground (arith, f.thirty_percent_le v)
  validate_redemption_sound (negsuc n) v available soft r h = ground arith

  -- The soft validation gives what the strict one gives, and where the strict one throws, a result
  -- that allows nothing and carries the message.
  pub validate_redemption_soft :
      (requested : ℤ) (v available : ℕ)
      → ((r : Validation)
          → validate_redemption requested v available false ≡ ok r
          → validate_redemption requested v available true ≡ ok r)
        × ((m : Message)
            → validate_redemption requested v available false ≡ err m
            → validate_redemption requested v available true ≡ ok (base requested v available m))
  unfolding validate_redemption
  validate_redemption_soft (pos n) v available = (λ r h. ground arith, λ m h. ground arith)
  validate_redemption_soft (negsuc n) v available = (λ r h. ground arith, λ m h. ground arith)

  -- A positive number of points passes the strict validation exactly if it is at most
  -- `calculateMaxRedeemablePoints`; all of it is then allowed.
  pub validate_redemption_iff :
      (n v available : ℕ)
      → 0 < n
      → ((r : Validation) × (validate_redemption (pos n) v available false ≡ ok r)
          × (r.allowed_points ≡ n))
        ↔ (n ≤ calculate_max_redeemable_points v available)
  unfolding validate_redemption calculate_max_redeemable_points
  validate_redemption_iff n v available h = (
    λ passes. ground (arith, passes.1),
    λ fits. (
      record (base (pos n) v available none_given) {
        allowed_points = n;
        discount_amount = points_to_discount_amount n;
        remaining_balance = available - n;
      },
      ground arith,
      refl,
    ),
  )
