-- ===== src/Delivery/Windows/Dates.antt =====
-- The next day with deliveries (`nextAvailableDeliveryDate` of
-- src/modules/delivery/delivery-slot.logic.ts).
use vikram_backend.Prelude.{
  ℕ, zero, suc, ◌+◌, ◌≤◌, ◌<◌, ◌≡◌, ◌⊎◌, sym, subst, true, false, Option, none, some, arith,
  Bool-cases, inl, inr,
}
use vikram_backend.Delivery.Windows.{
  Operating, is_delivery_holiday, next_available_from, next_available_delivery_date,
}

-- The first day with deliveries of n days from a date, if there is one.
abbrev pub IsFirstWorking : ℕ → ℕ → Operating → Option ℕ → Type 0
IsFirstWorking n date o none = (e : ℕ) → date ≤ e → e < date + n → is_delivery_holiday e o ≡ true
IsFirstWorking n date o (some d) =
    (date ≤ d)
    × (d < date + n)
    × (is_delivery_holiday d o ≡ false)
    × ((e : ℕ) → date ≤ e → e < d → is_delivery_holiday e o ≡ true)

first_or_later :
    (date e : ℕ) (o : Operating)
    → is_delivery_holiday date o ≡ true
    → (date + 1 ≤ e → is_delivery_holiday e o ≡ true)
    → date ≤ e
    → is_delivery_holiday e o ≡ true
first_or_later date e o h k le =
    let s : (e ≡ date) ⊎ (date + 1 ≤ e) = omega arith in
    elim s [ inl s ↦ subst (λ (x : ℕ). is_delivery_holiday x o ≡ true) (sym s) h | inr l ↦ k l ]

later-IsFirstWorking :
    (n date : ℕ) (o : Operating) (r : Option ℕ)
    → is_delivery_holiday date o ≡ true
    → IsFirstWorking n (date + 1) o r
    → IsFirstWorking (suc n) date o r
later-IsFirstWorking n date o none h f =
    λ e a b. first_or_later date e o h (λ l. f e l (omega arith)) a
later-IsFirstWorking n date o (some d) h (a, b, c, k) =
    (omega arith, omega arith, c, λ e x y. first_or_later date e o h (λ l. k e l y) x)

from-IsFirstWorking :
    (n date : ℕ) (o : Operating) → IsFirstWorking n date o (next_available_from n date o)
unfolding next_available_from
from-IsFirstWorking zero date o = λ e a b. absurd (omega arith)
from-IsFirstWorking (suc n) date o = elim (Bool-cases (is_delivery_holiday date o)) [
  | inl h ↦ rw h (
      later-IsFirstWorking n date o (next_available_from n (date + 1) o) h
        (from-IsFirstWorking n (date + 1) o))
  | inr w ↦ rw w (omega arith, omega arith, w, λ e a b. absurd (omega arith))
]

-- The next delivery date is the first day from the date given on, and at most the lookahead away, that
-- is no holiday; there is none exactly when all those days are holidays.
pub next_available_delivery_date-IsFirstWorking :
    (date lookahead : ℕ) (o : Operating)
    → IsFirstWorking (suc lookahead) date o (next_available_delivery_date date o lookahead)
unfolding next_available_delivery_date
next_available_delivery_date-IsFirstWorking date lookahead o =
    from-IsFirstWorking (suc lookahead) date o
