-- ===== src/Delivery/Benefit/Laws.antt =====
-- The count of free deliveries is the number of their uses, and stays within what is allowed.
use vikram_backend.Prelude.{
  ℕ, suc, ◌-◌, ◌≤◌, ◌≡◌, true, false, Option, none, some, List, [], ◌∷◌, arith, find?, length,
  Option-cases, inl, inr,
}
use vikram_backend.Delivery.Benefit.{
  BenefitConfig, Benefit, Usage, Benefits, ensure_benefit, remaining_count, of_order,
  can_use_free_bike_delivery, consume_free_bike_delivery, remove_usage, restore_free_bike_delivery,
}

abbrev pub CountsUses : Option Benefit → ℕ → Type 0
CountsUses none n = n ≡ 0
CountsUses (some x) n = (x.used_count ≡ n) × (n ≤ x.total_allowed)

abbrev pub IsValid : Benefits → Type 0
IsValid b = CountsUses b.benefit (length b.usages)

length-remove_usage :
    (o : ℕ) (us : List Usage) (u : Usage)
    → find? (of_order o) us ≡ some u
    → suc (length (remove_usage o us)) ≡ length us
length-remove_usage o [] u h = cc
length-remove_usage o (x ∷ us) u h = ground (arith, length-remove_usage o us u)

-- Using a free delivery and giving one back keep the stored count equal to the number of uses, and
-- that number within the deliveries allowed.
pub benefit-IsValid :
    (c : BenefitConfig) (o : ℕ) (b : Benefits)
    → IsValid b
    → IsValid (consume_free_bike_delivery c o b).0 × IsValid (restore_free_bike_delivery o b).0
unfolding consume_free_bike_delivery restore_free_bike_delivery
benefit-IsValid c o b v = elim (Option-cases (find? (of_order o) b.usages)) [
  | inl e ↦ (ground arith, ground arith)
  | inr (u, e) ↦ (ground arith, ground (arith, length-remove_usage o b.usages u e))
]

-- An order that has no use gets one exactly if, while the benefit is active, the preview says that
-- the customer can use one; what the company absorbs is what is configured.
pub consume_iff_can_use :
    (c : BenefitConfig) (o : ℕ) (b : Benefits)
    → c.is_active ≡ true
    → find? (of_order o) b.usages ≡ none
    → (can_use_free_bike_delivery c b ≡ true
        → (length (consume_free_bike_delivery c o b).0.usages ≡ suc (length b.usages))
          × ((consume_free_bike_delivery c o b).1
              ≡ some (record {
                absorbed = c.company_absorption;
                remaining_after = remaining_count (ensure_benefit c b) - 1;
              })))
      × (can_use_free_bike_delivery c b ≡ false
          → ((consume_free_bike_delivery c o b).1 ≡ none)
            × ((consume_free_bike_delivery c o b).0.usages ≡ b.usages))
unfolding consume_free_bike_delivery can_use_free_bike_delivery
consume_iff_can_use c o b a n = (λ h. ground arith, λ h. ground arith)

-- Cancelling an order gives back its free delivery: after a use for an order that had none, and the
-- restoring of it, the uses are those of before and as many deliveries remain.
pub restore-consume :
    (c : BenefitConfig) (o : ℕ) (b : Benefits)
    → find? (of_order o) b.usages ≡ none
    → let after = (restore_free_bike_delivery o (consume_free_bike_delivery c o b).0).0 in
      (after.usages ≡ b.usages)
      × (remaining_count (ensure_benefit c after) ≡ remaining_count (ensure_benefit c b))
unfolding consume_free_bike_delivery restore_free_bike_delivery
restore-consume c o b n = ground arith
