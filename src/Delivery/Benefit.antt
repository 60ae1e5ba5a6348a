-- ===== src/Delivery/Benefit.antt =====
-- Free bike deliveries (src/modules/delivery/delivery-benefit.service.ts), at one customer: the
-- benefit row, and the uses by order. Amounts are whole rupees, as the configuration has them.
pub mod Laws
use vikram_backend.Prelude.{
  ℕ, ◌+◌, ◌-◌, Bool, true, false, Option, none, some, List, [], ◌∷◌, ltb, leb, ◌==◌, if◌then◌else◌,
  find?,
}

-- `getBenefitConfig`.
pub record BenefitConfig : Type 0 where
  pub first_bike_deliveries_free : ℕ
  pub company_absorption : ℕ
  pub is_active : Bool

pub record Benefit : Type 0 where
  pub total_allowed : ℕ
  pub used_count : ℕ
  pub company_cost_per_use : ℕ

pub record Usage : Type 0 where
  pub order : ℕ
  pub absorbed_cost : ℕ

pub record Benefits : Type 0 where
  pub benefit : Option Benefit
  pub usages : List Usage

-- `ensureBenefit`: the row that the upsert leaves.
abbrev pub ensure_benefit : BenefitConfig → Benefits → Benefit
ensure_benefit c b = elim b.benefit [
  | some x ↦ x
  | none ↦ record {
    total_allowed = c.first_bike_deliveries_free;
    used_count = 0;
    company_cost_per_use = c.company_absorption;
  }
]

-- `getSummary`: `Math.max(0, …)` is subtraction on ℕ.
abbrev pub remaining_count : Benefit → ℕ
remaining_count x = x.total_allowed - x.used_count

-- `canUseFreeBikeDelivery`, its field `eligible`.
unfoldable pub can_use_free_bike_delivery : BenefitConfig → Benefits → Bool
can_use_free_bike_delivery c b =
    if c.is_active then ltb 0 (remaining_count (ensure_benefit c b)) else false

abbrev pub of_order : ℕ → Usage → Bool
of_order o u = u.order == o

pub record Consumed : Type 0 where
  pub absorbed : ℕ
  pub remaining_after : ℕ

-- `consumeFreeBikeDelivery`.
unfoldable pub consume_free_bike_delivery :
    BenefitConfig → ℕ → Benefits → Benefits × Option Consumed
consume_free_bike_delivery c o b =
    let x = ensure_benefit c b in
    let kept = record b { benefit = some x } in
    elim (find? (of_order o) b.usages) [
      | some u ↦
          (kept, some (record { absorbed = u.absorbed_cost; remaining_after = remaining_count x }))
      | none ↦ if leb x.total_allowed x.used_count then (kept, none) else (
        record {
          benefit = some (record x { used_count = x.used_count + 1 });
          usages = record { order = o; absorbed_cost = c.company_absorption } ∷ b.usages;
        },
        some (record {
          absorbed = c.company_absorption;
          remaining_after = x.total_allowed - (x.used_count + 1);
        }),
      )
    ]

-- `delete` of the row that `findUnique` found.
abbrev pub remove_usage : ℕ → List Usage → List Usage
remove_usage o [] = []
remove_usage o (u ∷ us) = if u.order == o then us else u ∷ remove_usage o us

-- `restoreFreeBikeDelivery`: the decrement is only of a count above 0.
unfoldable pub restore_free_bike_delivery : ℕ → Benefits → Benefits × Bool
restore_free_bike_delivery o b = elim (find? (of_order o) b.usages) [
  | none ↦ (b, false)
  | some u ↦ (
    record {
      benefit = elim b.benefit [
        | none ↦ none
        | some x ↦ some (record x { used_count = x.used_count - 1 })
      ];
      usages = remove_usage o b.usages;
    },
    true,
  )
]
