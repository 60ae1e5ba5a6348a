-- ===== src/Delivery/Vehicles/Capacity.antt =====
-- What the chosen vehicle carries (src/modules/delivery/engine/delivery-vehicle-selection.logic.ts).
use mathlib.Core.List.{Memᴰ}
use native.Mathlib.Nat.{lt-div-mul-add, mul-le-mul_right}
use vikram_backend.Prelude.{
  ℕ, ◌+◌, ◌-◌, ◌*◌, ◌/◌, ◌≤◌, ◌<◌, ◌≡◌, refl, Bool, true, some, List, arith,
}
use vikram_backend.Delivery.Vehicles.{
  OrderLoad, VehicleCapacity, can_carry, passes_product_restrictions, trips_for,
  required_vehicle_count,
}
use vikram_backend.Delivery.Vehicles.Selection.{VehicleSelection}

-- Where the capacity is positive, the trips carry the load.
trips_for-carries : (b : Bool) (c n : ℕ) → b ≡ true → 0 < c → n ≤ trips_for b (some c) n * c
trips_for-carries b c n e h =
    let over : n + (c - 1) < (n + (c - 1)) / c * c + c = lt-div-mul-add h in ground (arith, over)

-- What n trips of the vehicle carry: the load, in each dimension that is measured and for which the
-- vehicle has a positive capacity.
pub record Carried (l : OrderLoad) (v : VehicleCapacity) (n : ℕ) : Type 0 where
  pub weight :
      (c : ℕ) → l.has_weight ≡ true → v.usable_weight ≡ some c → 0 < c → l.total_weight ≤ n * c
  pub volume :
      (c : ℕ) → l.has_volume ≡ true → v.usable_volume ≡ some c → 0 < c → l.total_volume ≤ n * c

-- One vehicle of the configuration that the products allow, and that carries the load.
abbrev pub Carries : OrderLoad → List VehicleCapacity → VehicleSelection → Type 0
Carries l cs s =
    (v : VehicleCapacity) × Memᴰ v cs
    × (s.config_id ≡ some v.id)
    × (passes_product_restrictions v l ≡ true)
    × Carried l v s.count

pub can_carry-Carried : (l : OrderLoad) (v : VehicleCapacity) → can_carry v l ≡ true → Carried l v 1
unfolding can_carry
can_carry-Carried l v h = record {
  weight = λ c b e k. ground arith;
  volume = λ c b e k. ground arith;
}

trips_le_weight :
    (l : OrderLoad) (v : VehicleCapacity) (c : ℕ)
    → l.has_weight ≡ true
    → v.usable_weight ≡ some c
    → 0 < c
    → trips_for true (some c) l.total_weight ≤ required_vehicle_count v l
unfolding required_vehicle_count
trips_le_weight l v c b e k = ground arith

trips_le_volume :
    (l : OrderLoad) (v : VehicleCapacity) (c : ℕ)
    → l.has_volume ≡ true
    → v.usable_volume ≡ some c
    → 0 < c
    → trips_for true (some c) l.total_volume ≤ required_vehicle_count v l
unfolding required_vehicle_count
trips_le_volume l v c b e k = ground arith

carries_more : (a b c n : ℕ) → n ≤ a * c → a ≤ b → n ≤ b * c
carries_more a b c n h k = omega (arith, mul-le-mul_right c k)

pub count-Carried : (l : OrderLoad) (v : VehicleCapacity) → Carried l v (required_vehicle_count v l)
count-Carried l v = record {
  weight = λ c b e k.
      carries_more (trips_for true (some c) l.total_weight) (required_vehicle_count v l) c
        l.total_weight (trips_for-carries true c l.total_weight refl k)
        (trips_le_weight l v c b e k);
  volume = λ c b e k.
      carries_more (trips_for true (some c) l.total_volume) (required_vehicle_count v l) c
        l.total_volume (trips_for-carries true c l.total_volume refl k)
        (trips_le_volume l v c b e k);
}
