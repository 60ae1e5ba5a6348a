-- ===== src/Delivery/Vehicles/Branches.antt =====
-- What holds of every branch of the selection holds of the selection
-- (src/modules/delivery/engine/delivery-vehicle-selection.logic.ts).
use mathlib.Core.List.{Memᴰ}
use mathlib.Core.List.Memᴰ.{head}
use vikram_backend.Prelude.{
  ℕ, ◌≡◌, refl, Bool, true, false, not, ◌&&◌, ◌||◌, List, [], ◌∷◌, filter_if, if_either, leb,
}
use vikram_backend.Delivery.Vehicles.{
  OrderLoad, VehicleCapacity, EngineConfig, MultiVehicleMode, can_carry,
  passes_product_restrictions, required_vehicle_count, exceeds_bulk_threshold, is_nil,
}
use vikram_backend.Delivery.Vehicles.Selection.{
  VehicleSelection, SelectionMode, select_first, select_largest, split, eligible, largest, chosen,
  refused, is_empty_list, select_by_capacity, select_by_tier, select_vehicle_for_load,
}
use vikram_backend.Prelude.Sorting.{mem-filter_if, mem-sort_by}

abbrev pub IsSuitable : OrderLoad → List VehicleCapacity → VehicleCapacity → Type 0
IsSuitable l cs v = Memᴰ v cs × (passes_product_restrictions v l ≡ true)

pub record HoldsOfBranches (l : OrderLoad) (cs : List VehicleCapacity)
    (G : VehicleSelection → Type 0) : Type 0 where
  pub of_refused : (m : SelectionMode) (n : ℕ) (b : Bool) → G (refused m n b)
  pub of_one :
      (v : VehicleCapacity)
      → IsSuitable l cs v
      → can_carry v l ≡ true
      → G (chosen SelectionMode.capacity v 1)
  pub of_trips :
      (m : MultiVehicleMode) (v : VehicleCapacity)
      → IsSuitable l cs v
      → G (split m v (required_vehicle_count v l))
  pub of_tier : (e : EngineConfig) → G (select_by_tier l cs e)

module _ (l : OrderLoad) (cs : List VehicleCapacity) (G : VehicleSelection → Type 0)
    (h : HoldsOfBranches l cs G) where
  of_largest :
      (e : EngineConfig) (xs : List VehicleCapacity)
      → ((v : VehicleCapacity) → Memᴰ v xs → IsSuitable l cs v)
      → G (select_largest l e xs)
  of_largest e [] g = h.of_refused SelectionMode.unavailable 0 false
  of_largest e (v ∷ vs) g =
      if_either G (leb (required_vehicle_count v l) 1)
        (λ _. h.of_refused SelectionMode.unavailable 0 false)
        (λ _. h.of_trips e.multi_vehicle_mode v (g v (head refl)))

  of_first :
      (configured : List VehicleCapacity) (e : EngineConfig) (xs : List VehicleCapacity)
      → ((v : VehicleCapacity) → Memᴰ v configured → Memᴰ v cs)
      → ((v : VehicleCapacity) → Memᴰ v xs → IsSuitable l cs v × (can_carry v l ≡ true))
      → G (select_first l configured e xs)
  of_first configured e [] g k = of_largest e (largest l configured) λ v m.
      let (n, p) =
        mem-filter_if (λ c. passes_product_restrictions c l) configured
          (mem-sort_by (λ a b. leb b.priority a.priority) _ m) in
      (g v n, p)
  of_first configured e (v ∷ vs) g k = h.of_one v (k v (head refl)).0 (k v (head refl)).1

  of_capacity :
      (configured : List VehicleCapacity) (e : EngineConfig)
      → ((v : VehicleCapacity) → Memᴰ v configured → Memᴰ v cs)
      → G (select_by_capacity l configured e)
  unfolding select_by_capacity
  of_capacity configured e g = of_first configured e (eligible l configured) g λ v m.
      let (k, p) =
        mem-filter_if (λ c. passes_product_restrictions c l)
          (filter_if (λ c. can_carry c l) configured)
          (mem-sort_by (λ a b. leb a.priority b.priority) _ m) in
      let (n, q) = mem-filter_if (λ c. can_carry c l) configured k in ((g v n, p), q)

  pub of_selection : (e : EngineConfig) → G (select_vehicle_for_load l cs e)
  unfolding select_vehicle_for_load
  of_selection e =
      let configured = filter_if (λ (c : VehicleCapacity). c.has_configured_capacity) cs in
      if_either G (exceeds_bulk_threshold l e) (λ _. h.of_refused SelectionMode.bulk_quote 0 true)
        λ _.
          if_either G (is_empty_list l.allowed_types)
            (λ _. h.of_refused SelectionMode.unavailable 0 false)
            λ _.
              if_either G (not (is_nil configured) && (l.has_weight || l.has_volume))
                (λ _.
                  of_capacity configured e
                    λ v m. (mem-filter_if (λ c. c.has_configured_capacity) cs m).0)
                (λ _. h.of_tier e)
