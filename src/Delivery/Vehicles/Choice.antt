-- ===== src/Delivery/Vehicles/Choice.antt =====
-- Every selection by capacity carries the load
-- (src/modules/delivery/engine/delivery-vehicle-selection.logic.ts).
use vikram_backend.Prelude.{◌≡◌, refl, Bool, true, false, not, ◌&&◌, List, if_either}
use vikram_backend.Delivery.Vehicles.{
  OrderLoad, VehicleCapacity, EngineConfig, MultiVehicleMode, required_vehicle_count, is_nil,
}
use vikram_backend.Delivery.Vehicles.Selection.{
  VehicleSelection, SelectionMode, split, is_restricted, select_by_tier, select_vehicle_for_load,
}
use vikram_backend.Delivery.Vehicles.Branches.{IsSuitable, of_selection}
use vikram_backend.Delivery.Vehicles.Capacity.{Carries, can_carry-Carried, count-Carried}

-- The modes in which a capacity decided.
abbrev pub is_by_capacity : SelectionMode → Bool
is_by_capacity SelectionMode.capacity = true
is_by_capacity SelectionMode.multi_vehicle = true
is_by_capacity _ = false

abbrev IsGood : OrderLoad → List VehicleCapacity → VehicleSelection → Type 0
IsGood l cs s = s.is_ok ≡ true → is_by_capacity s.mode ≡ true → Carries l cs s

split-IsGood :
    (l : OrderLoad) (cs : List VehicleCapacity) (m : MultiVehicleMode) (v : VehicleCapacity)
    → IsSuitable l cs v
    → IsGood l cs (split m v (required_vehicle_count v l))
split-IsGood l cs MultiVehicleMode.auto_split v (m, p) h k = (v, m, refl, p, count-Carried l v)
split-IsGood l cs MultiVehicleMode.reject v (m, p) h k = cc
split-IsGood l cs MultiVehicleMode.bulk_quote v (m, p) h k = cc

tier-IsGood :
    (l : OrderLoad) (cs : List VehicleCapacity) (e : EngineConfig)
    → IsGood l cs (select_by_tier l cs e)
unfolding select_by_tier
tier-IsGood l cs e =
    if_either (IsGood l cs) (not (is_nil l.missing_products) && not (is_restricted l.allowed_types))
      (λ _ a b. cc)
      (λ _.
        if_either (IsGood l cs)
          (not e.qty_tier_fallback_enabled && not (is_restricted l.allowed_types)) (λ _ a b. cc)
          (λ _ a b. cc))

-- A selection that succeeds by capacity, with one trip or with several, names a vehicle of the
-- configuration that the products of the order allow, and its trips together carry the weight and the
-- volume of the load, as far as these are measured and the vehicle has a positive capacity for them.
pub select_vehicle_for_load-Carries :
    (l : OrderLoad) (cs : List VehicleCapacity) (e : EngineConfig)
    → (select_vehicle_for_load l cs e).is_ok ≡ true
    → is_by_capacity (select_vehicle_for_load l cs e).mode ≡ true
    → Carries l cs (select_vehicle_for_load l cs e)
select_vehicle_for_load-Carries l cs e =
    of_selection l cs (IsGood l cs)
      (record {
        of_refused = λ m n b x y. cc;
        of_one = λ v (m, p) k x y. (v, m, refl, p, can_carry-Carried l v k);
        of_trips = split-IsGood l cs;
        of_tier = tier-IsGood l cs;
      })
      e
