-- ===== src/Delivery/Vehicles/Tests.antt =====
-- A load for a bike, one that is split over two trips, and one of which the products allow one type.
use vikram_backend.Prelude.{ℕ, ◌≡◌, refl, Bool, true, false, Option, none, some, List, [], ◌∷◌}
use vikram_backend.Delivery.Vehicles.{
  VehicleType, bike, pick_up_van, rmc_transit_mixer, auto_split, EngineConfig, OrderLoad,
  VehicleCapacity, exceeds_bulk_threshold, can_carry, passes_product_restrictions,
  required_vehicle_count, is_allowed,
}
use vikram_backend.Delivery.Vehicles.Selection.{
  SelectionMode, select_vehicle_for_load, select_by_capacity, select_by_tier, clamp_to_allowed,
  resolve_vehicle_for_quantity,
}
use vikram_backend.Delivery.Vehicles.Capacity.{Carries}
use vikram_backend.Delivery.Vehicles.Choice.{select_vehicle_for_load-Carries}
use vikram_backend.Delivery.Vehicles.Allowed.{select_vehicle_for_load-IsAllowed}

abbrev engine : EngineConfig
engine = record {
  multi_vehicle_mode = auto_split;
  qty_tier_fallback_enabled = true;
  bulk_threshold_weight = none;
  bulk_threshold_volume = none;
  bulk_threshold_quantity = none;
}

abbrev load_of : ℕ → Bool → Option (List VehicleType) → OrderLoad
load_of weight measured allowed = record {
  missing_products = [];
  total_weight = weight;
  total_volume = 0;
  total_quantity = 20;
  line_categories = some "cement" ∷ [];
  allowed_types = allowed;
  preferred_type = none;
  logistics_types = [];
  has_weight = measured;
  has_volume = false;
}

abbrev vehicle_of : ℕ → VehicleType → ℕ → VehicleCapacity
vehicle_of i t weight = record {
  id = i;
  vehicle_type = t;
  usable_weight = some weight;
  usable_volume = none;
  usable_quantity = none;
  priority = i;
  has_configured_capacity = true;
  allowed_categories = none;
  supports_rmc = false;
  allowed_logistics_types = none;
}

abbrev fleet : List VehicleCapacity
fleet = vehicle_of 2 pick_up_van 900 ∷ vehicle_of 1 bike 30 ∷ []

light : select_vehicle_for_load (load_of 25 true none) fleet engine ≡ record {
  is_ok = true;
  mode = SelectionMode.capacity;
  vehicle_type = some bike;
  config_id = some 1;
  count = 1;
  requires_bulk_quote = false;
  is_multi_vehicle = false;
}
unfolding select_vehicle_for_load exceeds_bulk_threshold select_by_capacity can_carry
    passes_product_restrictions
light = refl

select_vehicle_for_load-Carries_example :
    Carries
      (load_of 1000 true none)
      fleet
      (select_vehicle_for_load (load_of 1000 true none) fleet engine)
unfolding select_vehicle_for_load exceeds_bulk_threshold select_by_capacity can_carry
    passes_product_restrictions required_vehicle_count
select_vehicle_for_load-Carries_example =
    select_vehicle_for_load-Carries (load_of 1000 true none) fleet engine refl refl

select_vehicle_for_load-IsAllowed_example :
    is_allowed (some (rmc_transit_mixer ∷ [])) rmc_transit_mixer ≡ true
unfolding select_vehicle_for_load exceeds_bulk_threshold select_by_tier clamp_to_allowed
    resolve_vehicle_for_quantity
select_vehicle_for_load-IsAllowed_example =
    select_vehicle_for_load-IsAllowed (load_of 0 false (some (rmc_transit_mixer ∷ []))) fleet engine
      rmc_transit_mixer refl
