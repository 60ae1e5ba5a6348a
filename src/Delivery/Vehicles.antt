-- ===== src/Delivery/Vehicles.antt =====
-- The choice of a vehicle for a load
-- (src/modules/delivery/engine/delivery-vehicle-selection.logic.ts, delivery-load.types.ts). Weights,
-- volumes and quantities are whole numbers of their smallest unit, and a quotient is rounded up from
-- its exact value. Names, images, texts and the figures of utilization are left out.
use Prim.Native.String.{String}
use vikram_backend.Prelude.{
  ℕ, ◌+◌, ◌-◌, ◌/◌, max, Bool, true, false, not, ◌&&◌, ◌||◌, Option, none, some, List, [], ◌∷◌,
  ◌==◌, ltb, leb, if◌then◌else◌,
}
use vikram_backend.Orders.Status.{text_eq}
pub mod Selection
mod Capacity
mod Branches
mod Choice
mod Allowed
mod Tests

pub data VehicleType : Type 0 where
  bike e_loader three_wheeler_loader pick_up_van full_truck heavy_loader rmc_transit_mixer :
      VehicleType

-- `priorityIndex`.
abbrev pub priority_index : VehicleType → ℕ
priority_index bike = 0
priority_index e_loader = 1
priority_index three_wheeler_loader = 2
priority_index pick_up_van = 3
priority_index full_truck = 4
priority_index heavy_loader = 5
priority_index rmc_transit_mixer = 6

abbrev pub same_type : VehicleType → VehicleType → Bool
same_type s t = priority_index s == priority_index t

-- `includes`.
abbrev pub has_type : VehicleType → List VehicleType → Bool
has_type t [] = false
has_type t (s ∷ ss) = same_type t s || has_type t ss

abbrev pub has_string : String → List String → Bool
has_string s [] = false
has_string s (t ∷ ts) = text_eq s t || has_string s ts

abbrev pub is_nil {ℓ} : {A : Type ℓ} → List A → Bool
is_nil [] = true
is_nil (x ∷ xs) = false

pub data MultiVehicleMode : Type 0 where
  auto_split bulk_quote reject : MultiVehicleMode

-- EngineConfigView.
pub record EngineConfig : Type 0 where
  pub multi_vehicle_mode : MultiVehicleMode
  pub qty_tier_fallback_enabled : Bool
  pub bulk_threshold_weight : Option ℕ
  pub bulk_threshold_volume : Option ℕ
  pub bulk_threshold_quantity : Option ℕ

-- OrderLoadResult; a line stands for its category, by id or slug.
pub record OrderLoad : Type 0 where
  pub missing_products : List ℕ
  pub total_weight : ℕ
  pub total_volume : ℕ
  pub total_quantity : ℕ
  pub line_categories : List (Option String)
  pub allowed_types : Option (List VehicleType)
  pub preferred_type : Option VehicleType
  pub logistics_types : List String
  pub has_weight : Bool
  pub has_volume : Bool

-- VehicleCapacityView.
pub record VehicleCapacity : Type 0 where
  pub id : ℕ
  pub vehicle_type : VehicleType
  pub usable_weight : Option ℕ
  pub usable_volume : Option ℕ
  pub usable_quantity : Option ℕ
  pub priority : ℕ
  pub has_configured_capacity : Bool
  pub allowed_categories : Option (List String)
  pub supports_rmc : Bool
  pub allowed_logistics_types : Option (List String)

abbrev pub reaches : Option ℕ → ℕ → Bool
reaches none n = false
reaches (some t) n = leb t n

-- `exceedsBulkThreshold`.
unfoldable pub exceeds_bulk_threshold : OrderLoad → EngineConfig → Bool
exceeds_bulk_threshold l e =
    reaches e.bulk_threshold_weight l.total_weight
    || reaches e.bulk_threshold_volume l.total_volume
    || reaches e.bulk_threshold_quantity l.total_quantity

-- A capacity that is there and not exceeded.
abbrev pub fits : Option ℕ → ℕ → Bool
fits none n = false
fits (some c) n = leb n c

abbrev pub fits_or_none : Option ℕ → ℕ → Bool
fits_or_none none n = true
fits_or_none (some c) n = leb n c

-- `canCarry`.
unfoldable pub can_carry : VehicleCapacity → OrderLoad → Bool
can_carry v l =
    (not l.has_weight || fits v.usable_weight l.total_weight)
    && (not l.has_volume || fits v.usable_volume l.total_volume)
    && (l.has_weight || l.has_volume || fits_or_none v.usable_quantity l.total_quantity)
    && v.has_configured_capacity

abbrev pub is_allowed : Option (List VehicleType) → VehicleType → Bool
is_allowed none t = true
is_allowed (some ts) t = is_nil ts || has_type t ts

abbrev pub all_in : List String → List String → Bool
all_in [] ts = true
all_in (s ∷ ss) ts = has_string s ts && all_in ss ts

abbrev pub logistics_ok : Option (List String) → List String → Bool
logistics_ok none ls = true
logistics_ok (some ts) ls = is_nil ts || is_nil ls || all_in ls ts

abbrev pub category_in : List String → Option String → Bool
category_in ts none = true
category_in ts (some c) = text_eq c "" || has_string c ts

abbrev pub all_categories_in : List String → List (Option String) → Bool
all_categories_in ts [] = true
all_categories_in ts (c ∷ cs) = category_in ts c && all_categories_in ts cs

abbrev pub categories_ok : Option (List String) → List (Option String) → Bool
categories_ok none cs = true
categories_ok (some ts) cs = is_nil ts || all_categories_in ts cs

-- `passesProductRestrictions`.
unfoldable pub passes_product_restrictions : VehicleCapacity → OrderLoad → Bool
passes_product_restrictions v l =
    is_allowed l.allowed_types v.vehicle_type
    && (not (has_string "RMC" l.logistics_types)
        || v.supports_rmc
        || same_type v.vehicle_type rmc_transit_mixer)
    && logistics_ok v.allowed_logistics_types l.logistics_types
    && categories_ok v.allowed_categories l.line_categories

-- `Math.ceil(n / c)` for a capacity that is there and positive, and 0 where there is no ratio.
abbrev pub trips_for : Bool → Option ℕ → ℕ → ℕ
trips_for b none n = 0
trips_for b (some c) n = if b && ltb 0 c then (n + (c - 1)) / c else 0

abbrev pub has_ratio : Bool → Option ℕ → Bool
has_ratio b none = false
has_ratio b (some c) = b && ltb 0 c

-- `requiredVehicleCount`: the greatest ratio rounded up is the greatest of the rounded ratios.
unfoldable pub required_vehicle_count : VehicleCapacity → OrderLoad → ℕ
required_vehicle_count v l =
    let by_quantity = not l.has_weight && not l.has_volume in
    if has_ratio l.has_weight v.usable_weight
      || has_ratio l.has_volume v.usable_volume
      || has_ratio by_quantity v.usable_quantity
    then max 1 (
        max (trips_for l.has_weight v.usable_weight l.total_weight) (
          max (trips_for l.has_volume v.usable_volume l.total_volume)
            (trips_for by_quantity v.usable_quantity l.total_quantity)))
    else 0
