-- ===== src/Delivery/Vehicles/Selection.antt =====
-- `selectVehicleForLoad` (src/modules/delivery/engine/delivery-vehicle-selection.logic.ts) and the tiers
-- by quantity (src/modules/delivery/delivery-pricing.constants.ts).
use vikram_backend.Prelude.{
  ℕ, max, Bool, true, false, not, ◌&&◌, ◌||◌, Option, none, some, List, [], ◌∷◌, ltb, leb,
  if◌then◌else◌, find?, filter_if,
}
use vikram_backend.Prelude.Sorting.{sort_by}
use vikram_backend.Delivery.Vehicles.{
  VehicleType, bike, e_loader, three_wheeler_loader, pick_up_van, full_truck, priority_index,
  has_type, same_type, is_nil, MultiVehicleMode, auto_split, reject, EngineConfig, OrderLoad,
  VehicleCapacity, exceeds_bulk_threshold, can_carry, passes_product_restrictions,
  required_vehicle_count,
}

pub data SelectionMode : Type 0 where
  capacity qty_tier_fallback multi_vehicle bulk_quote unavailable : SelectionMode

-- VehicleSelectionResult.
pub record VehicleSelection : Type 0 where
  pub is_ok : Bool
  pub mode : SelectionMode
  pub vehicle_type : Option VehicleType
  pub config_id : Option ℕ
  pub count : ℕ
  pub requires_bulk_quote : Bool
  pub is_multi_vehicle : Bool

abbrev pub last_or : VehicleType → List VehicleType → VehicleType
last_or t [] = t
last_or t (s ∷ ss) = last_or s ss

abbrev pub or_last : VehicleType → List VehicleType → Option VehicleType → VehicleType
or_last t ts none = last_or t ts
or_last t ts (some s) = s

-- `clampToAllowed`.
unfoldable pub clamp_to_allowed : VehicleType → Option (List VehicleType) → VehicleType
clamp_to_allowed t none = t
clamp_to_allowed t (some ts) =
    let sorted = sort_by (λ a b. leb (priority_index a) (priority_index b)) ts in
    if is_nil ts || has_type t ts
    then t
    else or_last t sorted (find? (λ s. leb (priority_index t) (priority_index s)) sorted)

-- `resolveDeliveryVehicleForQuantity` over DELIVERY_VEHICLE_QTY_TIERS.
unfoldable pub resolve_vehicle_for_quantity : ℕ → VehicleType
resolve_vehicle_for_quantity q =
    if leb (max 1 q) 10
    then bike
    else if leb (max 1 q) 25
    then e_loader
    else if leb (max 1 q) 50
    then three_wheeler_loader
    else if leb (max 1 q) 150
    then pick_up_van
    else full_truck

abbrev pub refused : SelectionMode → ℕ → Bool → VehicleSelection
refused m n bulk = record {
  is_ok = false;
  mode = m;
  vehicle_type = none;
  config_id = none;
  count = n;
  requires_bulk_quote = bulk;
  is_multi_vehicle = ltb 0 n;
}

abbrev pub is_empty_list : Option (List VehicleType) → Bool
is_empty_list none = false
is_empty_list (some ts) = is_nil ts

abbrev pub is_restricted : Option (List VehicleType) → Bool
is_restricted none = false
is_restricted (some ts) = not (is_nil ts)

abbrev pub is_in : Option (List VehicleType) → VehicleType → Bool
is_in none t = true
is_in (some ts) t = has_type t ts

-- The preferred vehicle, if it is allowed and not smaller.
abbrev pub prefer : OrderLoad → Option VehicleType → VehicleType → VehicleType
prefer l none t = t
prefer l (some p) t =
    if is_in l.allowed_types p && leb (priority_index t) (priority_index p) then p else t

abbrev pub fallback_type : OrderLoad → VehicleType
fallback_type l =
    prefer l l.preferred_type
      (clamp_to_allowed (resolve_vehicle_for_quantity l.total_quantity) l.allowed_types)

abbrev pub id_of : Option VehicleCapacity → Option ℕ
id_of none = none
id_of (some v) = some v.id

abbrev pub tier_choice : OrderLoad → List VehicleCapacity → VehicleSelection
tier_choice l configs = record {
  is_ok = true;
  mode = qty_tier_fallback;
  vehicle_type = some (fallback_type l);
  config_id = id_of (find? (λ c. same_type c.vehicle_type (fallback_type l)) configs);
  count = 1;
  requires_bulk_quote = false;
  is_multi_vehicle = false;
}

-- Without capacities: by the tiers.
unfoldable pub select_by_tier : OrderLoad → List VehicleCapacity → EngineConfig → VehicleSelection
select_by_tier l configs e =
    if not (is_nil l.missing_products) && not (is_restricted l.allowed_types)
    then refused unavailable 0 false
    else if not e.qty_tier_fallback_enabled && not (is_restricted l.allowed_types)
    then refused unavailable 0 false
    else tier_choice l configs

abbrev pub chosen : SelectionMode → VehicleCapacity → ℕ → VehicleSelection
chosen m v n = record {
  is_ok = true;
  mode = m;
  vehicle_type = some v.vehicle_type;
  config_id = some v.id;
  count = n;
  requires_bulk_quote = false;
  is_multi_vehicle = ltb 1 n;
}

-- More than one trip.
abbrev pub split : MultiVehicleMode → VehicleCapacity → ℕ → VehicleSelection
split auto_split v n = chosen multi_vehicle v n
split reject v n = refused unavailable n false
split MultiVehicleMode.bulk_quote v n = record (refused SelectionMode.bulk_quote n true) {
  vehicle_type = some v.vehicle_type;
  config_id = some v.id;
}

-- The vehicle of the highest priority, when none carries the load alone.
abbrev pub select_largest : OrderLoad → EngineConfig → List VehicleCapacity → VehicleSelection
select_largest l e [] = refused unavailable 0 false
select_largest l e (v ∷ vs) =
    if leb (required_vehicle_count v l) 1
    then refused unavailable 0 false
    else split e.multi_vehicle_mode v (required_vehicle_count v l)

abbrev pub eligible : OrderLoad → List VehicleCapacity → List VehicleCapacity
eligible l configured =
    sort_by (λ a b. leb a.priority b.priority)
      (filter_if (λ c. passes_product_restrictions c l) (filter_if (λ c. can_carry c l) configured))

abbrev pub largest : OrderLoad → List VehicleCapacity → List VehicleCapacity
largest l configured =
    sort_by (λ a b. leb b.priority a.priority)
      (filter_if (λ c. passes_product_restrictions c l) configured)

abbrev pub select_first :
    OrderLoad → List VehicleCapacity → EngineConfig → List VehicleCapacity → VehicleSelection
select_first l configured e [] = select_largest l e (largest l configured)
select_first l configured e (v ∷ vs) = chosen capacity v 1

-- With capacities.
unfoldable pub select_by_capacity :
    OrderLoad → List VehicleCapacity → EngineConfig → VehicleSelection
select_by_capacity l configured e = select_first l configured e (eligible l configured)

-- `selectVehicleForLoad`.
unfoldable pub select_vehicle_for_load :
    OrderLoad → List VehicleCapacity → EngineConfig → VehicleSelection
select_vehicle_for_load l configs e =
    let configured = filter_if (λ (c : VehicleCapacity). c.has_configured_capacity) configs in
    if exceeds_bulk_threshold l e
    then refused SelectionMode.bulk_quote 0 true
    else if is_empty_list l.allowed_types
    then refused unavailable 0 false
    else if not (is_nil configured) && (l.has_weight || l.has_volume)
    then select_by_capacity l configured e
    else select_by_tier l configs e
