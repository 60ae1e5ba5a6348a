-- ===== src/Coverage/Routing.antt =====
-- The hub that an order is routed to (src/modules/coverage/hub-routing.logic.ts). Names,
-- addresses, coordinates and hours, which only pass through, are left out of the matches.
use Prim.Native.Nat.{Ordering}
use Prim.Native.String.{String}
use vikram_backend.Prelude.{
  ℕ, Bool, true, false, not, ◌&&◌, Option, none, some, List, [], ◌∷◌, map, leb, opt_eq, ◌==◌,
  if◌then◌else◌, is_some, find?, filter_if,
}
use vikram_backend.Prelude.Int.{ℤ}
use vikram_backend.Prelude.Sorting.{sort_by}
use vikram_backend.Coverage.Geo.{
  Coordinate, is_valid_coordinates, is_valid_service_radius, round_km, is_within_service_radius,
}

pub data HubAssignmentReason : Type 0 where
  assigned no_serviceable_hub location_missing location_invalid inventory_unavailable
        hub_not_configured hub_inactive :
      HubAssignmentReason

pub record StockItem : Type 0 where
  pub product_id : ℕ
  pub quantity : ℕ

pub record StockRow : Type 0 where
  pub product_id : ℕ
  pub available_qty : ℕ

-- HubRoutingCandidateInput.
pub record Candidate : Type 0 where
  pub id : String
  pub code : String
  pub latitude : Coordinate
  pub longitude : Coordinate
  pub service_radius : Option ℕ
  pub inventory : List StockRow

pub data Ineligibility : Type 0 where
  hub_location_incomplete hub_radius_invalid : Ineligibility

-- CoverageHubMatch; the distance none is Infinity.
pub record HubMatch : Type 0 where
  pub id : String
  pub code : String
  pub service_radius : ℕ
  pub distance : Option ℕ
  pub in_coverage : Bool
  pub stock_ok : Bool
  pub can_fulfill : Bool
  pub routable : Bool
  pub ineligibility_reason : Option Ineligibility

pub record Snapshot : Type 0 where
  pub customer_latitude : Coordinate
  pub customer_longitude : Coordinate
  pub selected_hub_id : Option String
  pub distance : Option ℕ
  pub hub_radius : Option ℕ
  pub in_coverage : Bool
  pub can_fulfill : Bool
  pub nearest_hub_id : Option String
  pub nearest_distance : Option ℕ
  pub nearest_hub_radius : Option ℕ
  pub reason : HubAssignmentReason

pub record Decision : Type 0 where
  pub assignable_hub : Option HubMatch
  pub nearest_eligible_hub : Option HubMatch
  pub nearest_hub : Option HubMatch
  pub matches : List HubMatch
  pub reason : HubAssignmentReason
  pub snapshot : Snapshot

abbrev pub quantity_of : Option StockRow → ℕ
quantity_of none = 0
quantity_of (some r) = r.available_qty

abbrev pub covers_item : List StockRow → StockItem → Bool
covers_item rows item =
    leb item.quantity (quantity_of (find? (λ (r : StockRow). r.product_id == item.product_id) rows))

-- `stockCoversItems`.
abbrev pub stock_covers_items : List StockRow → List StockItem → Bool
stock_covers_items rows [] = true
stock_covers_items rows (i ∷ is) = covers_item rows i && stock_covers_items rows is

abbrev ineligibility : Candidate → Option Ineligibility
ineligibility h =
    if not (is_valid_coordinates h.latitude h.longitude)
    then some hub_location_incomplete
    else if not (is_valid_service_radius h.service_radius)
    then some hub_radius_invalid
    else none

abbrev pub is_routable : Candidate → Bool
is_routable h =
    is_valid_coordinates h.latitude h.longitude && is_valid_service_radius h.service_radius

abbrev radius_of : Option ℕ → ℕ
radius_of none = 0
radius_of (some r) = r

abbrev is_at_most : Ordering → Bool
is_at_most Ordering.gt = false
is_at_most _ = true

abbrev is_equal : Ordering → Bool
is_equal Ordering.eq = true
is_equal _ = false

-- `a.distanceKm - b.distanceKm` of two that differ, at most 0.
abbrev pub is_nearer : Option ℕ → Option ℕ → Bool
is_nearer (some a) (some b) = leb a b
is_nearer (some a) none = true
is_nearer none b = false

abbrev differ : Bool → Bool → Bool
differ true b = not b
differ false b = b

abbrev head? : List HubMatch → Option HubMatch
head? [] = none
head? (m ∷ ms) = some m

abbrev pub has_none {ℓ} : {A : Type ℓ} → List A → Bool
has_none [] = true
has_none (x ∷ xs) = false

abbrev pub reason_of :
    Coordinate → Coordinate → List Candidate → List HubMatch → HubAssignmentReason
reason_of lat lng hubs matches =
    if is_some (find? (λ (m : HubMatch). m.in_coverage && m.can_fulfill) matches)
    then assigned
    else if not (is_some lat) && not (is_some lng)
    then location_missing
    else if not (is_valid_coordinates lat lng)
    then location_invalid
    else if has_none hubs
    then hub_not_configured
    else if has_none matches
    then hub_not_configured
    else if not (is_some (find? (λ (m : HubMatch). m.in_coverage) matches))
    then no_serviceable_hub
    else inventory_unavailable

abbrev id_of : Option HubMatch → Option String
id_of none = none
id_of (some m) = some m.id

abbrev distance_at : Option HubMatch → Option ℕ
distance_at none = none
distance_at (some m) = m.distance

abbrev radius_at : Option HubMatch → Option ℕ
radius_at none = none
radius_at (some m) = some m.service_radius

-- `??`.
abbrev or_else {ℓ} : {A : Type ℓ} → Option A → Option A → Option A
or_else none b = b
or_else (some a) b = some a

abbrev known : Bool → Coordinate → Coordinate
known true c = c
known false c = none

-- `selectNearestEligibleHub`.
unfoldable pub select_nearest_eligible_hub : Decision → Option HubMatch
select_nearest_eligible_hub d = or_else d.assignable_hub d.nearest_eligible_hub

-- The distance of two places, and `localeCompare`.
module _ (haversine : ℤ → ℤ → ℤ → ℤ → ℕ) (locale_compare : String → String → Ordering) where
  -- Where both places are known.
  abbrev pub distance_of : Coordinate → Coordinate → Coordinate → Coordinate → Option ℕ
  distance_of (some lat) (some lng) (some hub_lat) (some hub_lng) =
      some (round_km (haversine lat lng hub_lat hub_lng))
  distance_of _ _ _ _ = none

  abbrev pub distance_to : Coordinate → Coordinate → Candidate → Option ℕ
  distance_to lat lng h =
      if is_valid_coordinates lat lng && is_routable h
      then distance_of lat lng h.latitude h.longitude
      else none

  abbrev pub is_covered : Coordinate → Coordinate → Candidate → Bool
  is_covered lat lng h =
      is_valid_coordinates lat lng
      && is_routable h
      && is_within_service_radius (distance_to lat lng h) h.service_radius

  -- The body of the loop over the hubs.
  abbrev pub evaluate : Coordinate → Coordinate → List StockItem → Candidate → HubMatch
  evaluate lat lng items h = record {
    id = h.id;
    code = h.code;
    service_radius = radius_of h.service_radius;
    distance = distance_to lat lng h;
    in_coverage = is_covered lat lng h;
    stock_ok = stock_covers_items h.inventory items;
    can_fulfill = is_covered lat lng h && stock_covers_items h.inventory items;
    routable = is_routable h;
    ineligibility_reason = ineligibility h;
  }

  -- The hub's code, then its id.
  abbrev pub by_code : HubMatch → HubMatch → Bool
  by_code a b =
      if not (is_equal (locale_compare a.code b.code))
      then is_at_most (locale_compare a.code b.code)
      else is_at_most (locale_compare a.id b.id)

  -- The distance, then the code and the id.
  abbrev pub by_distance : HubMatch → HubMatch → Bool
  by_distance a b =
      if not (opt_eq a.distance b.distance) then is_nearer a.distance b.distance else by_code a b

  -- `compareMatches`, at most 0.
  abbrev pub compare_matches : HubMatch → HubMatch → Bool
  compare_matches a b =
      if differ a.in_coverage b.in_coverage
      then a.in_coverage
      else if differ a.can_fulfill b.can_fulfill
      then a.can_fulfill
      else by_distance a b

  abbrev pub routable_matches :
      Coordinate → Coordinate → List Candidate → List StockItem → List HubMatch
  routable_matches lat lng hubs items =
      sort_by compare_matches
        (filter_if (λ (m : HubMatch). m.routable) (map (evaluate lat lng items) hubs))

  abbrev decide : Coordinate → Coordinate → List HubMatch → HubAssignmentReason → Decision
  decide lat lng matches reason =
      let assignable = find? (λ (m : HubMatch). m.in_coverage && m.can_fulfill) matches in
      let eligible = find? (λ (m : HubMatch). m.in_coverage) matches in
      let nearest = head? (sort_by by_distance matches) in
      let valid = is_valid_coordinates lat lng in
      record {
        assignable_hub = assignable;
        nearest_eligible_hub = eligible;
        nearest_hub = nearest;
        matches = matches;
        reason = reason;
        snapshot = record {
          customer_latitude = known valid lat;
          customer_longitude = known valid lng;
          selected_hub_id = id_of assignable;
          distance = distance_at (or_else assignable (or_else eligible nearest));
          hub_radius =
              or_else (radius_at assignable) (or_else (radius_at eligible) (radius_at nearest));
          in_coverage = is_some eligible;
          can_fulfill = is_some assignable;
          nearest_hub_id = id_of nearest;
          nearest_distance = distance_at nearest;
          nearest_hub_radius = radius_at nearest;
          reason = reason;
        };
      }

  -- `evaluateHubRouting`.
  unfoldable pub evaluate_hub_routing :
      Coordinate → Coordinate → List Candidate → List StockItem → Decision
  evaluate_hub_routing lat lng hubs items =
      let matches = routable_matches lat lng hubs items in
      decide lat lng matches (reason_of lat lng hubs matches)
