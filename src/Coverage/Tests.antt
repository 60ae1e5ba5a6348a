-- ===== src/Coverage/Tests.antt =====
-- Two hubs, of which the nearer one lacks the stock.
use Prim.Native.Nat.{Ordering}
use Prim.Native.String.{String}
use mathlib.Core.List.{Memᴰ}
use vikram_backend.Prelude.{ℕ, ◌+◌, ◌-◌, ◌≡◌, ◌↔◌, refl, true, some, List, [], ◌∷◌}
use vikram_backend.Prelude.Int.{ℤ, pos, abs}
use vikram_backend.Coverage.Geo.{Coordinate}
use vikram_backend.Coverage.Routing.{
  assigned, inventory_unavailable, StockItem, Candidate, is_covered, distance_to, evaluate,
  evaluate_hub_routing,
}
use vikram_backend.Coverage.Nearest.{Serves, AtMost, assignable_hub-IsNearest}
use vikram_backend.Coverage.Reasons.{reason_iff}

abbrev far_apart : ℤ → ℤ → ℤ → ℤ → ℕ
far_apart a b c d = abs c - abs a + (abs d - abs b)

abbrev same_text : String → String → Ordering
same_text a b = Ordering.eq

abbrev hub_of : String → ℕ → ℕ → Candidate
hub_of n lat stock = record {
  id = n;
  code = n;
  latitude = some (pos lat);
  longitude = some (pos 770000000);
  service_radius = some 15000;
  inventory = record { product_id = 5; available_qty = stock } ∷ [];
}

abbrev hubs : List Candidate
hubs = hub_of "A" 280009000 40 ∷ hub_of "B" 280003000 2 ∷ hub_of "C" 280040000 90 ∷ []

abbrev customer_lat : Coordinate
customer_lat = some (pos 280000000)

abbrev customer_lng : Coordinate
customer_lng = some (pos 770000000)

abbrev items : List StockItem
items = record { product_id = 5; quantity = 10 } ∷ []

assignable_hub-IsNearest_example :
    (h : Candidate) × Memᴰ h hubs
    × (evaluate far_apart same_text customer_lat customer_lng items (hub_of "A" 280009000 40)
        ≡ evaluate far_apart same_text customer_lat customer_lng items h)
    × Serves far_apart same_text customer_lat customer_lng items h
    × ((k : Candidate)
        → Memᴰ k hubs
        → Serves far_apart same_text customer_lat customer_lng items k
        → AtMost
            (distance_to far_apart same_text customer_lat customer_lng h)
            (distance_to far_apart same_text customer_lat customer_lng k))
unfolding evaluate_hub_routing
assignable_hub-IsNearest_example =
    assignable_hub-IsNearest far_apart same_text customer_lat customer_lng items hubs
      (evaluate far_apart same_text customer_lat customer_lng items (hub_of "A" 280009000 40)) refl

reason_iff_example :
    let reason =
      (evaluate_hub_routing far_apart same_text customer_lat customer_lng hubs items).reason in
    ((reason ≡ assigned) ↔ (
      (h : Candidate) × Memᴰ h hubs × Serves far_apart same_text customer_lat customer_lng items h))
    × ((reason ≡ inventory_unavailable) ↔ (
        ¬ (
          (h : Candidate) × Memᴰ h hubs
          × Serves far_apart same_text customer_lat customer_lng items h)
        × ((h : Candidate) × Memᴰ h hubs
            × (is_covered far_apart same_text customer_lat customer_lng h ≡ true))))
reason_iff_example = reason_iff far_apart same_text customer_lat customer_lng items hubs
