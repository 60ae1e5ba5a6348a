-- ===== src/Orders/Placement/Tests.antt =====
-- An order of three units that is placed, sent again and cancelled; the customer has an unpaid online
-- order before it.
use vikram_backend.Prelude.{
  ℕ, ◌≡◌, refl, true, false, none, some, [], ◌∷◌, map, ◌==◌, if◌then◌else◌, Result, ok, err,
}
use vikram_backend.Delivery.Benefit.{BenefitConfig}
use vikram_backend.Loyalty.Orders.{refund_redemption_for_cancelled_order}
use vikram_backend.Orders.World.{PaymentMethod, OrderError, bad_request}
use vikram_backend.Orders.Effects.{
  release_reserved_stock, restore_benefit, release_slot, refund_redemption,
}
use vikram_backend.Orders.Customer.{customer_cancel, release_checkout, release_unpaid_online_order}
use vikram_backend.Orders.Inventory.{units, on_shelf}
use vikram_backend.Orders.Tests.{world_of, online_order, add_months}
use vikram_backend.Orders.Shop.{Shop}
use vikram_backend.Orders.Placement.{
  Prepared, Request, to_item, reserve_items, reserve_stock, take_variants, take_variant_stock,
  create_order, confirm_slot, clear_cart, commit_points, consume_benefit, place_rest,
  place_in_transaction, release_unpaid_online_checkouts, place_order,
}
use mathlib.Core.List.{Memᴰ}
use mathlib.Core.List.Memᴰ.{head, tail}
use vikram_backend.Prelude.{List, ◌≤◌, ==_iff, arith, sym, subst, find?}
use vikram_backend.Coverage.Routing.{StockRow, StockItem, quantity_of}
use vikram_backend.Coverage.Nearest.{HasStock}
use vikram_backend.Orders.Effects.{Inventory}
use vikram_backend.Orders.Placement.Reserving.{taken}
use vikram_backend.Orders.Placement.Routed.{to_stock_item, reserve_items-of_HasStock}
use vikram_backend.Orders.Placement.{CheckoutItem}
use vikram_backend.Orders.Placement.Placed.{taken_by, place_in_transaction-Moved, place-cancel}
use vikram_backend.Orders.Placement.Reserving.{Moved}
use vikram_backend.Orders.Placement.Repeating.{place_order-again, place_order-units}

abbrev shop : Shop
shop = record {
  world = world_of online_order;
  idempotency_key = λ _. none;
  scheduled_slot = λ _. none;
  proposed_slot = λ _. none;
  variant = λ v.
      if v == 70
      then some
          (record { product_id = 5; stock = 4; in_stock = true; is_active = true; deleted = false })
      else none;
  cart = λ _. record { product_id = 5; quantity = 3 } ∷ [];
}

abbrev prepared : Prepared
prepared = record {
  checkout = record {
    items = record { product_id = 5; quantity = 3; variant_id = some 70 } ∷ [];
    subtotal = 900;
    membership_discount = 0;
    loyalty_used = 0;
    free_delivery_applied = false;
    bike_delivery_free = false;
    company_absorbed_delivery = 0;
    is_bike = false;
  };
  assignable_hub = some 1;
  slot = none;
}

abbrev request : Request
request = record {
  payment_method = PaymentMethod.cash;
  idempotency_key = some "k-1";
  prepare = λ _. ok prepared;
}

abbrev benefit_config : BenefitConfig
benefit_config = record {
  first_bike_deliveries_free = 3;
  company_absorption = 40;
  is_active = true;
}

abbrev shop_or : Shop → Result OrderError Shop → Shop
shop_or s (ok t) = t
shop_or s (err e) = s

abbrev placed : Shop
placed = shop_or shop (place_in_transaction 50 benefit_config 9 1 request prepared shop)

too_many :
    reserve_items 1
      (record { product_id = 5; quantity = 9; variant_id = none } ∷ [])
      shop.world.inventory
    ≡ err bad_request
unfolding reserve_items
too_many = refl

place_in_transaction-Moved_example :
    Moved
      (taken_by (some 1) 1 5 (map to_item prepared.checkout.items))
      (shop.world.inventory 1 5)
      (placed.world.inventory 1 5)
unfolding place_in_transaction reserve_stock reserve_items place_rest take_variant_stock
    take_variants create_order confirm_slot clear_cart commit_points consume_benefit
place_in_transaction-Moved_example =
    place_in_transaction-Moved 50 benefit_config 9 1 request prepared shop placed 1 5 refl

place-cancel_example :
    (customer_cancel add_months 60 9 1 placed.world).0.inventory 1 5 ≡ shop.world.inventory 1 5
unfolding place_in_transaction reserve_stock reserve_items place_rest take_variant_stock
    take_variants create_order confirm_slot clear_cart commit_points consume_benefit
place-cancel_example =
    place-cancel add_months 50 60 benefit_config 9 1 request prepared shop placed 1 5 refl

abbrev placed_first : Shop × Result OrderError ℕ
placed_first = place_order add_months 50 benefit_config 9 1 request shop

first_placed : placed_first ≡ (placed_first.0, ok 1)
unfolding place_order place_in_transaction reserve_stock reserve_items place_rest take_variant_stock
    take_variants create_order confirm_slot clear_cart commit_points consume_benefit
    release_unpaid_online_checkouts release_unpaid_online_order release_checkout
    release_reserved_stock restore_benefit release_slot refund_redemption
    refund_redemption_for_cancelled_order
first_placed = refl

place_order-again_example :
    place_order add_months 80 benefit_config 9 2 request placed_first.0 ≡ (placed_first.0, ok 1)
place_order-again_example =
    place_order-again add_months 50 80 benefit_config benefit_config 9 1 2 1 "k-1" request request
      shop placed_first.0 refl refl first_placed

place_order-units_example :
    units (placed_first.0.world.inventory 1 5) ≡ units (shop.world.inventory 1 5)
place_order-units_example = place_order-units add_months 50 benefit_config 9 1 request shop 1 5

abbrev rows : List StockRow
rows = record { product_id = 5; available_qty = 8 } ∷ []

rows_read :
    (p : ℕ)
    → quantity_of (find? (λ (r : StockRow). r.product_id == p) rows)
      ≡ on_shelf (shop.world.inventory 1 p)
rows_read p = ground (arith, ==_iff 5 p, ==_iff p 5)

rows-HasStock : HasStock rows (map to_stock_item prepared.checkout.items)
rows-HasStock i (head e) =
    subst
      (λ (x : StockItem).
        x.quantity ≤ quantity_of (find? (λ (r : StockRow). r.product_id == x.product_id) rows))
      (sym e) (omega arith)
rows-HasStock i (tail m) = elim m [ ]

single :
    (x : CheckoutItem)
    → Memᴰ x prepared.checkout.items
    → (1 ≤ x.quantity) × (taken 1 1 x.product_id (map to_item prepared.checkout.items) ≡ x.quantity)
single x (head e) =
    subst
      (λ (y : CheckoutItem).
        (1 ≤ y.quantity)
        × (taken 1 1 y.product_id (map to_item prepared.checkout.items) ≡ y.quantity))
      (sym e) (omega arith, refl)
single x (tail m) = elim m [ ]

reserve_items-of_HasStock_example :
    (after : Inventory) × (reserve_items 1 prepared.checkout.items shop.world.inventory ≡ ok after)
reserve_items-of_HasStock_example =
    reserve_items-of_HasStock 1 prepared.checkout.items shop.world.inventory rows rows_read
      rows-HasStock single
