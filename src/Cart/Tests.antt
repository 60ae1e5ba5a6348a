-- ===== src/Cart/Tests.antt =====
-- Bags of cement with a bulk price from ten bags on, in one variant of which two are left.
use vikram_backend.Prelude.{
  ◌≡◌, refl, true, none, some, [], ◌∷◌, ◌==◌, if◌then◌else◌, Result, ok, err,
}
use vikram_backend.Cart.{
  Product, Variant, Catalogue, Cart, CartError, not_enough, resolve_variant, resolve_bulk_tiers,
  resolve_unit_price, assert_quantity_allowed, get_available_stock, add_item,
}
use vikram_backend.Cart.Prices.{IsLeast, resolve_unit_price-IsLeast}
use vikram_backend.Cart.Lines.{IsValid, Reach, empty, added, cart-IsValid}
use vikram_backend.Cart.Additions.{IsAdded, add_item-IsAdded}

abbrev cement : Product
cement = record {
  retail_price = 40000;
  bulk_price = none;
  bulk_threshold = 0;
  bulk_pricing =
      some (record { min_qty = 50; price = 36000 })
      ∷ none
      ∷ some (record { min_qty = 10; price = 38000 })
      ∷ [];
  min_order = 1;
  max_order = none;
  gst = 1800;
  has_variants = true;
}

abbrev bag : Variant
bag = record {
  id = 7;
  price = 39000;
  bulk_price = none;
  stock = 2;
  in_stock = true;
  is_active = true;
}

abbrev catalogue : Catalogue
catalogue = record {
  product = λ i. if i == 5 then some cement else none;
  variants = λ i. bag ∷ [];
  hub_stock = λ i. 60 ∷ 40 ∷ [];
}

abbrev no_items : Cart
no_items = record { items = []; next_id = 0 }

abbrev cart_or : Cart → Result CartError Cart → Cart
cart_or c (ok d) = d
cart_or c (err e) = c

abbrev twelve_bags : Cart
twelve_bags = cart_or no_items (add_item catalogue 5 none 12 no_items)

named_refused : add_item catalogue 5 (some 7) 12 no_items ≡ err not_enough
unfolding add_item resolve_variant assert_quantity_allowed get_available_stock
named_refused = refl

resolve_unit_price-IsLeast_example :
    IsLeast 12
      (resolve_bulk_tiers cement (some bag))
      39000
      (resolve_unit_price cement (some bag) 12)
resolve_unit_price-IsLeast_example = resolve_unit_price-IsLeast cement (some bag) 12

add_item-IsAdded_example : IsAdded catalogue 5 none 12 no_items twelve_bags
unfolding add_item resolve_variant assert_quantity_allowed get_available_stock
add_item-IsAdded_example = add_item-IsAdded catalogue 5 none 12 no_items twelve_bags refl

twelve_bags-Reach : Reach twelve_bags
unfolding add_item resolve_variant assert_quantity_allowed get_available_stock
twelve_bags-Reach = added catalogue 5 none 12 (empty 0) refl

cart-IsValid_example : IsValid twelve_bags
cart-IsValid_example = cart-IsValid twelve_bags-Reach
