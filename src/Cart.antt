-- ===== src/Cart.antt =====
-- The cart of a customer and its prices (src/modules/cart/cart.service.ts,
-- src/common/shopping/pricing.util.ts). Prices are paise and tax rates hundredths of a percent, the
-- precision of their columns, so that only the tax is rounded; the prices of the tiers in JSON are taken
-- to be whole paise too, and their quantities whole. Products, variants and stock are read.
pub mod Prices
pub mod Lines
pub mod Additions
mod Tests
use vikram_backend.Prelude.{
  ℕ, suc, ◌+◌, ◌-◌, ◌*◌, ◌/◌, Bool, true, false, not, ◌&&◌, ◌||◌, Option, none, some, List, [], ◌∷◌,
  ◌++◌, length, ltb, leb, ◌==◌, opt_eq, if◌then◌else◌, find?, filter_if, sum_of, is_some, Result,
  ok, err, ◌>>=◌, update_first,
}
use vikram_backend.Prelude.Sorting.{sort_by}

pub record BulkTier : Type 0 where
  pub min_qty : ℕ
  pub price : ℕ

pub record Product : Type 0 where
  pub retail_price : ℕ
  pub bulk_price : Option ℕ
  pub bulk_threshold : ℕ
  -- The JSON array; `none` is an entry without a numeric `minQty` or `price`.
  pub bulk_pricing : List (Option BulkTier)
  pub min_order : ℕ
  pub max_order : Option ℕ
  pub gst : ℕ
  pub has_variants : Bool

pub record Variant : Type 0 where
  pub id : ℕ
  pub price : ℕ
  pub bulk_price : Option ℕ
  pub stock : ℕ
  pub in_stock : Bool
  pub is_active : Bool

-- The products that can be bought, their variants that are not deleted, in display order, and their
-- stock at the active hubs.
pub record Catalogue : Type 0 where
  pub product : ℕ → Option Product
  pub variants : ℕ → List Variant
  pub hub_stock : ℕ → List ℕ

pub record CartItem : Type 0 where
  pub id : ℕ
  pub product_id : ℕ
  pub variant_id : Option ℕ
  pub quantity : ℕ
  pub price : ℕ
  pub gst : ℕ
  pub subtotal : ℕ
  pub bulk_discount : ℕ

pub record Cart : Type 0 where
  pub items : List CartItem
  pub next_id : ℕ

pub data CartError : Type 0 where
  not_purchasable no_variants variant_gone variant_unavailable select_variant : CartError
  below_minimum above_maximum out_of_stock not_enough item_not_found : CartError

abbrev has_id : ℕ → Variant → Bool
has_id i v = v.id == i

abbrev is_sellable : Variant → Bool
is_sellable v = v.is_active && v.in_stock

abbrev checked_variant : Option Variant → Result CartError (Option Variant)
checked_variant none = err variant_gone
checked_variant (some v) =
    if not v.is_active
    then err variant_unavailable
    else if not v.in_stock
    then err variant_unavailable
    else ok (some v)

abbrev first_of : List Variant → List Variant → Option Variant
first_of (v ∷ vs) all = some v
first_of [] (v ∷ vs) = some v
first_of [] [] = none

-- The choice when the request names no variant.
abbrev unnamed_variant :
    Bool → Bool → List Variant → List Variant → Result CartError (Option Variant)
unnamed_variant has_variants require all (v ∷ []) = ok (some v)
unnamed_variant has_variants require all sellable =
    if require && (has_variants || ltb 1 (length all))
    then err select_variant
    else ok (first_of sellable all)

-- `resolveVariant`.
unfoldable pub resolve_variant :
    List Variant → Option ℕ → Bool → Bool → Result CartError (Option Variant)
resolve_variant [] none has_variants require = ok none
resolve_variant [] (some i) has_variants require = err no_variants
resolve_variant (v ∷ vs) (some i) has_variants require = checked_variant (find? (has_id i) (v ∷ vs))
resolve_variant (v ∷ vs) none has_variants require =
    unnamed_variant has_variants require (v ∷ vs) (filter_if is_sellable (v ∷ vs))

abbrev pub retail_of : Product → Option Variant → ℕ
retail_of p none = p.retail_price
retail_of p (some v) = v.price

abbrev bulk_of : Product → Option Variant → Option ℕ
bulk_of p none = p.bulk_price
bulk_of p (some v) = elim v.bulk_price [ some b ↦ some b | none ↦ p.bulk_price ]

abbrev tier_of : ℕ → Option ℕ → List BulkTier
tier_of threshold none = []
tier_of threshold (some b) =
    if ltb 0 threshold then record { min_qty = threshold; price = b } ∷ [] else []

abbrev well_formed : List (Option BulkTier) → List BulkTier
well_formed [] = []
well_formed (none ∷ ts) = well_formed ts
well_formed (some t ∷ ts) = t ∷ well_formed ts

-- `resolveBulkTiers`. An array of malformed tiers alone gives no tier, and not the product's bulk price.
unfoldable pub resolve_bulk_tiers : Product → Option Variant → List BulkTier
resolve_bulk_tiers p v = elim p.bulk_pricing [
  | [] ↦ tier_of p.bulk_threshold (bulk_of p v)
  | t ∷ ts ↦ sort_by (λ (a b : BulkTier). leb a.min_qty b.min_qty) (well_formed (t ∷ ts))
]

-- The loop over the tiers.
unfoldable pub best_price : ℕ → List BulkTier → ℕ → ℕ
best_price quantity [] unit_price = unit_price
best_price quantity (t ∷ ts) unit_price =
    best_price quantity ts
      (if leb t.min_qty quantity && ltb t.price unit_price then t.price else unit_price)

-- `resolveUnitPrice`.
unfoldable pub resolve_unit_price : Product → Option Variant → ℕ → ℕ
resolve_unit_price p v quantity = best_price quantity (resolve_bulk_tiers p v) (retail_of p v)

abbrev pool : Catalogue → ℕ → ℕ
pool c i = sum_of (λ n. n) (c.hub_stock i)

abbrev variant_stock : Catalogue → ℕ → Option Variant → ℕ
variant_stock c i none = 0
variant_stock c i (some v) =
    if not v.is_active then 0 else if ltb 0 v.stock || not v.in_stock then v.stock else pool c i

-- `getAvailableStock`.
unfoldable pub get_available_stock : Catalogue → ℕ → Option ℕ → ℕ
get_available_stock c i none = pool c i
get_available_stock c i (some j) = variant_stock c i (find? (has_id j) (c.variants i))

abbrev exceeds : Option ℕ → ℕ → Bool
exceeds none n = false
exceeds (some m) n = ltb m n

-- `assertQuantityAllowed`.
unfoldable pub assert_quantity_allowed : ℕ → Product → ℕ → Result CartError (Unit {0})
assert_quantity_allowed n p available =
    if ltb n p.min_order
    then err below_minimum
    else if exceeds p.max_order n
    then err above_maximum
    else if leb available 0
    then err out_of_stock
    else if ltb available n
    then err not_enough
    else ok tt

-- What `calculateLinePricing` and the discount make of a line.
abbrev pub price_line : Product → Option Variant → ℕ → CartItem → CartItem
price_line p v n x =
    let unit = resolve_unit_price p v n in
    record x {
      quantity = n;
      price = unit;
      gst = p.gst;
      subtotal = unit * n;
      bulk_discount = (retail_of p v - unit) * n;
    }

abbrev pub id_of : Option Variant → Option ℕ
id_of none = none
id_of (some v) = some v.id

-- `findCartLine`.
abbrev pub is_line : ℕ → Option ℕ → CartItem → Bool
is_line i v x = x.product_id == i && opt_eq x.variant_id v

abbrev pub quantity_of : Option CartItem → ℕ
quantity_of none = 0
quantity_of (some x) = x.quantity

abbrev pub new_line : ℕ → ℕ → Option ℕ → CartItem
new_line id i v = record {
  id = id;
  product_id = i;
  variant_id = v;
  quantity = 0;
  price = 0;
  gst = 0;
  subtotal = 0;
  bulk_discount = 0;
}

-- `update` of the line that was found, or `create`.
abbrev pub put_line : Product → Option Variant → ℕ → ℕ → Cart → Option CartItem → Cart
put_line p v i n c none = record {
  items = c.items ++ (price_line p v n (new_line c.next_id i (id_of v)) ∷ []);
  next_id = suc c.next_id;
}
put_line p v i n c (some x) = record c {
  items = update_first (is_line i (id_of v)) (price_line p v n) c.items;
}

abbrev pub add_variant :
    Catalogue → ℕ → Option ℕ → ℕ → Cart → Product → Option Variant → Result CartError Cart
add_variant k i j n c p v =
    let existing = find? (is_line i (id_of v)) c.items in
    let quantity = quantity_of existing + n in
    assert_quantity_allowed quantity p (get_available_stock k i j) >>= λ _.
    ok (put_line p v i quantity c existing)

abbrev pub add_product :
    Catalogue → ℕ → Option ℕ → ℕ → Cart → Option Product → Result CartError Cart
add_product k i j n c none = err not_purchasable
add_product k i j n c (some p) =
    resolve_variant (k.variants i) j p.has_variants true >>= add_variant k i j n c p

-- `addItem` of n units of product i, in variant j if the request names one. The stock is that of the
-- variant that the request names.
unfoldable pub add_item : Catalogue → ℕ → Option ℕ → ℕ → Cart → Result CartError Cart
add_item k i j n c = add_product k i j n c (k.product i)

abbrev pub has_item_id : ℕ → CartItem → Bool
has_item_id i x = x.id == i

abbrev pub update_line : ℕ → ℕ → Cart → Product → Option Variant → Cart
update_line id n c p v = record c {
  items = update_first (has_item_id id) (price_line p v n) c.items;
}

abbrev pub update_variant :
    Catalogue → CartItem → ℕ → Cart → Product → Option Variant → Result CartError Cart
update_variant k x n c p v =
    assert_quantity_allowed n p (get_available_stock k x.product_id x.variant_id) >>= λ _.
    ok (update_line x.id n c p v)

abbrev pub update_product : Catalogue → CartItem → ℕ → Cart → Option Product → Result CartError Cart
update_product k x n c none = err not_purchasable
update_product k x n c (some p) =
    resolve_variant (k.variants x.product_id) x.variant_id p.has_variants false
    >>= update_variant k x n c p

abbrev pub update_found : Catalogue → ℕ → Cart → Option CartItem → Result CartError Cart
update_found k n c none = err item_not_found
update_found k n c (some x) = update_product k x n c (k.product x.product_id)

-- `updateItem`.
unfoldable pub update_item : Catalogue → ℕ → ℕ → Cart → Result CartError Cart
update_item k id n c = update_found k n c (find? (has_item_id id) c.items)

-- `removeItem`.
unfoldable pub remove_item : ℕ → Cart → Result CartError Cart
remove_item id c =
    if is_some (find? (has_item_id id) c.items)
    then ok (record c { items = filter_if (λ x. not (has_item_id id x)) c.items })
    else err item_not_found

-- `clearCart`.
abbrev pub clear_cart : Cart → Cart
clear_cart c = record c { items = [] }

-- The tax on a line, rounded half up to a paisa.
abbrev pub gst_amount : CartItem → ℕ
gst_amount x = (x.subtotal * x.gst + 5000) / 10000

pub record CartTotals : Type 0 where
  pub subtotal : ℕ
  pub gst_amount : ℕ
  pub delivery_charge : ℕ
  pub grand_total : ℕ
  pub item_count : ℕ

-- `calculateCartTotals`, of the lines of the cart.
unfoldable pub calculate_cart_totals : List CartItem → CartTotals
calculate_cart_totals items =
    let subtotal = sum_of (λ (x : CartItem). x.subtotal) items in
    let tax = sum_of gst_amount items in
    record {
      subtotal = subtotal;
      gst_amount = tax;
      delivery_charge = 0;
      grand_total = subtotal + tax + 0;
      item_count = length items;
    }
