-- ===== src/Cart/Prices.antt =====
-- The unit price of a line, and the tax of a cart (`resolveUnitPrice` of src/modules/cart/cart.service.ts,
-- `calculateCartTotals` of src/common/shopping/pricing.util.ts).
use mathlib.Core.List.{Memᴰ}
use mathlib.Core.List.Memᴰ.{head, tail}
use vikram_backend.Prelude.{
  ℕ, ◌+◌, ◌*◌, ◌/◌, ◌≤◌, ◌≡◌, ◌⊎◌, refl, sym, subst, ◌&&◌, Option, List, [], ◌∷◌, ltb, leb, length,
  sum_of, arith, Bool-cases, inl, inr, if◌then◌else◌,
}
use vikram_backend.Cart.{
  BulkTier, Product, Variant, CartItem, retail_of, resolve_bulk_tiers, best_price,
  resolve_unit_price, gst_amount, calculate_cart_totals,
}

-- The least of a price and of the prices of the tiers that a quantity reaches.
pub record IsLeast (quantity : ℕ) (ts : List BulkTier) (start price : ℕ) : Type 0 where
  pub at_most_start : price ≤ start
  pub at_most : (t : BulkTier) → Memᴰ t ts → t.min_qty ≤ quantity → price ≤ t.price
  pub attained :
      (price ≡ start) ⊎ ((t : BulkTier) × Memᴰ t ts × (t.min_qty ≤ quantity) × (price ≡ t.price))

best_price-IsLeast :
    (quantity : ℕ) (ts : List BulkTier) (start : ℕ)
    → IsLeast quantity ts start (best_price quantity ts start)
unfolding best_price
best_price-IsLeast quantity [] start = record {
  at_most_start = omega arith;
  at_most = λ t m. elim m [ ];
  attained = inl refl;
}
best_price-IsLeast quantity (t ∷ ts) start =
    let next = if leb t.min_qty quantity && ltb t.price start then t.price else start in
    let r = best_price-IsLeast quantity ts next in
    let low : best_price quantity ts next ≤ next = r.at_most_start in
    let next_le : next ≤ start = ground arith in
    let next_reached : t.min_qty ≤ quantity → next ≤ t.price = λ h. ground arith in
    record {
      at_most_start = omega arith;
      at_most = λ u m h. elim m [
        | head e ↦
            let reached : t.min_qty ≤ quantity =
              subst (λ (x : BulkTier). x.min_qty ≤ quantity) e h in
            let le : next ≤ t.price = next_reached reached in
            subst (λ (x : BulkTier). best_price quantity ts next ≤ x.price) (sym e) (omega arith)
        | tail k ↦ r.at_most u k h
      ];
      attained = elim r.attained [
        | inr (u, k, h, e) ↦ inr (u, tail k, h, e)
        | inl e ↦ elim (Bool-cases (leb t.min_qty quantity && ltb t.price start)) [
          | inl b ↦ inr (t, head refl, ground arith, ground arith)
          | inr b ↦ inl (ground arith)
        ]
      ];
    }

-- The unit price of a product is the least of its retail price, or that of the variant, and of the prices
-- of the bulk tiers that the quantity reaches, in whatever order the tiers stand.
pub resolve_unit_price-IsLeast :
    (p : Product) (v : Option Variant) (quantity : ℕ)
    → IsLeast quantity (resolve_bulk_tiers p v) (retail_of p v) (resolve_unit_price p v quantity)
unfolding resolve_unit_price
resolve_unit_price-IsLeast p v quantity =
    best_price-IsLeast quantity (resolve_bulk_tiers p v) (retail_of p v)

-- Who buys more of a product does not pay more for a unit.
pub resolve_unit_price_mono :
    (p : Product) (v : Option Variant) (few many : ℕ)
    → few ≤ many
    → resolve_unit_price p v many ≤ resolve_unit_price p v few
resolve_unit_price_mono p v few many le =
    let a = resolve_unit_price-IsLeast p v few in
    let b = resolve_unit_price-IsLeast p v many in
    elim a.attained [
      | inl e ↦ subst (λ (x : ℕ). resolve_unit_price p v many ≤ x) (sym e) b.at_most_start
      | inr (t, m, h, e) ↦
          subst (λ (x : ℕ). resolve_unit_price p v many ≤ x) (sym e) (b.at_most t m (omega arith))
    ]

-- The tax of the lines before it is rounded, in ten-thousandths of a paisa.
abbrev pub exact_tax : List CartItem → ℕ
exact_tax items = sum_of (λ (x : CartItem). x.subtotal * x.gst) items

rounded :
    (n : ℕ) → ((n + 5000) / 10000 * 10000 ≤ n + 5000) × (n ≤ (n + 5000) / 10000 * 10000 + 5000)
rounded n = (omega arith, omega arith)

tax-bounds :
    (items : List CartItem)
    → (sum_of gst_amount items * 10000 ≤ exact_tax items + 5000 * length items)
      × (exact_tax items ≤ sum_of gst_amount items * 10000 + 5000 * length items)
tax-bounds [] = (omega arith, omega arith)
tax-bounds (x ∷ xs) =
    let (a, b) = rounded (x.subtotal * x.gst) in
    let (c, d) = tax-bounds xs in (omega arith, omega arith)

-- The grand total of a cart is its subtotal and its tax, and the tax is off the exact one by half a paisa
-- for each line at most, in either direction.
pub calculate_cart_totals-bounds :
    (items : List CartItem)
    → let t = calculate_cart_totals items in
      (t.grand_total ≡ t.subtotal + t.gst_amount)
      × (t.gst_amount * 10000 ≤ exact_tax items + 5000 * t.item_count)
      × (exact_tax items ≤ t.gst_amount * 10000 + 5000 * t.item_count)
unfolding calculate_cart_totals
calculate_cart_totals-bounds items = (omega arith, (tax-bounds items).0, (tax-bounds items).1)
