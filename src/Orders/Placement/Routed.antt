-- ===== src/Orders/Placement/Routed.antt =====
-- That the hub an order is routed to can set its stock aside (`placeOrder` of
-- src/modules/orders/orders.service.ts, after src/modules/coverage/hub-routing.logic.ts).
use mathlib.Core.List.{Memᴰ}
use mathlib.Core.List.Memᴰ.{head, tail}
use vikram_backend.Prelude.{
  ℕ, ◌+◌, ◌≤◌, ◌≡◌, refl, sym, ap, subst, ◌∙◌, Bool, true, false, ◌&&◌, Option, none, some, List,
  [], ◌∷◌, map, ltb, ◌==◌, ==_iff, arith, Bool-cases, inl, inr, if◌then◌else◌, find?, Result, ok,
  ◌>>=◌,
}
use vikram_backend.Coverage.Routing.{StockItem, StockRow, quantity_of}
use vikram_backend.Coverage.Nearest.{HasStock, mem-map_of}
use vikram_backend.Orders.World.{Stock, OrderError}
use vikram_backend.Orders.Effects.{Inventory}
use vikram_backend.Orders.Inventory.{on_shelf}
use vikram_backend.Orders.Placement.{
  CheckoutItem, moved, set_row, reserve_row, reserve_items, to_item,
}
use vikram_backend.Orders.Placement.Reserving.{taken}

-- What all items together ask for of a product is on the hub's shelf.
pub record HasRoom (hub : ℕ) (inv : Inventory) (items : List CheckoutItem) (p : ℕ) : Type 0 where
  pub row : Stock
  pub is_row : inv hub p ≡ some row
  pub enough : taken hub hub p (map to_item items) ≤ row.available

abbrev pub Enough : ℕ → Inventory → List CheckoutItem → Type 0
Enough hub inv items = (x : CheckoutItem) → Memᴰ x items → HasRoom hub inv items x.product_id

at_product : (hub p k : ℕ) (b : Bool) → (p == k) ≡ b → (hub == hub && p == k) ≡ b
at_product hub p k b e = let here : (hub == hub) ≡ true = (==_iff hub hub).1 refl in rw here e

-- What the first item asks for of a product, and the others.
taken-split :
    (hub p : ℕ) (x : CheckoutItem) (xs : List CheckoutItem) (b : Bool)
    → (p == x.product_id) ≡ b
    → taken hub hub p (map to_item (x ∷ xs))
      ≡ (if b then x.quantity else 0) + taken hub hub p (map to_item xs)
taken-split hub p x xs b e =
    ap (λ (c : Bool). (if c then x.quantity else 0) + taken hub hub p (map to_item xs))
      (at_product hub p x.product_id b e)

rest-HasRoom :
    (hub : ℕ) (inv : Inventory) (x : CheckoutItem) (xs : List CheckoutItem) (s : Stock) (p : ℕ)
    → inv hub x.product_id ≡ some s
    → HasRoom hub inv (x ∷ xs) p
    → HasRoom hub (set_row hub x.product_id (moved x.quantity s) inv) xs p
rest-HasRoom hub inv x xs s p e r = elim (Bool-cases (p == x.product_id)) [
  | inr b ↦
      let all = r.enough in
      let split : taken hub hub p (map to_item (x ∷ xs)) ≡ 0 + taken hub hub p (map to_item xs) =
        taken-split hub p x xs false b in
      record {
        row = r.row;
        is_row = rw (at_product hub p x.product_id false b) r.is_row;
        enough = omega arith;
      }
  | inl b ↦
      let same : p ≡ x.product_id = (==_iff p x.product_id).0 b in
      let row : some r.row ≡ some s = sym r.is_row ∙ ap (inv hub) same ∙ e in
      let available : r.row.available ≡ s.available = ap on_shelf row in
      let all = r.enough in
      let split : taken hub hub p (map to_item (x ∷ xs))
          ≡ x.quantity + taken hub hub p (map to_item xs) =
        taken-split hub p x xs true b in
      record {
        row = moved x.quantity s;
        is_row = rw (at_product hub p x.product_id true b) refl;
        enough = omega arith;
      }
]

-- Stock can be set aside when each product of the items is on the shelf as often as all of them together
-- ask for it.
pub reserve_items-of_Enough :
    (hub : ℕ) (items : List CheckoutItem) (inv : Inventory)
    → Enough hub inv items
    → (after : Inventory) × (reserve_items hub items inv ≡ ok after)
unfolding reserve_items
reserve_items-of_Enough hub [] inv h = (inv, refl)
reserve_items-of_Enough hub (x ∷ xs) inv h =
    let r = h x (head refl) in
    let own : taken hub hub x.product_id (map to_item (x ∷ xs))
        ≡ x.quantity + taken hub hub x.product_id (map to_item xs) =
      taken-split hub x.product_id x xs true ((==_iff x.product_id x.product_id).1 refl) in
    let all = r.enough in
    let fits : ltb r.row.available x.quantity ≡ false = ground arith in
    let inv' = set_row hub x.product_id (moved x.quantity r.row) inv in
    let (after, e) =
      reserve_items-of_Enough hub xs inv'
        (λ y m. rest-HasRoom hub inv x xs r.row y.product_id r.is_row (h y (tail m))) in
    let first : reserve_row hub x (inv hub x.product_id) inv ≡ ok inv' =
      ap (λ (o : Option Stock). reserve_row hub x o inv) r.is_row ∙ rw fits refl in
    (after, ap (λ (m : Result OrderError Inventory). m >>= reserve_items hub xs) first ∙ e)

abbrev pub to_stock_item : CheckoutItem → StockItem
to_stock_item x = record { product_id = x.product_id; quantity = x.quantity }

on_shelf-row :
    (o : Option Stock) (n : ℕ)
    → 1 ≤ n
    → n ≤ on_shelf o
    → (s : Stock) × (o ≡ some s) × (n ≤ s.available)
on_shelf-row none n a b = absurd (omega arith)
on_shelf-row (some s) n a b = (s, refl, b)

-- If the routing finds the stock of the items at a hub, by the rows that it read of the inventory, and
-- each product stands in one item only, with a quantity of one at least, then the placing of the order
-- can set the stock aside at that hub, as long as the inventory is as it was read.
pub reserve_items-of_HasStock :
    (hub : ℕ) (items : List CheckoutItem) (inv : Inventory) (rows : List StockRow)
    → ((p : ℕ)
        → quantity_of (find? (λ (r : StockRow). r.product_id == p) rows) ≡ on_shelf (inv hub p))
    → HasStock rows (map to_stock_item items)
    → ((x : CheckoutItem)
        → Memᴰ x items
        → (1 ≤ x.quantity) × (taken hub hub x.product_id (map to_item items) ≡ x.quantity))
    → (after : Inventory) × (reserve_items hub items inv ≡ ok after)
reserve_items-of_HasStock hub items inv rows read stock single =
    reserve_items-of_Enough hub items inv λ x m.
      let (one, own) = single x m in
      let covered = stock (to_stock_item x) (mem-map_of to_stock_item items m) in
      let (s, e, le) =
        on_shelf-row (inv hub x.product_id) x.quantity one
          (subst (λ (n : ℕ). x.quantity ≤ n) (read x.product_id) covered) in
      record { row = s; is_row = e; enough = subst (λ (n : ℕ). n ≤ s.available) (sym own) le }
