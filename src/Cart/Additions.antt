-- ===== src/Cart/Additions.antt =====
-- What an addition to a cart leaves (`addItem` of src/modules/cart/cart.service.ts).
use vikram_backend.Prelude.{
  ==_iff, ℕ, ◌+◌, ◌≤◌, ◌≡◌, refl, sym, subst, Bool, true, Option, none, some, List, [], ◌∷◌, ◌++◌,
  ◌==◌, opt_eq, arith, Option-cases, inl, inr, find?, find?-holds, ok,
}
use vikram_backend.Prelude.Rows.{find?-update_first}
use vikram_backend.Orders.Placement.Reserving.{bind-ok, ok-injective, err_not_ok}
use vikram_backend.Cart.{
  Product, Variant, Catalogue, CartItem, Cart, resolve_variant, price_line, is_line, id_of,
  quantity_of, put_line, new_line, assert_quantity_allowed, get_available_stock, resolve_unit_price,
  add_variant, add_product, add_item,
}

-- A product in a variant that an addition leaves in the cart: one line, at the unit price of the new
-- quantity, which is within the limits of the product and the stock.
pub record IsAdded (k : Catalogue) (i : ℕ) (j : Option ℕ) (n : ℕ) (c d : Cart) : Type 0 where
  pub product : Product
  pub variant : Option Variant
  pub line : CartItem
  pub is_product : k.product i ≡ some product
  pub is_variant : resolve_variant (k.variants i) j product.has_variants true ≡ ok variant
  pub found : find? (is_line i (id_of variant)) d.items ≡ some line
  pub quantity : line.quantity ≡ quantity_of (find? (is_line i (id_of variant)) c.items) + n
  pub price : line.price ≡ resolve_unit_price product variant line.quantity
  pub least : product.min_order ≤ line.quantity
  pub stocked : line.quantity ≤ get_available_stock k i j

allowed :
    (n available : ℕ) (p : Product)
    → assert_quantity_allowed n p available ≡ ok tt
    → (p.min_order ≤ n) × (n ≤ available)
unfolding assert_quantity_allowed
allowed n available p e = ground arith

opt_eq_self : (a : Option ℕ) → opt_eq a a ≡ true
opt_eq_self none = refl
opt_eq_self (some a) = (==_iff a a).1 refl

find?-last :
    (q : CartItem → Bool) (xs : List CartItem) (x : CartItem)
    → find? q xs ≡ none
    → q x ≡ true
    → find? q (xs ++ (x ∷ [])) ≡ some x
find?-last q [] x e h = rw h refl
find?-last q (y ∷ ys) x e h = ground (arith, find?-last q ys x)

put_line-found :
    (p : Product) (v : Option Variant) (i n : ℕ) (c : Cart)
    → (x : CartItem) × (find?
          (is_line i (id_of v))
          (put_line p v i n c (find? (is_line i (id_of v)) c.items)).items
        ≡ some x)
      × (x.quantity ≡ n)
      × (x.price ≡ resolve_unit_price p v n)
put_line-found p v i n c = elim (Option-cases (find? (is_line i (id_of v)) c.items)) [
  | inr (x, e) ↦ (
    price_line p v n x,
    rw e (
        find?-update_first (is_line i (id_of v)) (is_line i (id_of v)) (price_line p v n) c.items x
          e (find?-holds (is_line i (id_of v)) c.items e)),
    refl,
    refl,
  )
  | inl e ↦
      let new = price_line p v n (new_line c.next_id i (id_of v)) in
      let same : (i == i) ≡ true = (==_iff i i).1 refl in
      (
        new,
        rw e (
            find?-last (is_line i (id_of v)) c.items new e (rw (same, opt_eq_self (id_of v)) refl)),
        refl,
        refl,
      )
]

-- An addition to a cart that succeeds leaves a line of the product, in the variant asked for or chosen,
-- with the units that were there and the new ones, at the unit price of that quantity; it is not less
-- than the least order of the product, and not more than the stock that the request sees.
pub add_item-IsAdded :
    (k : Catalogue) (i : ℕ) (j : Option ℕ) (n : ℕ) (c d : Cart)
    → add_item k i j n c ≡ ok d
    → IsAdded k i j n c d
unfolding add_item
add_item-IsAdded k i j n c d e = elim (Option-cases (k.product i)) [
  | inl m ↦ absurd (err_not_ok (rw (m, add_product) at e))
  | inr (p, m) ↦
      let (v, x, y) =
        bind-ok (resolve_variant (k.variants i) j p.has_variants true) (add_variant k i j n c p)
          (rw (m, add_product) at e) in
      let existing = find? (is_line i (id_of v)) c.items in
      let total = quantity_of existing + n in
      let (a, z, u) =
        bind-ok (assert_quantity_allowed total p (get_available_stock k i j))
          (λ (_ : Unit {0}). ok (put_line p v i total c existing)) y in
      let same : put_line p v i total c existing ≡ d =
        ok-injective (put_line p v i total c existing) d u in
      let (l, f, q, r) = put_line-found p v i total c in
      let (low, high) = allowed total (get_available_stock k i j) p z in
      record {
        product = p;
        variant = v;
        line = l;
        is_product = m;
        is_variant = x;
        found = subst (λ (t : Cart). find? (is_line i (id_of v)) t.items ≡ some l) same f;
        quantity = q;
        price = subst (λ (t : ℕ). l.price ≡ resolve_unit_price p v t) (sym q) r;
        least = subst (λ (t : ℕ). p.min_order ≤ t) (sym q) low;
        stocked = subst (λ (t : ℕ). t ≤ get_available_stock k i j) (sym q) high;
      }
]
