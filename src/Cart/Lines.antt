-- ===== src/Cart/Lines.antt =====
-- What the operations on a cart keep (`addItem`, `updateItem`, `removeItem`, `clearCart` of
-- src/modules/cart/cart.service.ts).
use vikram_backend.Prelude.{
  ==_iff, ℕ, ◌+◌, ◌*◌, ◌≤◌, ◌≡◌, refl, sym, ap, subst, Bool, true, false, not, Option, none, some,
  List, [], ◌∷◌, ◌++◌, opt_eq, arith, Bool-cases, Option-cases, inl, inr, is_some, find?, filter_if,
  count_if, count_if-append, All, All-append, update_first, ok,
}
use vikram_backend.Prelude.Rows.{count_if-update_first, All-update_first}
use vikram_backend.Orders.Placement.Reserving.{bind-ok, ok-injective, err_not_ok}
use vikram_backend.Cart.{
  update_variant, Product, Variant, Catalogue, CartItem, Cart, resolve_variant, price_line, is_line,
  id_of, quantity_of, put_line, new_line, assert_quantity_allowed, get_available_stock, add_variant,
  add_product, add_item, has_item_id, update_line, update_product, update_found, update_item,
  remove_item, clear_cart,
}

-- A line's subtotal is that of its price, and never more than one line is about a product in a variant.
abbrev IsPriced : CartItem → Type 0
IsPriced x = x.subtotal ≡ x.price * x.quantity

pub record IsValid (c : Cart) : Type 0 where
  pub priced : All IsPriced c.items
  pub single : (i : ℕ) (v : Option ℕ) → count_if (is_line i v) c.items ≤ 1

empty-IsValid : (c : Cart) → IsValid (clear_cart c)
empty-IsValid c = record { priced = tt; single = λ i v. omega arith }

update-IsValid :
    (p : Product) (v : Option Variant) (n : ℕ) (q : CartItem → Bool) (c : Cart)
    → IsValid c
    → IsValid (record c { items = update_first q (price_line p v n) c.items })
update-IsValid p v n q c h = record {
  priced = All-update_first IsPriced q (price_line p v n) c.items (λ x. refl) h.priced;
  single = λ i w.
      subst (λ (m : ℕ). m ≤ 1)
        (sym (count_if-update_first q (is_line i w) (price_line p v n) c.items (λ x e. refl)))
        (h.single i w);
}

opt_eq-same : (a b : Option ℕ) → opt_eq a b ≡ true → a ≡ b
opt_eq-same none none h = refl
opt_eq-same none (some b) h = cc
opt_eq-same (some a) none h = cc
opt_eq-same (some a) (some b) h = ap some ((==_iff a b).0 h)

count-none : (q : CartItem → Bool) (xs : List CartItem) → find? q xs ≡ none → count_if q xs ≡ 0
count-none q [] h = refl
count-none q (x ∷ xs) h = ground (arith, count-none q xs)

appended-single :
    (p : Product) (v : Option Variant) (i n : ℕ) (c : Cart) (j : ℕ) (w : Option ℕ)
    → find? (is_line i (id_of v)) c.items ≡ none
    → IsValid c
    → count_if (is_line j w) (c.items ++ (price_line p v n (new_line c.next_id i (id_of v)) ∷ []))
      ≤ 1
appended-single p v i n c j w e h =
    let new = price_line p v n (new_line c.next_id i (id_of v)) in
    let split = count_if-append (is_line j w) c.items (new ∷ []) in
    let before = h.single j w in
    elim (Bool-cases (is_line j w new)) [
      | inr b ↦ let last : count_if (is_line j w) (new ∷ []) ≡ 0 = rw b refl in omega arith
      | inl b ↦
          let last : count_if (is_line j w) (new ∷ []) ≡ 1 = rw b refl in
          let x : i ≡ j = ground arith in
          let y : id_of v ≡ w = opt_eq-same (id_of v) w (ground arith) in
          let zero_before : count_if (is_line j w) c.items ≡ 0 = count-none (is_line j w) c.items (
            subst (λ (u : Option ℕ). find? (is_line j u) c.items ≡ none) y
              (subst (λ (u : ℕ). find? (is_line u (id_of v)) c.items ≡ none) x e)) in
          omega arith
    ]

put_line-IsValid :
    (p : Product) (v : Option Variant) (i n : ℕ) (c : Cart)
    → IsValid c
    → IsValid (put_line p v i n c (find? (is_line i (id_of v)) c.items))
put_line-IsValid p v i n c h = elim (Option-cases (find? (is_line i (id_of v)) c.items)) [
  | inr (x, e) ↦ rw e (update-IsValid p v n (is_line i (id_of v)) c h)
  | inl e ↦ rw e (record {
    priced = All-append IsPriced c.items _ h.priced (refl, tt);
    single = λ j w. appended-single p v i n c j w e h;
  })
]

filter-IsPriced :
    (q : CartItem → Bool) (xs : List CartItem) → All IsPriced xs → All IsPriced (filter_if q xs)
filter-IsPriced q [] h = tt
filter-IsPriced q (x ∷ xs) h = ground (arith, filter-IsPriced q xs h.1)

filter-count :
    (q r : CartItem → Bool) (xs : List CartItem) → count_if r (filter_if q xs) ≤ count_if r xs
filter-count q r [] = omega arith
filter-count q r (x ∷ xs) = ground (arith, filter-count q r xs)

remove_item-IsValid : (id : ℕ) (c d : Cart) → IsValid c → remove_item id c ≡ ok d → IsValid d
unfolding remove_item
remove_item-IsValid id c d h e = elim (Bool-cases (is_some (find? (has_item_id id) c.items))) [
  | inr b ↦ absurd (err_not_ok (rw b at e))
  | inl b ↦
      let left : Cart = record c { items = filter_if (λ x. not (has_item_id id x)) c.items } in
      subst IsValid (ok-injective left d (rw b at e)) (record {
        priced = filter-IsPriced (λ x. not (has_item_id id x)) c.items h.priced;
        single = λ i v.
            let fewer = filter-count (λ x. not (has_item_id id x)) (is_line i v) c.items in
            let one = h.single i v in omega arith;
      })
]

add_variant-IsValid :
    (k : Catalogue) (i : ℕ) (j : Option ℕ) (n : ℕ) (c d : Cart) (p : Product) (v : Option Variant)
    → IsValid c
    → add_variant k i j n c p v ≡ ok d
    → IsValid d
add_variant-IsValid k i j n c d p v h e =
    let existing = find? (is_line i (id_of v)) c.items in
    let total = quantity_of existing + n in
    let (a, x, y) =
      bind-ok (assert_quantity_allowed total p (get_available_stock k i j))
        (λ (_ : Unit {0}). ok (put_line p v i total c existing)) e in
    subst IsValid (ok-injective (put_line p v i total c existing) d y)
      (put_line-IsValid p v i total c h)

add_item-IsValid :
    (k : Catalogue) (i : ℕ) (j : Option ℕ) (n : ℕ) (c d : Cart)
    → IsValid c
    → add_item k i j n c ≡ ok d
    → IsValid d
unfolding add_item
add_item-IsValid k i j n c d h e = elim (Option-cases (k.product i)) [
  | inl m ↦ absurd (err_not_ok (rw (m, add_product) at e))
  | inr (p, m) ↦
      let (v, x, y) =
        bind-ok (resolve_variant (k.variants i) j p.has_variants true) (add_variant k i j n c p)
          (rw (m, add_product) at e) in
      add_variant-IsValid k i j n c d p v h y
]

update_product-IsValid :
    (k : Catalogue) (x : CartItem) (n : ℕ) (c d : Cart) (r : Option Product)
    → IsValid c
    → update_product k x n c r ≡ ok d
    → IsValid d
update_product-IsValid k x n c d none h e = cc
update_product-IsValid k x n c d (some p) h e =
    let (v, y, z) =
      bind-ok (resolve_variant (k.variants x.product_id) x.variant_id p.has_variants false)
        (update_variant k x n c p) e in
    let (a, t, u) =
      bind-ok (assert_quantity_allowed n p (get_available_stock k x.product_id x.variant_id))
        (λ (_ : Unit {0}). ok (update_line x.id n c p v)) z in
    subst IsValid (ok-injective (update_line x.id n c p v) d u)
      (update-IsValid p v n (has_item_id x.id) c h)

update_item-IsValid :
    (k : Catalogue) (id n : ℕ) (c d : Cart) → IsValid c → update_item k id n c ≡ ok d → IsValid d
unfolding update_item
update_item-IsValid k id n c d h e = elim (Option-cases (find? (has_item_id id) c.items)) [
  | inl m ↦ absurd (err_not_ok (rw (m, update_found) at e))
  | inr (x, m) ↦
      update_product-IsValid k x n c d (k.product x.product_id) h (rw (m, update_found) at e)
]

-- The carts that a customer can come to, over any catalogues.
pub data Reach : Cart → Type 0 where
  empty : (id : ℕ) → Reach (record { items = []; next_id = id })
  added :
      {c d : Cart} (k : Catalogue) (i : ℕ) (j : Option ℕ) (n : ℕ)
      → Reach c
      → add_item k i j n c ≡ ok d
      → Reach d
  updated :
      {c d : Cart} (k : Catalogue) (id n : ℕ) → Reach c → update_item k id n c ≡ ok d → Reach d
  removed : {c d : Cart} (id : ℕ) → Reach c → remove_item id c ≡ ok d → Reach d
  cleared : {c : Cart} → Reach c → Reach (clear_cart c)

-- In every cart that a customer can come to by additions, updates, removals and clearing, while the
-- catalogue changes in whatever way, the subtotal of each line is its quantity at its price, and at most
-- one line is about a product in a variant.
pub cart-IsValid : {c : Cart} → Reach c → IsValid c
cart-IsValid (empty id) = record { priced = tt; single = λ i v. omega arith }
cart-IsValid (added {c = c} {d = d} k i j n r e) = add_item-IsValid k i j n c d (cart-IsValid r) e
cart-IsValid (updated {c = c} {d = d} k id n r e) =
    update_item-IsValid k id n c d (cart-IsValid r) e
cart-IsValid (removed {c = c} {d = d} id r e) = remove_item-IsValid id c d (cart-IsValid r) e
cart-IsValid (cleared {c = c} r) = empty-IsValid c
