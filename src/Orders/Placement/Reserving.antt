-- ===== src/Orders/Placement/Reserving.antt =====
-- The stock that the placing of an order sets aside (`placeOrder` of
-- src/modules/orders/orders.service.ts), and that a cancellation returns.
use vikram_backend.Prelude.{
  ℕ, ◌+◌, ◌-◌, ◌≤◌, ◌≡◌, refl, sym, ap, subst, ◌∙◌, true, ◌&&◌, Option, none, some, List, [], ◌∷◌,
  map, leb, ltb, ◌==◌, arith, Bool-cases, Option-cases, inl, inr, sum_of, Result, ok, err, ◌>>=◌,
  if◌then◌else◌,
}
use vikram_backend.Orders.World.{OrderItem, Stock}
use vikram_backend.Orders.Effects.{Inventory, returned, change_stock, change_items}
use vikram_backend.Orders.Placement.{
  CheckoutItem, moved, set_row, reserve_row, reserve_items, to_item,
}
use vikram_backend.Orders.Inventory.{units}

-- What the items take of a product at a hub.
abbrev pub taken : ℕ → ℕ → ℕ → List OrderItem → ℕ
taken hub h p items =
    sum_of (λ (x : OrderItem). if h == hub && p == x.product_id then x.quantity else 0) items

-- A row of the inventory before and after q units of it were set aside.
abbrev pub Moved : ℕ → Option Stock → Option Stock → Type 0
Moved q none r = (r ≡ none) × (q ≡ 0)
Moved q (some s) r = (r ≡ some (moved q s)) × (q ≤ s.available)

moved-zero : (s : Stock) → moved 0 s ≡ s
moved-zero s = ground arith

moved-moved : (a b : ℕ) (s : Stock) → moved b (moved a s) ≡ moved (a + b) s
moved-moved a b s =
    let x : s.available - a - b ≡ s.available - (a + b) = omega arith in
    let y : s.reserved + a + b ≡ s.reserved + (a + b) = omega arith in rw (x, y) refl

pub Moved-refl : (r : Option Stock) → Moved 0 r r
Moved-refl none = (refl, refl)
Moved-refl (some s) = (ap some (sym (moved-zero s)), omega arith)

Moved-trans :
    (a b : ℕ) (r r' r'' : Option Stock) → Moved a r r' → Moved b r' r'' → Moved (a + b) r r''
Moved-trans a b none none r'' (e, x) (f, y) = (f, omega arith)
Moved-trans a b none (some s) r'' (e, x) m = cc
Moved-trans a b (some s) none r'' (e, x) m = cc
Moved-trans a b (some s) (some t) r'' (e, x) m =
    let (f, y) = subst (λ (o : Option Stock). Moved b o r'') e m in
    (f ∙ ap some (moved-moved a b s), omega arith)

pub Moved-units : (q : ℕ) (r r' : Option Stock) → Moved q r r' → units r' ≡ units r
Moved-units q none r' (e, x) = rw e refl
Moved-units q (some s) r' (e, x) = rw e (omega arith)

pub err_not_ok {ℓ} :
    {E : Type 0} {A : Type ℓ} {e : E} {a : A} → Path (Result E A) (err e) (ok a) → ⊥
err_not_ok h = cc

back_again : (q : ℕ) (s : Stock) → q ≤ s.available → returned q (moved q s) ≡ s
back_again q s le =
    let x : s.available - q + q ≡ s.available = omega arith in
    let y : s.reserved + q - q ≡ s.reserved = omega arith in rw (x, y) refl

pub bind-ok {ℓ κ} :
    {E : Type 0} {A : Type ℓ} {B : Type κ} (m : Result E A) (f : A → Result E B) {b : B}
    → (m >>= f) ≡ ok b
    → (a : A) × (m ≡ ok a) × (f a ≡ ok b)
bind-ok (ok a) f h = (a, refl, h)
bind-ok (err e) f h = cc

abbrev value_or {ℓ} : {E : Type 0} {A : Type ℓ} → A → Result E A → A
value_or d (ok a) = a
value_or d (err e) = d

pub ok-injective {ℓ} : {E : Type 0} {A : Type ℓ} (a b : A) → Path (Result E A) (ok a) (ok b) → a ≡ b
ok-injective a b h = ap (value_or a) h

set_row-Moved :
    (hub h p k q : ℕ) (s : Stock) (inv : Inventory)
    → inv hub k ≡ some s
    → q ≤ s.available
    → Moved (if h == hub && p == k then q else 0) (inv h p) (set_row hub k (moved q s) inv h p)
set_row-Moved hub h p k q s inv e le = elim (Bool-cases (h == hub && p == k)) [
  | inr b ↦ rw b (Moved-refl (inv h p))
  | inl b ↦
      let x : h ≡ hub = ground arith in
      let y : p ≡ k = ground arith in
      let here : inv h p ≡ some s = rw (x, y) e in rw (b, here) (refl, le)
]

reserve_row-Moved :
    (hub h p : ℕ) (x : CheckoutItem) (r : Option Stock) (inv inv' : Inventory)
    → inv hub x.product_id ≡ r
    → reserve_row hub x r inv ≡ ok inv'
    → Moved (if h == hub && p == x.product_id then x.quantity else 0) (inv h p) (inv' h p)
reserve_row-Moved hub h p x none inv inv' e k = cc
reserve_row-Moved hub h p x (some s) inv inv' e k = elim (Bool-cases (ltb s.available x.quantity)) [
  | inl b ↦ absurd (err_not_ok (rw b at k))
  | inr b ↦
      subst
        (λ (t : Inventory).
          Moved (if h == hub && p == x.product_id then x.quantity else 0) (inv h p) (t h p))
        (ok-injective (set_row hub x.product_id (moved x.quantity s) inv) inv' (rw b at k))
        (set_row-Moved hub h p x.product_id x.quantity s inv e (ground arith))
]

pub reserve_items-Moved :
    (hub h p : ℕ) (items : List CheckoutItem) (inv inv' : Inventory)
    → reserve_items hub items inv ≡ ok inv'
    → Moved (taken hub h p (map to_item items)) (inv h p) (inv' h p)
unfolding reserve_items
reserve_items-Moved hub h p [] inv inv' e =
    subst (λ (t : Inventory). Moved 0 (inv h p) (t h p)) (ok-injective inv inv' e)
      (Moved-refl (inv h p))
reserve_items-Moved hub h p (x ∷ xs) inv inv' e =
    let (u, first, rest) =
      bind-ok (reserve_row hub x (inv hub x.product_id) inv) (reserve_items hub xs) e in
    Moved-trans (if h == hub && p == x.product_id then x.quantity else 0)
      (taken hub h p (map to_item xs)) (inv h p) (u h p) (inv' h p)
      (reserve_row-Moved hub h p x (inv hub x.product_id) inv u refl first)
      (reserve_items-Moved hub h p xs u inv' rest)

returned-returned : (a b : ℕ) (s : Stock) → returned b (returned a s) ≡ returned (a + b) s
returned-returned a b s =
    let x : s.available + a + b ≡ s.available + (a + b) = omega arith in
    let y : s.reserved - a - b ≡ s.reserved - (a + b) = omega arith in rw (x, y) refl

returned-zero : (s : Stock) → returned 0 s ≡ s
returned-zero s = ground arith

-- A row that has set aside enough gets everything back on the shelf.
change_items-returned :
    (hub h p : ℕ) (items : List OrderItem) (inv : Inventory) (s : Stock)
    → inv h p ≡ some s
    → taken hub h p items ≤ s.reserved
    → change_items returned hub items inv h p ≡ some (returned (taken hub h p items) s)
change_items-returned hub h p [] inv s e le = e ∙ ap some (sym (returned-zero s))
change_items-returned hub h p (x ∷ xs) inv s e le =
    let q = if h == hub && p == x.product_id then x.quantity else 0 in
    let row : change_stock returned hub x inv h p ≡ some (returned q s) =
      elim (Bool-cases (h == hub && p == x.product_id)) [
        | inl b ↦
            let enough : leb x.quantity s.reserved ≡ true = ground arith in rw (b, e, enough) refl
        | inr b ↦ rw (b, e) (ap some (sym (returned-zero s)))
      ] in
    change_items-returned hub h p xs (change_stock returned hub x inv) (returned q s) row
      (ground arith)
    ∙ ap some (returned-returned q (taken hub h p xs) s)

change_items-none :
    (hub h p : ℕ) (items : List OrderItem) (inv : Inventory)
    → inv h p ≡ none
    → change_items returned hub items inv h p ≡ none
change_items-none hub h p [] inv e = e
change_items-none hub h p (x ∷ xs) inv e =
    let row : change_stock returned hub x inv h p ≡ none =
      elim (Bool-cases (h == hub && p == x.product_id)) [
        | inl b ↦ rw (b, e) refl
        | inr b ↦ rw (b, e) refl
      ] in
    change_items-none hub h p xs (change_stock returned hub x inv) row

-- What was set aside and is returned is as it was.
pub Moved-returned :
    (hub h p : ℕ) (items : List OrderItem) (inv inv' : Inventory)
    → Moved (taken hub h p items) (inv h p) (inv' h p)
    → change_items returned hub items inv' h p ≡ inv h p
Moved-returned hub h p items inv inv' m = elim (Option-cases (inv h p)) [
  | inl e ↦ let (k, x) = rw e at m in change_items-none hub h p items inv' k ∙ sym e
  | inr (s, e) ↦
      let (k, le) = rw e at m in
      let q = taken hub h p items in
      let back : returned q (moved q s) ≡ s = back_again q s le in
      change_items-returned hub h p items inv' (moved q s) k (omega arith) ∙ ap some back ∙ sym e
]

pub Moved-zero : (r r' : Option Stock) → Moved 0 r r' → r' ≡ r
Moved-zero none r' (e, x) = e
Moved-zero (some s) r' (e, x) = e ∙ ap some (moved-zero s)
