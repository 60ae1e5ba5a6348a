-- ===== src/Orders/Placement/Placed.antt =====
-- What the placing of an order leaves (`placeOrder` of src/modules/orders/orders.service.ts), and what its
-- cancellation by the customer takes back (`cancel`).
use Prim.Native.String.{String}
use vikram_backend.Prelude.{
  [], ◌∷◌, ◌++◌, ℕ, ◌≡◌, refl, sym, ap, subst, ◌∙◌, Bool, true, false, ◌&&◌, ◌||◌, Option, none,
  some, List, map, arith, Bool-cases, inl, inr, Result, ok, err, ltb, if◌then◌else◌,
}
use vikram_backend.Prelude.Handlers.{continue}
use vikram_backend.Loyalty.Ledger.{Ledger, LoyaltyError}
use vikram_backend.Loyalty.Orders.{commit_redemption_for_placed_order}
use vikram_backend.Delivery.Slots.Store.{Db, Reservation}
use vikram_backend.Delivery.Slots.Ops.{SlotError, confirm_reservation}
use vikram_backend.Delivery.Benefit.{BenefitConfig, Benefits, Consumed, consume_free_bike_delivery}
use vikram_backend.Orders.Status.{OrderStatus, includes, cancellable_statuses}
use vikram_backend.Orders.World.{
  World, Order, OrderItem, OrderError, is_razorpay, to_loyalty, add_timeline, update_order,
  find_live,
}
use vikram_backend.Orders.Effects.{
  Inventory, release_reserved_stock, restore_benefit, release_slot, refund_redemption,
}
use vikram_backend.Orders.Customer.{customer_cancel, owned, release_at}
use vikram_backend.Orders.Outcomes.{refund_redemption-inventory, restore_benefit-inventory}
use vikram_backend.Orders.Shop.{Shop, set_at, is_key_taken}
use vikram_backend.Orders.Placement.{
  Checkout, Prepared, Request, to_item, new_order, created, final_status, reserve_items,
  reserve_stock, with_inventory, take_variants, take_variant_stock, create_order, kept_slot,
  confirm_slot, clear_cart, kept_ledger, commit_points, kept_benefits, consume_benefit, place_rest,
  place_in_transaction,
}
use vikram_backend.Orders.Placement.Reserving.{
  taken, Moved, Moved-refl, bind-ok, ok-injective, err_not_ok, reserve_items-Moved, Moved-returned,
  Moved-zero,
}

-- The orders, their keys, and the stock.
pub record Core : Type 0 where
  pub order : ℕ → Option Order
  pub order_ids : List ℕ
  pub idempotency_key : ℕ → Option String
  pub inventory : Inventory

abbrev pub core : Shop → Core
core s = record {
  order = s.world.order;
  order_ids = s.world.order_ids;
  idempotency_key = s.idempotency_key;
  inventory = s.world.inventory;
}

-- A step from s that leaves the orders, their keys and the stock.
abbrev Keeps : Shop → Result OrderError Shop → Type 0
Keeps s m = (t : Shop) → m ≡ ok t → core t ≡ core s

ok-Keeps : (s u : Shop) → core u ≡ core s → Keeps s (ok u)
ok-Keeps s u e t h = ap core (sym (ok-injective u t h)) ∙ e

take_variant_stock-Keeps :
    (p : Prepared) (s : Shop) → Keeps s (take_variant_stock p.checkout.items s)
unfolding take_variant_stock
take_variant_stock-Keeps p s t h =
    let (v, a, b) =
      bind-ok (take_variants p.checkout.items s.variant) (λ v. ok (record s { variant = v })) h in
    ok-Keeps s (record s { variant = v }) refl t b

kept_slot-Keeps : (s : Shop) (r : Db × Result SlotError Reservation) → Keeps s (kept_slot s r)
kept_slot-Keeps s (db, ok x) = ok-Keeps s (record s { world = record s.world { slots = db } }) refl
kept_slot-Keeps s (db, err e) = λ t h. cc

confirm_slot-Keeps :
    (now customer i : ℕ) (slot : Option ℕ) (s : Shop) → Keeps s (confirm_slot now customer i slot s)
unfolding confirm_slot
confirm_slot-Keeps now customer i none s = ok-Keeps s s refl
confirm_slot-Keeps now customer i (some k) s =
    kept_slot-Keeps s (confirm_reservation now customer i k s.world.slots)

kept_ledger-Keeps :
    (customer : ℕ) (s : Shop) (r : Result LoyaltyError Ledger) → Keeps s (kept_ledger customer s r)
kept_ledger-Keeps customer s (ok l) = ok-Keeps s _ refl
kept_ledger-Keeps customer s (err e) = λ t h. cc

kept_benefits-Keeps :
    (customer : ℕ) (s : Shop) (r : Benefits × Option Consumed)
    → Keeps s (kept_benefits customer s r)
kept_benefits-Keeps customer s (b, none) = λ t h. cc
kept_benefits-Keeps customer s (b, some x) = ok-Keeps s _ refl

if-Keeps :
    (b : Bool) (s : Shop) (m : Result OrderError Shop) → Keeps s m → Keeps s (if b then m else ok s)
if-Keeps true s m h = h
if-Keeps false s m h = ok-Keeps s s refl

commit_points-Keeps :
    (now customer i : ℕ) (r : Request) (p : Prepared) (s : Shop)
    → Keeps s (commit_points now customer i r p s)
unfolding commit_points
commit_points-Keeps now customer i r p s = if-Keeps (ltb 0 p.checkout.loyalty_used) s _ (
    kept_ledger-Keeps customer s (
      commit_redemption_for_placed_order now (to_loyalty i (new_order customer r p))
        p.checkout.loyalty_used (s.world.ledger customer)))

consume_benefit-Keeps :
    (c : BenefitConfig) (customer i : ℕ) (k : Checkout) (s : Shop)
    → Keeps s (consume_benefit c customer i k s)
unfolding consume_benefit
consume_benefit-Keeps c customer i k s =
    if-Keeps
      ((k.free_delivery_applied || k.bike_delivery_free)
        && ltb 0 k.company_absorbed_delivery
        && k.is_bike)
      s _
      (kept_benefits-Keeps customer s (consume_free_bike_delivery c i (s.world.benefits customer)))

clear_cart-Keeps : (customer : ℕ) (s : Shop) → Keeps s (clear_cart customer s)
unfolding clear_cart
clear_cart-Keeps customer s = ok-Keeps s _ refl

created-core :
    (customer i : ℕ) (r : Request) (p : Prepared) (s t : Shop)
    → core s ≡ core t
    → core (created customer i r p s) ≡ core (created customer i r p t)
created-core customer i r p s t e =
    ap
      (λ (k : Core). record k {
        order = set_at i (some (new_order customer r p)) k.order;
        order_ids = k.order_ids ++ (i ∷ []);
        idempotency_key = set_at i r.idempotency_key k.idempotency_key;
      })
      e

create_order-created :
    (customer i : ℕ) (r : Request) (p : Prepared) (s t : Shop)
    → create_order customer i r p s ≡ ok t
    → core t ≡ core (created customer i r p s)
unfolding create_order
create_order-created customer i r p s t h =
    elim (Bool-cases (is_key_taken customer r.idempotency_key s)) [
      | inl b ↦ absurd (err_not_ok (rw b at h))
      | inr b ↦ ap core (sym (ok-injective (created customer i r p s) t (rw b at h)))
    ]

-- What the transaction leaves of the orders, their keys and the stock, which it sets aside first.
pub place_rest-core :
    (now : ℕ) (c : BenefitConfig) (customer i : ℕ) (r : Request) (p : Prepared) (s t : Shop)
    → place_rest now c customer i r p s ≡ ok t
    → core t ≡ core (created customer i r p s)
unfolding place_rest
place_rest-core now c customer i r p s t h =
    let (d, h1, e1) = bind-ok _ (consume_benefit c customer i p.checkout) h in
    let (d2, h2, e2) = bind-ok _ (commit_points now customer i r p) h1 in
    let (d3, h3, e3) = bind-ok _ (clear_cart customer) h2 in
    let (d4, h4, e4) = bind-ok _ (confirm_slot now customer i p.slot) h3 in
    let (u, a, b) =
      bind-ok (take_variant_stock p.checkout.items s) (create_order customer i r p) h4 in
    consume_benefit-Keeps c customer i p.checkout d t e1
    ∙ commit_points-Keeps now customer i r p d2 d e2
    ∙ clear_cart-Keeps customer d3 d2 e3
    ∙ confirm_slot-Keeps now customer i p.slot d4 d3 e4
    ∙ create_order-created customer i r p u d4 b
    ∙ created-core customer i r p u s (take_variant_stock-Keeps p s u a)

-- What the order takes of a product at a hub: nothing, when it is routed to none.
abbrev pub taken_by : Option ℕ → ℕ → ℕ → List OrderItem → ℕ
taken_by none h k items = 0
taken_by (some hub) h k items = taken hub h k items

reserve_stock-Moved :
    (hub : Option ℕ) (p : Checkout) (s t : Shop) (h k : ℕ)
    → reserve_stock hub p.items s ≡ ok t
    → Moved (taken_by hub h k (map to_item p.items)) (s.world.inventory h k) (t.world.inventory h k)
unfolding reserve_stock
reserve_stock-Moved none p s t h k e =
    subst (λ (u : Shop). Moved 0 (s.world.inventory h k) (u.world.inventory h k))
      (ok-injective s t e) (Moved-refl (s.world.inventory h k))
reserve_stock-Moved (some hub) p s t h k e =
    let (inv, a, b) =
      bind-ok (reserve_items hub p.items s.world.inventory) (λ inv. ok (with_inventory s inv)) e in
    subst
      (λ (u : Shop).
        Moved (taken hub h k (map to_item p.items)) (s.world.inventory h k) (u.world.inventory h k))
      (ok-injective (with_inventory s inv) t b)
      (reserve_items-Moved hub h k p.items s.world.inventory inv a)

-- When an order is placed, each row of the stock of the hub that it is routed to had as many units on
-- the shelf as the order's items ask for of its product, and exactly these are now set aside; all
-- other rows, and all rows when the order is routed to no hub, are as they were.
pub place_in_transaction-Moved :
    (now : ℕ) (c : BenefitConfig) (customer i : ℕ) (r : Request) (p : Prepared) (s t : Shop)
    (h k : ℕ)
    → place_in_transaction now c customer i r p s ≡ ok t
    → Moved
        (taken_by p.assignable_hub h k (map to_item p.checkout.items))
        (s.world.inventory h k)
        (t.world.inventory h k)
unfolding place_in_transaction
place_in_transaction-Moved now c customer i r p s t h k e =
    let (u, a, b) =
      bind-ok (reserve_stock p.assignable_hub p.checkout.items s) (place_rest now c customer i r p)
        e in
    subst
      (λ (v : Inventory).
        Moved (taken_by p.assignable_hub h k (map to_item p.checkout.items)) (s.world.inventory h k)
          (v h k))
      (sym (ap (λ (x : Core). x.inventory) (place_rest-core now c customer i r p u t b)))
      (reserve_stock-Moved p.assignable_hub p.checkout s u h k a)

-- The order that the transaction leaves.
place_in_transaction-order :
    (now : ℕ) (c : BenefitConfig) (customer i : ℕ) (r : Request) (p : Prepared) (s t : Shop)
    → place_in_transaction now c customer i r p s ≡ ok t
    → t.world.order i ≡ some (new_order customer r p)
unfolding place_in_transaction
place_in_transaction-order now c customer i r p s t e =
    let (u, a, b) =
      bind-ok (reserve_stock p.assignable_hub p.checkout.items s) (place_rest now c customer i r p)
        e in
    let rows : t.world.order ≡ set_at i (some (new_order customer r p)) u.world.order =
      ap (λ (x : Core). x.order) (place_rest-core now c customer i r p u t b) in
    ap (λ (f : ℕ → Option Order). f i) rows ∙ ground arith

abbrev called_back : ℕ → ℕ → Order → World → World
called_back now i o w = add_timeline i OrderStatus.cancelled (
    release_slot i (
      update_order i (λ x. record x { status = OrderStatus.cancelled; cancelled_at = some now })
        (release_at o.hub_id i w)))

own_order :
    (customer : ℕ) (r : Request) (p : Prepared)
    → owned customer (some (new_order customer r p)) ≡ some (new_order customer r p)
own_order customer r p = ground arith

placed-cancellable :
    (online : Bool) (hub : Option ℕ)
    → includes cancellable_statuses (final_status online hub) ≡ true
placed-cancellable true hub = refl
placed-cancellable false none = refl
placed-cancellable false (some h) = refl

back :
    (i : ℕ) (hub : Option ℕ) (w : World) (o : Order) (h k : ℕ) (before : Inventory)
    → w.order i ≡ some o
    → Moved (taken_by hub h k o.items) (before h k) (w.inventory h k)
    → (release_at hub i w).inventory h k ≡ before h k
unfolding release_reserved_stock
back i none w o h k before e m = Moved-zero (before h k) (w.inventory h k) m
back i (some hub) w o h k before e m = rw e (Moved-returned hub h k o.items before w.inventory m)

module _ (am : ℕ → ℕ → ℕ) where
  ended :
      (i : ℕ) (r : World × Result OrderError (Unit {0}))
      → (continue {0, 0} r (λ _ v. (restore_benefit i v, ok tt))).0.inventory ≡ r.0.inventory
  ended i (v, ok a) = restore_benefit-inventory i v
  ended i (v, err e) = refl

  -- The stock after the customer's cancellation.
  customer_cancel-inventory :
      (now customer i : ℕ) (w : World) (o : Order)
      → owned customer (find_live w i) ≡ some o
      → includes cancellable_statuses o.status ≡ true
      → (customer_cancel am now customer i w).0.inventory ≡ (release_at o.hub_id i w).inventory
  unfolding customer_cancel release_slot
  customer_cancel-inventory now customer i w o e k =
      let v = (called_back now i o w) in
      rw (e, k) (ended i (refund_redemption am now i v) ∙ refund_redemption-inventory am now i v)

  -- A customer who cancels an order that was just placed puts the stock back: every row of the stock of
  -- every hub is as it was before the order was placed.
  pub place-cancel :
      (now later : ℕ) (c : BenefitConfig) (customer i : ℕ) (r : Request) (p : Prepared) (s t : Shop)
      (h k : ℕ)
      → place_in_transaction now c customer i r p s ≡ ok t
      → (customer_cancel am later customer i t.world).0.inventory h k ≡ s.world.inventory h k
  place-cancel now later c customer i r p s t h k e =
      let o = new_order customer r p in
      let row : t.world.order i ≡ some o = place_in_transaction-order now c customer i r p s t e in
      let mine : owned customer (find_live t.world i) ≡ some o = rw row (own_order customer r p) in
      ap (λ (v : Inventory). v h k)
        (customer_cancel-inventory later customer i t.world o mine
          (placed-cancellable (is_razorpay r.payment_method) p.assignable_hub))
      ∙ back i p.assignable_hub t.world o h k (s.world.inventory) row
          (place_in_transaction-Moved now c customer i r p s t h k e)
