-- ===== src/Orders/Placement.antt =====
-- Placing an order: `placeOrder` of src/modules/orders/orders.service.ts. What it only reads before its
-- transaction (the prepared checkout, the checks of the delivery preference, the routing) is a function
-- of the tables; the transaction is whole. Of the columns of an order, those of `World` and `Shop` are
-- kept. Notifications, events and the cache are left out.
pub mod Reserving
pub mod Placed
pub mod Released
pub mod Repeating
pub mod Routed
mod Tests
use Prim.Native.String.{String}
use vikram_backend.Prelude.{
  ℕ, ◌+◌, ◌-◌, Bool, true, false, not, ◌&&◌, ◌||◌, Option, none, some, List, [], ◌∷◌, ◌++◌, map,
  ltb, ◌==◌, if◌then◌else◌, filter_if, Result, ok, err, ◌>>=◌,
}
use vikram_backend.Prelude.Handlers.{for_each}
use vikram_backend.Loyalty.Ledger.{Ledger, LoyaltyError}
use vikram_backend.Loyalty.Orders.{commit_redemption_for_placed_order}
use vikram_backend.Delivery.Slots.Store.{Db, Reservation}
use vikram_backend.Delivery.Slots.Ops.{SlotError, confirm_reservation}
use vikram_backend.Delivery.Benefit.{BenefitConfig, Benefits, Consumed, consume_free_bike_delivery}
use vikram_backend.Orders.Status.{OrderStatus}
use vikram_backend.Orders.World.{
  World, Order, OrderItem, Stock, PaymentMethod, PaymentStatus, OrderError, conflict, bad_request,
  loyalty, Handler, to_loyalty, is_razorpay,
}
use vikram_backend.Orders.Effects.{Inventory, put_ledger}
use vikram_backend.Orders.Customer.{is_unpaid_checkout, release_unpaid_online_order}
use vikram_backend.Orders.Shop.{Shop, Variant, set_at, find_by_key, is_key_taken}

pub record CheckoutItem : Type 0 where
  pub product_id : ℕ
  pub quantity : ℕ
  pub variant_id : Option ℕ

-- What the transaction takes from `prepareCheckout`.
pub record Checkout : Type 0 where
  pub items : List CheckoutItem
  pub subtotal : ℕ
  pub membership_discount : ℕ
  pub loyalty_used : ℕ
  pub free_delivery_applied : Bool
  pub bike_delivery_free : Bool
  pub company_absorbed_delivery : ℕ
  pub is_bike : Bool

-- The checkout, the hub that it is routed to, and the slot that was chosen.
pub record Prepared : Type 0 where
  pub checkout : Checkout
  pub assignable_hub : Option ℕ
  pub slot : Option ℕ

-- The payment method, the key without its outer spaces, and what is read before the transaction.
pub record Request : Type 0 where
  pub payment_method : PaymentMethod
  pub idempotency_key : Option String
  pub prepare : Shop → Result OrderError Prepared

abbrev Step : Type 0
Step = Shop → Result OrderError Shop

abbrev pub moved : ℕ → Stock → Stock
moved q s = record { available = s.available - q; reserved = s.reserved + q }

abbrev pub set_row : ℕ → ℕ → Stock → Inventory → Inventory
set_row hub p r inv h k = if h == hub && k == p then some r else inv h k

abbrev pub reserve_row : ℕ → CheckoutItem → Option Stock → Inventory → Result OrderError Inventory
reserve_row hub item none inv = err bad_request
reserve_row hub item (some s) inv =
    if ltb s.available item.quantity
    then err bad_request
    else ok (set_row hub item.product_id (moved item.quantity s) inv)

-- The loop that sets the hub's stock aside.
unfoldable pub reserve_items : ℕ → List CheckoutItem → Inventory → Result OrderError Inventory
reserve_items hub [] inv = ok inv
reserve_items hub (item ∷ items) inv =
    reserve_row hub item (inv hub item.product_id) inv >>= reserve_items hub items

abbrev pub with_inventory : Shop → Inventory → Shop
with_inventory s inv = record s { world = record s.world { inventory = inv } }

unfoldable pub reserve_stock : Option ℕ → List CheckoutItem → Step
reserve_stock none items s = ok s
reserve_stock (some hub) items s =
    reserve_items hub items s.world.inventory >>= λ inv. ok (with_inventory s inv)

abbrev Variants : Type 0
Variants = ℕ → Option Variant

abbrev pub of_product : ℕ → Option Variant → Option Variant
of_product p none = none
of_product p (some v) = if v.product_id == p && not v.deleted then some v else none

abbrev pub take_found : ℕ → ℕ → Option Variant → Variants → Result OrderError Variants
take_found i q none t = ok t
take_found i q (some v) t =
    if ltb 0 v.stock || not v.in_stock
    then (if ltb v.stock q
        then err bad_request
        else ok (
            set_at i
              (some
                (record v { stock = v.stock - q; in_stock = ltb 0 (v.stock - q) && v.is_active }))
              t))
    else ok t

abbrev pub take_variant : CheckoutItem → Option ℕ → Variants → Result OrderError Variants
take_variant item none t = ok t
take_variant item (some i) t = take_found i item.quantity (of_product item.product_id (t i)) t

-- The loop over the variants.
unfoldable pub take_variants : List CheckoutItem → Variants → Result OrderError Variants
take_variants [] t = ok t
take_variants (item ∷ items) t = take_variant item item.variant_id t >>= take_variants items

unfoldable pub take_variant_stock : List CheckoutItem → Step
take_variant_stock items s = take_variants items s.variant >>= λ t. ok (record s { variant = t })

abbrev pub to_item : CheckoutItem → OrderItem
to_item x = record { product_id = x.product_id; quantity = x.quantity }

-- `finalStatus`.
abbrev pub final_status : Bool → Option ℕ → OrderStatus
final_status true hub = OrderStatus.pending
final_status false none = OrderStatus.awaiting_hub_allocation
final_status false (some h) = OrderStatus.hub_assigned

abbrev pub first_entries : ℕ → Bool → Option ℕ → List (ℕ × OrderStatus)
first_entries i true hub = (i, OrderStatus.pending) ∷ []
first_entries i false hub =
    (i, OrderStatus.pending) ∷ (i, OrderStatus.confirmed) ∷ (i, final_status false hub) ∷ []

abbrev pub new_order : ℕ → Request → Prepared → Order
new_order customer r p = record {
  customer_id = customer;
  hub_id = p.assignable_hub;
  deleted = false;
  status = final_status (is_razorpay r.payment_method) p.assignable_hub;
  payment_method = r.payment_method;
  payment_status = PaymentStatus.pending;
  items = map to_item p.checkout.items;
  subtotal = p.checkout.subtotal;
  membership_discount = p.checkout.membership_discount;
  loyalty_points_used = p.checkout.loyalty_used;
  assigned_driver = none;
  assigned_vehicle = none;
  driver_reached_at = none;
  delivery_otp = none;
  otp_generated_at = none;
  otp_verified = false;
  loading_started_at = none;
  loading_completed_at = none;
  dispatched_at = none;
  delivered_at = none;
  payment_collected_at = none;
  cancelled_at = none;
}

abbrev pub created : ℕ → ℕ → Request → Prepared → Shop → Shop
created customer i r p s = record s {
  world = record s.world {
    order = set_at i (some (new_order customer r p)) s.world.order;
    order_ids = s.world.order_ids ++ (i ∷ []);
    timeline = s.world.timeline ++ first_entries i (is_razorpay r.payment_method) p.assignable_hub;
  };
  idempotency_key = set_at i r.idempotency_key s.idempotency_key;
  scheduled_slot = set_at i p.slot s.scheduled_slot;
  proposed_slot = set_at i none s.proposed_slot;
}

-- `order.create`, with its timeline; i is the new order's id.
unfoldable pub create_order : ℕ → ℕ → Request → Prepared → Step
create_order customer i r p s =
    if is_key_taken customer r.idempotency_key s
    then err conflict
    else ok (created customer i r p s)

abbrev pub kept_slot : Shop → Db × Result SlotError Reservation → Result OrderError Shop
kept_slot s (db, ok x) = ok (record s { world = record s.world { slots = db } })
kept_slot s (db, err e) = err bad_request

-- `confirmReservation` of the slot, when one was chosen.
unfoldable pub confirm_slot : ℕ → ℕ → ℕ → Option ℕ → Step
confirm_slot now customer i none s = ok s
confirm_slot now customer i (some slot) s =
    kept_slot s (confirm_reservation now customer i slot s.world.slots)

-- `cartItem.deleteMany`.
unfoldable pub clear_cart : ℕ → Step
clear_cart customer s = ok (record s { cart = set_at customer [] s.cart })

abbrev pub kept_ledger : ℕ → Shop → Result LoyaltyError Ledger → Result OrderError Shop
kept_ledger customer s (ok l) = ok (record s { world = put_ledger customer l s.world })
kept_ledger customer s (err e) = err (loyalty e)

-- `commitRedemptionForPlacedOrder`, when points are used.
unfoldable pub commit_points : ℕ → ℕ → ℕ → Request → Prepared → Step
commit_points now customer i r p s =
    if ltb 0 p.checkout.loyalty_used
    then kept_ledger customer s (
        commit_redemption_for_placed_order now (to_loyalty i (new_order customer r p))
          p.checkout.loyalty_used (s.world.ledger customer))
    else ok s

abbrev pub kept_benefits : ℕ → Shop → Benefits × Option Consumed → Result OrderError Shop
kept_benefits customer s (b, none) = err bad_request
kept_benefits customer s (b, some x) =
    ok (record s { world = record s.world { benefits = set_at customer b s.world.benefits } })

-- `consumeFreeBikeDelivery`, for a free delivery by bike.
unfoldable pub consume_benefit : BenefitConfig → ℕ → ℕ → Checkout → Step
consume_benefit c customer i k s =
    if (k.free_delivery_applied || k.bike_delivery_free)
      && ltb 0 k.company_absorbed_delivery
      && k.is_bike
    then kept_benefits customer s (consume_free_bike_delivery c i (s.world.benefits customer))
    else ok s

-- The steps of the transaction after the stock.
unfoldable pub place_rest : ℕ → BenefitConfig → ℕ → ℕ → Request → Prepared → Step
place_rest now c customer i r p s =
    take_variant_stock p.checkout.items s
    >>= create_order customer i r p
    >>= confirm_slot now customer i p.slot
    >>= clear_cart customer
    >>= commit_points now customer i r p
    >>= consume_benefit c customer i p.checkout

-- The transaction.
unfoldable pub place_in_transaction : ℕ → BenefitConfig → ℕ → ℕ → Request → Prepared → Step
place_in_transaction now c customer i r p s =
    reserve_stock p.assignable_hub p.checkout.items s >>= place_rest now c customer i r p

-- A transaction that throws leaves the tables.
abbrev pub commit : ℕ → Shop → Result OrderError Shop → Shop × Result OrderError ℕ
commit i s (ok t) = (t, ok i)
commit i s (err e) = (s, err e)

abbrev pub on_world : Shop → World → Shop
on_world s w = record s { world = w }

-- The `where` of `releaseUnpaidOnlineCheckouts`.
abbrev pub is_open_checkout : ℕ → Option Order → Bool
is_open_checkout c none = false
is_open_checkout c (some o) = o.customer_id == c && not o.deleted && is_unpaid_checkout o

module _ (add_months : ℕ → ℕ → ℕ) where
  abbrev pub release_one : ℕ → ℕ → Handler (Unit {0})
  release_one now j w = elim (release_unpaid_online_order add_months now j w).1 [
    | ok b ↦ ((release_unpaid_online_order add_months now j w).0, ok tt)
    | err e ↦ ((release_unpaid_online_order add_months now j w).0, err e)
  ]

  -- `releaseUnpaidOnlineCheckouts`.
  unfoldable pub release_unpaid_online_checkouts : ℕ → ℕ → Handler (Unit {0})
  release_unpaid_online_checkouts now customer w =
      for_each (release_one now)
        (filter_if (λ j. is_open_checkout customer (w.order j)) w.order_ids) w

  abbrev pub released_first : ℕ → ℕ → Request → Handler (Unit {0})
  released_first now customer r w =
      if is_razorpay r.payment_method
      then (w, ok tt)
      else release_unpaid_online_checkouts now customer w

  abbrev pub prepared_then :
      ℕ
      → BenefitConfig
      → ℕ
      → ℕ
      → Request
      → Shop
      → Result OrderError Prepared
      → Shop × Result OrderError ℕ
  prepared_then now c customer i r s (ok p) =
      commit i s (place_in_transaction now c customer i r p s)
  prepared_then now c customer i r s (err e) = (s, err e)

  abbrev pub released_then :
      ℕ
      → BenefitConfig
      → ℕ
      → ℕ
      → Request
      → Shop
      → World × Result OrderError (Unit {0})
      → Shop × Result OrderError ℕ
  released_then now c customer i r s (w, ok a) =
      prepared_then now c customer i r (on_world s w) (r.prepare (on_world s w))
  released_then now c customer i r s (w, err e) = (on_world s w, err e)

  abbrev pub place_unless :
      ℕ → BenefitConfig → ℕ → ℕ → Request → Shop → Option ℕ → Shop × Result OrderError ℕ
  place_unless now c customer i r s (some j) = (s, ok j)
  place_unless now c customer i r s none =
      released_then now c customer i r s (released_first now customer r s.world)

  -- `placeOrder`, its order by id; i is the id that a new order gets.
  unfoldable pub place_order :
      ℕ → BenefitConfig → ℕ → ℕ → Request → Shop → Shop × Result OrderError ℕ
  place_order now c customer i r s =
      place_unless now c customer i r s (find_by_key customer r.idempotency_key s)
