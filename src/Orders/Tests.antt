-- ===== src/Orders/Tests.antt =====
-- Runs of orders, and the theorems at concrete tables.
use Prim.Native.String.{String}
use vikram_backend.Prelude.{
  inl, ℕ, ◌+◌, ◌-◌, ◌*◌, ◌≡◌, refl, true, false, Option, some, none, [], ◌∷◌, arith, ◌==◌,
  if◌then◌else◌, ok, err,
}
use vikram_backend.Loyalty.Ledger.{empty_ledger}
use vikram_backend.Delivery.Slots.Store.{empty_db}
use vikram_backend.Orders.Status.{OrderStatus, includes, order_status_transitions}
use vikram_backend.Orders.World.{World, Order, PaymentMethod, PaymentStatus, not_found}
use vikram_backend.Orders.Hub.{OtpConfig, accept, mark_picking}
use vikram_backend.Orders.Handover.{cancel_order}
use vikram_backend.Orders.Codes.{IsRightCode}
use vikram_backend.Orders.Customer.{
  order_cancelled, confirm_paid_order, release_unpaid_online_order,
}
use vikram_backend.Orders.Drivers.{Driver, DriverAvailability}
use vikram_backend.Orders.Locks.{IsLocked}
use vikram_backend.Orders.Unverified.{
  start, later, step_accept, step_mark_picking, no_delivery_without_code,
}
use vikram_backend.Orders.Payments.{release-confirm, confirm-release}
use vikram_backend.Orders.Inventory.{units, cancel_order-units, cancel_elsewhere}

abbrev pub add_months : ℕ → ℕ → ℕ
add_months t m = t + 30 * m

abbrev pub same_text : String → String
same_text t = t

abbrev production : OtpConfig
production = record { is_dev = false; bypass = "123456" }

-- An order of 2 units of product 5 at hub 1, in cash or online.
abbrev an_order : OrderStatus → PaymentMethod → PaymentStatus → Option String → Order
an_order status method payment code = record {
  customer_id = 9;
  hub_id = some 1;
  deleted = false;
  status = status;
  payment_method = method;
  payment_status = payment;
  items = record { product_id = 5; quantity = 2 } ∷ [];
  subtotal = 500;
  membership_discount = 0;
  loyalty_points_used = 0;
  assigned_driver = some 3;
  assigned_vehicle = none;
  driver_reached_at = some 40;
  delivery_otp = code;
  otp_generated_at = some 41;
  otp_verified = false;
  loading_started_at = none;
  loading_completed_at = none;
  dispatched_at = none;
  delivered_at = none;
  payment_collected_at = none;
  cancelled_at = none;
}

-- Order 0 is the only one, and each hub has set aside 2 of its 10 units of product 5.
abbrev pub world_of : Order → World
world_of o = record {
  order = λ i. if i == 0 then some o else none;
  order_ids = 0 ∷ [];
  timeline = [];
  inventory = λ h p. if p == 5 then some (record { available = 8; reserved = 2 }) else none;
  driver = λ _. none;
  vehicle = λ _. none;
  loading = λ _. none;
  dispatch = λ _. none;
  ledger = λ _. empty_ledger;
  benefits = λ _. record { benefit = none; usages = [] };
  slots = empty_db;
}

abbrev out_order : Order
out_order =
    an_order OrderStatus.out_for_delivery PaymentMethod.cash PaymentStatus.pending (some "482913")

abbrev pub online_order : Order
online_order = an_order OrderStatus.pending PaymentMethod.razorpay PaymentStatus.pending none

abbrev placed_order : Order
placed_order = an_order OrderStatus.hub_assigned PaymentMethod.cash PaymentStatus.pending none

move_example : includes (order_status_transitions OrderStatus.pending) OrderStatus.cancelled ≡ true
unfolding order_status_transitions
move_example = refl

no_delivery_without_code_example :
    IsLocked 0 (mark_picking 20 1 0 (accept 1 0 (world_of placed_order)).0).0
no_delivery_without_code_example =
    no_delivery_without_code add_months production same_text 0
      (later (later start (step_accept (world_of placed_order) 1 0))
        (step_mark_picking (accept 1 0 (world_of placed_order)).0 20 1 0))
      refl

right_code : IsRightCode production "482913" out_order
right_code = record {
  code = "482913";
  is_own = refl;
  not_empty = λ e. absurd (cc e);
  is_dated = refl;
  is_on_its_way = inl refl;
  not_verified = refl;
  is_given = inl refl;
}

release-confirm_example :
    release_unpaid_online_order add_months 20 0 (confirm_paid_order 10 0 (world_of online_order)).0
    ≡ ((confirm_paid_order 10 0 (world_of online_order)).0, ok false)
release-confirm_example =
    release-confirm add_months 10 20 0 (world_of online_order)
      (confirm_paid_order 10 0 (world_of online_order)).0 (unfold confirm_paid_order in refl)

cancel_order-units_example :
    units ((cancel_order add_months 10 1 0 (world_of placed_order)).0.inventory 1 5)
    ≡ units ((world_of placed_order).inventory 1 5)
cancel_order-units_example = cancel_order-units add_months 10 1 0 (world_of placed_order) 1 5

cancel_elsewhere_example :
    let (v, r) = cancel_order add_months 10 2 0 (world_of placed_order) in
    (r ≡ err not_found) × (v.inventory 2 5 ≡ some (record { available = 8 + 2; reserved = 2 - 2 }))
cancel_elsewhere_example =
    cancel_elsewhere add_months 10 2 0 5 2 (world_of placed_order) placed_order
      (record { available = 8; reserved = 2 }) refl refl refl refl (omega arith)

abbrev busy_driver : Driver
busy_driver = record {
  hub_id = 1;
  is_active = true;
  on_leave = false;
  deleted = false;
  availability = DriverAvailability.on_delivery;
  license_expiry = some 900;
}

confirm-release_example :
    let v = (release_unpaid_online_order add_months 10 0 (world_of online_order)).0 in
    confirm_paid_order 20 0 v ≡ (v, order_cancelled)
confirm-release_example =
    confirm-release add_months 10 20 0 (world_of online_order) online_order refl refl
