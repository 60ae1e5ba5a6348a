-- ===== src/Orders/World.antt =====
-- The rows that the operations on orders read and write (prisma/schema.prisma), and the handlers' own
-- way to fail: what a handler wrote before it throws stays, since its calls share no transaction.
-- Prices are whole rupees, which the loyalty programme takes as paise. Notifications, events and the cache are left out.
use Prim.Native.String.{String}
use vikram_backend.Prelude.{
  ℕ, ◌*◌, Bool, true, false, Option, some, none, List, [], ◌∷◌, ◌==◌, if◌then◌else◌, Result, ◌++◌,
}
pub use vikram_backend.Prelude.Handlers.{continue, ◌>>=◌, ◌>>◌, return, write, require}
use vikram_backend.Loyalty.Ledger.{Ledger, LoyaltyError}
use vikram_backend.Loyalty.Orders.{LoyaltyOrder}
use vikram_backend.Delivery.Slots.Store.{Db}
use vikram_backend.Delivery.Benefit.{Benefits}
use vikram_backend.Orders.Status.{OrderStatus, same_status, delivered}
use vikram_backend.Orders.Drivers.{Driver}

pub data PaymentStatus : Type 0 where
  pending paid collected failed refunded authorized cancelled : PaymentStatus

pub data PaymentMethod : Type 0 where
  cash manual razorpay : PaymentMethod

pub data VehicleStatus : Type 0 where
  available assigned loading out_for_delivery reached returning : VehicleStatus
  maintenance inactive blocked document_expired : VehicleStatus

pub data HubOperationStatus : Type 0 where
  pending in_progress completed cancelled : HubOperationStatus

pub record OrderItem : Type 0 where
  pub product_id : ℕ
  pub quantity : ℕ

pub record Order : Type 0 where
  pub customer_id : ℕ
  pub hub_id : Option ℕ
  pub deleted : Bool
  pub status : OrderStatus
  pub payment_method : PaymentMethod
  pub payment_status : PaymentStatus
  pub items : List OrderItem
  pub subtotal : ℕ
  pub membership_discount : ℕ
  pub loyalty_points_used : ℕ
  pub assigned_driver : Option ℕ
  pub assigned_vehicle : Option ℕ
  pub driver_reached_at : Option ℕ
  pub delivery_otp : Option String
  pub otp_generated_at : Option ℕ
  pub otp_verified : Bool
  pub loading_started_at : Option ℕ
  pub loading_completed_at : Option ℕ
  pub dispatched_at : Option ℕ
  pub delivered_at : Option ℕ
  pub payment_collected_at : Option ℕ
  pub cancelled_at : Option ℕ

pub record Stock : Type 0 where
  pub available : ℕ
  pub reserved : ℕ

pub record Vehicle : Type 0 where
  pub hub_id : ℕ
  pub is_active : Bool
  pub deleted : Bool
  pub status : VehicleStatus
  pub current_order : Option ℕ

pub record Loading : Type 0 where
  pub status : HubOperationStatus
  pub started_at : Option ℕ
  pub completed_at : Option ℕ

pub record Dispatch : Type 0 where
  pub status : HubOperationStatus
  pub driver_id : Option ℕ
  pub vehicle_id : Option ℕ
  pub dispatched_at : Option ℕ
  pub completed_at : Option ℕ

-- The tables, by primary key, the inventory by hub and product, and the loading and dispatch rows by
-- order. `order_ids` lists the keys of the orders. A use of a free delivery stands with the
-- customer of its order.
pub record World : Type 0 where
  pub order : ℕ → Option Order
  pub order_ids : List ℕ
  pub timeline : List (ℕ × OrderStatus)
  pub inventory : ℕ → ℕ → Option Stock
  pub driver : ℕ → Option Driver
  pub vehicle : ℕ → Option Vehicle
  pub loading : ℕ → Option Loading
  pub dispatch : ℕ → Option Dispatch
  pub ledger : ℕ → Ledger
  pub benefits : ℕ → Benefits
  pub slots : Db

pub data OrderError : Type 0 where
  -- NotFoundException, ConflictException, BadRequestException
  not_found conflict bad_request : OrderError
  loyalty : LoyaltyError → OrderError

abbrev pub Handler {ℓ} : Type ℓ → Type ℓ
Handler A = World → World × Result OrderError A

-- `update` of one row.
abbrev pub put {ℓ} : {A : Type ℓ} → ℕ → (A → A) → (ℕ → Option A) → ℕ → Option A
put i f t j = if i == j then elim (t j) [ none ↦ none | some x ↦ some (f x) ] else t j

-- `upsert` of one row.
abbrev pub put_new {ℓ} : {A : Type ℓ} → ℕ → (A → A) → A → (ℕ → Option A) → ℕ → Option A
put_new i f new t j = if i == j then some (elim (t j) [ none ↦ new | some x ↦ f x ]) else t j

-- `update` of a row that may be named.
abbrev pub put_if {ℓ} : {A : Type ℓ} → Option ℕ → (A → A) → (ℕ → Option A) → ℕ → Option A
put_if none f t = t
put_if (some i) f t = put i f t

abbrev pub update_order : ℕ → (Order → Order) → World → World
update_order i f w = record w { order = put i f w.order }

abbrev pub update_driver : Option ℕ → (Driver → Driver) → World → World
update_driver i f w = record w { driver = put_if i f w.driver }

abbrev pub update_vehicle : Option ℕ → (Vehicle → Vehicle) → World → World
update_vehicle i f w = record w { vehicle = put_if i f w.vehicle }

-- `findFirst({ id, deletedAt: null })`.
abbrev pub unless_deleted : Option Order → Option Order
unless_deleted none = none
unless_deleted (some o) = if o.deleted then none else some o

abbrev pub find_live : World → ℕ → Option Order
find_live w i = unless_deleted (w.order i)

-- `orderTimeline.create`.
abbrev pub add_timeline : ℕ → OrderStatus → World → World
add_timeline i s w = record w { timeline = w.timeline ++ ((i, s) ∷ []) }

-- The order as the loyalty programme sees it, which counts in paise.
abbrev pub to_loyalty : ℕ → Order → LoyaltyOrder
to_loyalty i o = record {
  id = i;
  is_delivered = same_status o.status delivered;
  subtotal = 100 * o.subtotal;
  membership_discount = 100 * o.membership_discount;
  loyalty_points_used = o.loyalty_points_used;
}

-- Tests on the columns.
abbrev pub is_paid : PaymentStatus → Bool
is_paid PaymentStatus.paid = true
is_paid _ = false

abbrev pub is_settled : PaymentStatus → Bool
is_settled PaymentStatus.paid = true
is_settled PaymentStatus.collected = true
is_settled _ = false

-- PENDING, FAILED, CANCELLED: UNPAID_ONLINE_PAYMENT_STATUSES.
abbrev pub is_unpaid_online : PaymentStatus → Bool
is_unpaid_online PaymentStatus.pending = true
is_unpaid_online PaymentStatus.failed = true
is_unpaid_online PaymentStatus.cancelled = true
is_unpaid_online _ = false

abbrev pub is_cash : PaymentMethod → Bool
is_cash PaymentMethod.cash = true
is_cash _ = false

abbrev pub is_razorpay : PaymentMethod → Bool
is_razorpay PaymentMethod.razorpay = true
is_razorpay _ = false
