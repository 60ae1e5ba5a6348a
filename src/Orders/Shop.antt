-- ===== src/Orders/Shop.antt =====
-- The tables that the placing of an order works on beside those of `World` (prisma/schema.prisma): the
-- columns of an order that only it and the rescheduling use, the variants of the products, the carts.
use Prim.Native.String.{String}
use vikram_backend.Prelude.{
  ℕ, Bool, false, not, ◌&&◌, Option, none, some, List, ◌==◌, if◌then◌else◌, find?, is_some,
}
use vikram_backend.Orders.Status.{text_eq}
use vikram_backend.Orders.World.{World, Order, OrderItem}

pub record Variant : Type 0 where
  pub product_id : ℕ
  pub stock : ℕ
  pub in_stock : Bool
  pub is_active : Bool
  pub deleted : Bool

-- `idempotency_key`, `scheduled_slot` and `proposed_slot` are columns of the order.
pub record Shop : Type 0 where
  pub world : World
  pub idempotency_key : ℕ → Option String
  pub scheduled_slot : ℕ → Option ℕ
  pub proposed_slot : ℕ → Option ℕ
  pub variant : ℕ → Option Variant
  pub cart : ℕ → List OrderItem

abbrev pub set_at {ℓ} : {A : Type ℓ} → ℕ → A → (ℕ → A) → ℕ → A
set_at i a f j = if j == i then a else f j

abbrev pub is_key : String → Option String → Bool
is_key k none = false
is_key k (some l) = text_eq l k

abbrev pub is_owned_live : ℕ → Option Order → Bool
is_owned_live c none = false
is_owned_live c (some o) = o.customer_id == c && not o.deleted

-- The `where` of the lookup of an idempotency key.
abbrev pub has_key : ℕ → String → Shop → ℕ → Bool
has_key c k s j = is_owned_live c (s.world.order j) && is_key k (s.idempotency_key j)

abbrev pub find_by_key : ℕ → Option String → Shop → Option ℕ
find_by_key c none s = none
find_by_key c (some k) s = find? (has_key c k s) s.world.order_ids

abbrev pub is_owned : ℕ → Option Order → Bool
is_owned c none = false
is_owned c (some o) = o.customer_id == c

-- The unique index on the customer and the key, which deleted orders keep.
abbrev pub is_key_taken : ℕ → Option String → Shop → Bool
is_key_taken c none s = false
is_key_taken c (some k) s =
    is_some (
      find? (λ j. is_owned c (s.world.order j) && is_key k (s.idempotency_key j)) s.world.order_ids)
