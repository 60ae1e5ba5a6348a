-- ===== src/Requisitions/Table.antt =====
-- One requisition with its items, the stock of the hubs, and the ledger of the stock
-- (src/modules/requisitions/requisitions.service.ts; prisma/schema.prisma). Quantities that the request
-- classes check are natural numbers. `receivedQty`, `damageQty` and `missingQty` are read as 0 when
-- they are null.
use vikram_backend.Prelude.{
  ℕ, ◌-◌, Bool, ◌&&◌, Option, some, none, List, ◌==◌, if◌then◌else◌, find?, is_some, update_first,
}
use vikram_backend.Orders.World.{Stock}
use vikram_backend.Orders.Effects.{Inventory}

pub data RequisitionStatus : Type 0 where
  draft submitted pending_approval approved rejected : RequisitionStatus
  allocated dispatched in_transit received completed : RequisitionStatus

pub data ItemStatus : Type 0 where
  pending approved rejected allocated dispatched received completed : ItemStatus

pub record Item : Type 0 where
  pub id : ℕ
  pub product : ℕ
  pub requested : ℕ
  pub approved : Option ℕ
  pub allocated : Option ℕ
  pub received : ℕ
  pub damage : ℕ
  pub missing : ℕ
  pub shortage : Option ℕ
  pub status : ItemStatus

pub record Requisition : Type 0 where
  pub hub : ℕ
  pub status : RequisitionStatus
  pub items : List Item
  pub vehicle : Option ℕ
  pub driver : Option ℕ
  pub total_qty : ℕ

-- InventoryLedgerType, of these operations.
pub data LedgerType : Type 0 where
  allocate dispatch receive : LedgerType

pub record LedgerEntry : Type 0 where
  pub hub : ℕ
  pub product : ℕ
  pub type : LedgerType
  pub quantity : ℕ
  pub opening : ℕ
  pub closing : ℕ

-- A vehicle as a requisition needs it. Its capacity is a whole number.
pub record Truck : Type 0 where
  pub is_active : Bool
  pub capacity : ℕ

-- The requisition that `findOneRaw` finds, and the other tables. `driver` tells whether a driver is
-- active, and `operational` whether a hub is there and active.
pub record Depot : Type 0 where
  pub row : Requisition
  pub stock : Inventory
  pub ledger : List LedgerEntry
  pub truck : ℕ → Option Truck
  pub driver : ℕ → Option Bool
  pub operational : ℕ → Bool

pub data RequisitionError : Type 0 where
  bad_request not_found forbidden : RequisitionError

abbrev pub or_else : Option ℕ → ℕ → ℕ
or_else none n = n
or_else (some k) n = k

-- `row.approvedQty ?? row.requestedQty`.
abbrev pub max_allowed : Item → ℕ
max_allowed x = or_else x.approved x.requested

-- `allocatedQty ?? approvedQty ?? requestedQty`.
abbrev pub dispatched_qty : Item → ℕ
dispatched_qty x = or_else x.allocated (max_allowed x)

-- `Math.max(0, dispatched - received)`.
abbrev pub remaining_qty : Item → ℕ
remaining_qty x = dispatched_qty x - x.received

abbrev pub has_id : ℕ → Item → Bool
has_id i x = x.id == i

-- `update` of the item with a primary key.
abbrev pub update_item : ℕ → (Item → Item) → List Item → List Item
update_item i f = update_first (has_id i) f

-- `update` of the row of a hub and a product.
abbrev pub put_stock : ℕ → ℕ → Stock → Inventory → Inventory
put_stock hub p s inv h q = if h == hub && q == p then some s else inv h q

abbrev pub status_code : RequisitionStatus → ℕ
status_code draft = 0
status_code submitted = 1
status_code pending_approval = 2
status_code approved = 3
status_code rejected = 4
status_code allocated = 5
status_code dispatched = 6
status_code in_transit = 7
status_code received = 8
status_code completed = 9

abbrev pub same_status : RequisitionStatus → RequisitionStatus → Bool
same_status a b = status_code a == status_code b

abbrev pub one_of : List RequisitionStatus → RequisitionStatus → Bool
one_of l s = is_some (find? (same_status s) l)
