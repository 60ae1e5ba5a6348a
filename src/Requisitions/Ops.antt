-- ===== src/Requisitions/Ops.antt =====
-- The operations on a requisition (src/modules/requisitions/requisitions.service.ts). Each runs in one
-- transaction: an error leaves the tables. The timeline, audits, comments, documents and dates are
-- left out. `wh` is the warehouse that `resolveWarehouseHub` finds.
use vikram_backend.Prelude.{
  ℕ, ◌+◌, ◌-◌, Bool, true, false, not, ◌&&◌, ◌||◌, Option, some, none, List, [], ◌∷◌, ◌++◌, map,
  ltb, leb, if◌then◌else◌, find?, is_some, filter_if, sum_of, Result, ok, err, ◌>>=◌, ◌>>◌, guard,
}
use vikram_backend.Orders.World.{Stock}
use vikram_backend.Orders.Effects.{Inventory}
use vikram_backend.Requisitions.Table.{
  RequisitionStatus, ItemStatus, Item, Requisition, LedgerType, LedgerEntry, Truck, Depot,
  RequisitionError, bad_request, max_allowed, has_id, update_item, put_stock, one_of,
}

-- An item as a request names it; its id is the one that the database gives it.
pub record ItemInput : Type 0 where
  pub id : ℕ
  pub product : ℕ
  pub requested : ℕ

abbrev pub new_item : ItemInput → Item
new_item i = record {
  id = i.id;
  product = i.product;
  requested = i.requested;
  approved = none;
  allocated = none;
  received = 0;
  damage = 0;
  missing = 0;
  shortage = none;
  status = ItemStatus.pending;
}

-- `computeTotals`, its quantity.
abbrev pub total_qty : List Item → ℕ
total_qty = sum_of (λ x. x.requested)

abbrev pub is_positive : ItemInput → Bool
is_positive i = ltb 0 i.requested

abbrev pub is_empty : List Item → Bool
is_empty [] = true
is_empty (x ∷ xs) = false

abbrev pub new_requisition : ℕ → Bool → List Item → Requisition
new_requisition hub submitting items = record {
  hub = hub;
  status = if submitting then RequisitionStatus.pending_approval else RequisitionStatus.draft;
  items = items;
  vehicle = none;
  driver = none;
  total_qty = total_qty items;
}

-- `create`: the new row. `known` tells the products that exist.
unfoldable pub create :
    (ℕ → Bool) → ℕ → Bool → List ItemInput → Depot → Result RequisitionError Depot
create known hub submitting inputs d = do
  let items = map new_item (filter_if is_positive inputs)
  guard (not (submitting && is_empty items)) bad_request
  guard (d.operational hub) bad_request
  guard (not (is_some (find? (λ (x : Item). not (known x.product)) items))) bad_request
  ok (record d { row = new_requisition hub submitting items })

-- `update` with items; without items only columns that are left out change.
unfoldable pub update_items : (ℕ → Bool) → List ItemInput → Depot → Result RequisitionError Depot
update_items known inputs d = do
  guard
      (one_of
        (RequisitionStatus.draft ∷ RequisitionStatus.submitted ∷ RequisitionStatus.pending_approval
          ∷ [])
        d.row.status)
      bad_request
  let items = map new_item inputs
  guard (not (is_some (find? (λ (x : Item). not (known x.product)) items))) bad_request
  ok (record d { row = record d.row { items = items; total_qty = total_qty items } })

abbrev pub set_status : RequisitionStatus → Depot → Depot
set_status s d = record d { row = record d.row { status = s } }

-- `submit`.
unfoldable pub submit : Depot → Result RequisitionError Depot
submit d = do
  guard (d.operational d.row.hub) bad_request
  guard (one_of (RequisitionStatus.draft ∷ RequisitionStatus.submitted ∷ []) d.row.status)
      bad_request
  guard (not (is_empty d.row.items)) bad_request
  guard (not (is_some (find? (λ (x : Item). leb x.requested 0) d.row.items))) bad_request
  ok (set_status RequisitionStatus.pending_approval d)

-- A quantity for an item.
pub record Line : Type 0 where
  pub item : ℕ
  pub qty : ℕ

abbrev pub approve_item : Line → Item → Item
approve_item l x = record x {
  approved = some l.qty;
  status = if ltb 0 l.qty then ItemStatus.approved else ItemStatus.rejected;
}

-- The loop of `approve`; a line of no item of the requisition is skipped.
abbrev pub approve_lines : List Item → List Line → List Item → List Item
approve_lines old [] items = items
approve_lines old (l ∷ ls) items = approve_lines old ls (
    if is_some (find? (has_id l.item) old)
    then update_item l.item (approve_item l) items
    else items)

-- `approve`.
unfoldable pub approve : List Line → Depot → Result RequisitionError Depot
approve lines d = do
  guard
      (one_of (RequisitionStatus.pending_approval ∷ RequisitionStatus.submitted ∷ []) d.row.status)
      bad_request
  ok (record d {
    row = record d.row {
      items = approve_lines d.row.items lines d.row.items;
      status = RequisitionStatus.approved;
    };
  })

-- `reject`.
unfoldable pub reject : Depot → Result RequisitionError Depot
reject d = do
  guard (one_of (RequisitionStatus.pending_approval ∷ RequisitionStatus.approved ∷ []) d.row.status)
      bad_request
  ok (set_status RequisitionStatus.rejected d)

-- What a transaction writes: the items, the stock and the ledger.
pub record Writes : Type 0 where
  pub items : List Item
  pub stock : Inventory
  pub ledger : List LedgerEntry

abbrev pub allocate_stock : ℕ → Stock → Stock
allocate_stock q s = record s { available = s.available - q; reserved = s.reserved + q }

abbrev pub allocate_writes : ℕ → Line → Item → Stock → Writes → Writes
allocate_writes wh l row s w = record {
  items =
      update_item l.item (λ x. record x { allocated = some l.qty; status = ItemStatus.allocated })
        w.items;
  stock = put_stock wh row.product (allocate_stock l.qty s) w.stock;
  ledger =
      w.ledger
      ++ (record {
        hub = wh;
        product = row.product;
        type = LedgerType.allocate;
        quantity = l.qty;
        opening = s.available;
        closing = s.available - l.qty;
      }
          ∷ []);
}

-- The warehouse's row of a product, locked.
abbrev pub allocate_from : ℕ → Line → Item → Option Stock → Writes → Result RequisitionError Writes
allocate_from wh l row none w = err bad_request
allocate_from wh l row (some s) w =
    if ltb s.available l.qty then err bad_request else ok (allocate_writes wh l row s w)

abbrev pub allocate_line : ℕ → Line → Option Item → Writes → Result RequisitionError Writes
allocate_line wh l none w = ok w
allocate_line wh l (some row) w =
    if ltb (max_allowed row) l.qty
    then err bad_request
    else allocate_from wh l row (w.stock wh row.product) w

-- The loop of `allocate`. `old` is the list of items as it was read before the transaction.
unfoldable pub allocate_lines : ℕ → List Item → List Line → Writes → Result RequisitionError Writes
allocate_lines wh old [] w = ok w
allocate_lines wh old (l ∷ ls) w = do
  w' ← allocate_line wh l (find? (has_id l.item) old) w
  allocate_lines wh old ls w'

abbrev pub writes_of : Depot → Writes
writes_of d = record { items = d.row.items; stock = d.stock; ledger = d.ledger }

abbrev pub or_old : Option ℕ → Option ℕ → Option ℕ
or_old none old = old
or_old (some k) old = some k

-- The depot after a transaction.
abbrev pub written : Writes → RequisitionStatus → Option ℕ → Option ℕ → Depot → Depot
written w s vehicle driver d = record d {
  stock = w.stock;
  ledger = w.ledger;
  row = record d.row {
    items = w.items;
    status = s;
    vehicle = or_old vehicle d.row.vehicle;
    driver = or_old driver d.row.driver;
  };
}

-- `allocate`.
unfoldable pub allocate :
    ℕ → List Line → Option ℕ → Option ℕ → Depot → Result RequisitionError Depot
unfolding allocate_lines
allocate wh lines vehicle driver d = do
  guard (one_of (RequisitionStatus.approved ∷ []) d.row.status) bad_request
  guard (d.operational wh) bad_request
  w ← allocate_lines wh d.row.items lines (writes_of d)
  ok (written w RequisitionStatus.allocated vehicle driver d)

abbrev pub is_active_truck : Option Truck → Bool
is_active_truck none = false
is_active_truck (some t) = t.is_active

abbrev pub truck_ok : Depot → Option ℕ → Bool
truck_ok d none = true
truck_ok d (some v) = is_active_truck (d.truck v)

abbrev pub is_active_driver : Option Bool → Bool
is_active_driver none = false
is_active_driver (some b) = b

abbrev pub driver_ok : Depot → Option ℕ → Bool
driver_ok d none = true
driver_ok d (some k) = is_active_driver (d.driver k)

-- `assignLogistics`; `dated` tells whether the request has a date of dispatch.
unfoldable pub assign_logistics : Option ℕ → Option ℕ → Bool → Depot → Result RequisitionError Depot
assign_logistics vehicle driver dated d = do
  guard (one_of (RequisitionStatus.allocated ∷ []) d.row.status) bad_request
  guard (is_some vehicle || is_some driver || dated) bad_request
  guard (truck_ok d vehicle) bad_request
  guard (driver_ok d driver) bad_request
  ok (record d {
    row = record d.row {
      vehicle = or_old vehicle d.row.vehicle;
      driver = or_old driver d.row.driver;
    };
  })
