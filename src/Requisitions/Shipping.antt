-- ===== src/Requisitions/Shipping.antt =====
-- Dispatch from the warehouse and receipt at the hub (`dispatch`, `receive` of
-- src/modules/requisitions/requisitions.service.ts). The photos and documents of a receipt are left out.
use vikram_backend.Prelude.{
  ℕ, ◌+◌, ◌-◌, ◌*◌, Bool, true, false, not, ◌&&◌, Option, some, none, List, [], ◌∷◌, ◌++◌, ltb, leb,
  ◌==◌, if◌then◌else◌, find?, sum_of, Result, ok, err, ◌>>=◌, ◌>>◌, guard,
}
use vikram_backend.Orders.World.{Stock}
use vikram_backend.Requisitions.Table.{
  RequisitionStatus, ItemStatus, Item, LedgerType, Truck, Depot, RequisitionError, bad_request,
  forbidden, or_else, dispatched_qty, remaining_qty, has_id, update_item, put_stock, same_status,
  one_of,
}
use vikram_backend.Requisitions.Ops.{Writes, writes_of, written, or_old, driver_ok}

-- `capacityBags`: a capacity up to 50 is in tons.
abbrev pub capacity_bags : ℕ → ℕ
capacity_bags c = if ltb 0 c && leb c 50 then c * 1000 else c

-- The vehicle is there and active, and carries the load, or has no capacity on record.
abbrev pub truck_carries : Option Truck → ℕ → Bool
truck_carries none n = false
truck_carries (some t) n =
    t.is_active && not (ltb 0 (capacity_bags t.capacity) && ltb (capacity_bags t.capacity) n)

abbrev pub ship_writes : ℕ → Item → ℕ → Stock → Writes → Writes
ship_writes wh x q s w = record {
  items = update_item x.id (λ y. record y { status = ItemStatus.dispatched }) w.items;
  stock = put_stock wh x.product (record s { reserved = s.reserved - q }) w.stock;
  ledger =
      w.ledger
      ++ (record {
        hub = wh;
        product = x.product;
        type = LedgerType.dispatch;
        quantity = q;
        opening = s.available;
        closing = s.available;
      }
          ∷ []);
}

-- The warehouse's row of the product, locked.
abbrev pub ship_from : ℕ → Item → ℕ → Option Stock → Writes → Result RequisitionError Writes
ship_from wh x q none w = err bad_request
ship_from wh x q (some s) w =
    if ltb s.reserved q then err bad_request else ok (ship_writes wh x q s w)

-- `if (!qty) continue`.
abbrev pub ship_item : ℕ → Item → Writes → Result RequisitionError Writes
ship_item wh x w =
    let q = dispatched_qty x in if leb q 0 then ok w else ship_from wh x q (w.stock wh x.product) w

-- The loop of `dispatch`.
unfoldable pub ship_items : ℕ → List Item → Writes → Result RequisitionError Writes
ship_items wh [] w = ok w
ship_items wh (x ∷ xs) w = do w' ← ship_item wh x w; ship_items wh xs w'

abbrev pub vehicle_of : Depot → Option ℕ → Option Truck
vehicle_of d none = none
vehicle_of d (some v) = d.truck v

abbrev pub has_driver : Depot → Option ℕ → Bool
has_driver d none = false
has_driver d (some k) = driver_ok d (some k)

-- `dispatch`.
unfoldable pub dispatch : ℕ → Option ℕ → Option ℕ → Depot → Result RequisitionError Depot
unfolding ship_items
dispatch wh vehicle driver d = do
  guard (same_status d.row.status RequisitionStatus.allocated) bad_request
  guard (d.operational d.row.hub && d.operational wh) bad_request
  guard
      (truck_carries (vehicle_of d (or_old vehicle d.row.vehicle))
        (sum_of dispatched_qty d.row.items))
      bad_request
  guard (has_driver d (or_old driver d.row.driver)) bad_request
  w ← ship_items wh d.row.items (writes_of d)
  ok (written w RequisitionStatus.in_transit vehicle driver d)

-- `ReceiveRequisitionItemDto`; `remarked` tells whether there are remarks.
pub record Receipt : Type 0 where
  pub item : ℕ
  pub qty : ℕ
  pub shortage : Option ℕ
  pub damage : ℕ
  pub missing : ℕ
  pub remarked : Bool

-- The validation of one line.
abbrev pub receipt_ok : Receipt → Option Item → Bool
receipt_ok r none = false
receipt_ok r (some x) =
    leb r.qty (remaining_qty x)
    && not (
        ltb r.qty (remaining_qty x)
        && not r.remarked
        && ltb 0 (or_else r.shortage (remaining_qty x - r.qty)))

-- The first loop: every line is validated against the items as they were read.
abbrev pub receipts_ok : List Item → List Receipt → Bool
receipts_ok old [] = true
receipts_ok old (r ∷ rs) = receipt_ok r (find? (has_id r.item) old) && receipts_ok old rs

abbrev pub receive_item : Receipt → Item → Item → Item
receive_item r row x = record x {
  received = row.received + r.qty;
  shortage = some (or_else r.shortage (remaining_qty row - r.qty));
  damage = row.damage + r.damage;
  missing = row.missing + r.missing;
  status =
      if leb (dispatched_qty row) (row.received + r.qty)
      then ItemStatus.completed
      else ItemStatus.received;
}

-- `upsert` of the hub's row.
abbrev pub add_stock : ℕ → Option Stock → Stock
add_stock q none = record { available = q; reserved = 0 }
add_stock q (some s) = record s { available = s.available + q }

abbrev pub available_in : Option Stock → ℕ
available_in none = 0
available_in (some s) = s.available

abbrev pub receive_stock : ℕ → Receipt → Item → Writes → Writes
receive_stock hub r row w = record w {
  stock = put_stock hub row.product (add_stock r.qty (w.stock hub row.product)) w.stock;
  ledger =
      w.ledger
      ++ (record {
        hub = hub;
        product = row.product;
        type = LedgerType.receive;
        quantity = r.qty;
        opening = available_in (w.stock hub row.product);
        closing = available_in (w.stock hub row.product) + r.qty;
      }
          ∷ []);
}

abbrev pub receive_line : ℕ → Receipt → Option Item → Writes → Writes
receive_line hub r none w = w
receive_line hub r (some row) w =
    let w' = record w { items = update_item r.item (receive_item r row) w.items } in
    if ltb 0 r.qty then receive_stock hub r row w' else w'

-- The second loop: the new counts are taken from the items as they were read.
unfoldable pub receive_lines : ℕ → List Item → List Receipt → Writes → Writes
receive_lines hub old [] w = w
receive_lines hub old (r ∷ rs) w =
    receive_lines hub old rs (receive_line hub r (find? (has_id r.item) old) w)

abbrev pub total_remaining : List Item → ℕ
total_remaining = sum_of remaining_qty

abbrev pub final_status : List Item → RequisitionStatus
final_status items =
    if ltb 0 (total_remaining items)
    then RequisitionStatus.received
    else RequisitionStatus.completed

abbrev pub received_depot : Writes → Depot → Depot
received_depot w d = written w (final_status w.items) none none d

-- `receive`.
unfoldable pub receive : ℕ → List Receipt → Depot → Result RequisitionError Depot
unfolding receive_lines
receive hub lines d = do
  guard (d.operational hub) bad_request
  guard (d.row.hub == hub) forbidden
  guard
      (not (same_status d.row.status RequisitionStatus.completed)
        && ltb 0 (total_remaining d.row.items))
      bad_request
  guard
      (one_of
        (RequisitionStatus.in_transit ∷ RequisitionStatus.dispatched ∷ RequisitionStatus.received
          ∷ [])
        d.row.status)
      bad_request
  guard (receipts_ok d.row.items lines) bad_request
  ok (received_depot (receive_lines hub d.row.items lines (writes_of d)) d)
