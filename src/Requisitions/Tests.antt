-- ===== src/Requisitions/Tests.antt =====
-- A requisition from its creation to its receipt, and the theorems at it.
use vikram_backend.Prelude.{
  ℕ, ◌+◌, ◌≤◌, ◌≡◌, refl, Bool, true, false, Option, some, none, List, [], ◌∷◌, arith, ◌==◌,
  if◌then◌else◌, All, Result, ok, err,
}
use vikram_backend.Orders.World.{Stock}
use vikram_backend.Orders.Inventory.{units}
use vikram_backend.Requisitions.Table.{
  RequisitionStatus, Item, ItemStatus, Depot, RequisitionError, bad_request, dispatched_qty,
}
use vikram_backend.Requisitions.Ops.{
  ItemInput, Line, create, approve, allocate, allocate_lines, reject, new_requisition,
}
use vikram_backend.Requisitions.Shipping.{Receipt, dispatch, ship_items, receive, receive_lines}
use vikram_backend.Requisitions.Conservation.{
  History, start, later, approves, allocates, dispatches, receives, on_the_way, stock_conserved,
}
use vikram_backend.Requisitions.Stages.{dispatch_once}
use vikram_backend.Requisitions.Limits.{received_within}
use vikram_backend.Requisitions.Duplicates.{receive_twice}

abbrev exists : ℕ → Bool
exists p = true

-- Hub 0 is the warehouse, with 100 units of product 5; hub 1 has none. Hub 1 asks for 40.
abbrev before : Depot
before = record {
  row = new_requisition 1 false [];
  stock = λ h p. if h == 0 then some (record { available = 100; reserved = 0 }) else none;
  ledger = [];
  truck = λ v. some (record { is_active = true; capacity = 2 });
  driver = λ k. some true;
  operational = λ h. true;
}

abbrev asked : List ItemInput
asked = record { id = 7; product = 5; requested = 40 } ∷ []

abbrev forty : List Line
forty = record { item = 7; qty = 40 } ∷ []

abbrev half : List Receipt
half = record { item = 7; qty = 15; shortage = none; damage = 0; missing = 0; remarked = true } ∷ []

abbrev placed : Depot
placed = record before {
  row = new_requisition 1 true (
      record {
        id = 7;
        product = 5;
        requested = 40;
        approved = none;
        allocated = none;
        received = 0;
        damage = 0;
        missing = 0;
        shortage = none;
        status = ItemStatus.pending;
      }
      ∷ []);
}

create_run : create exists 1 true asked before ≡ ok placed
unfolding create
create_run = refl

abbrev or_placed : Result RequisitionError Depot → Depot
or_placed (ok d) = d
or_placed (err e) = placed

abbrev agreed : Depot
agreed = or_placed (approve forty placed)

abbrev loaded : Depot
loaded = or_placed (allocate 0 forty (some 2) (some 3) agreed)

abbrev sent : Depot
sent = or_placed (dispatch 0 none none loaded)

abbrev arrived : Depot
arrived = or_placed (receive 1 half sent)

approve_run : approve forty placed ≡ ok agreed
unfolding approve
approve_run = refl

allocate_run : allocate 0 forty (some 2) (some 3) agreed ≡ ok loaded
unfolding approve allocate allocate_lines
allocate_run = refl

dispatch_run : dispatch 0 none none loaded ≡ ok sent
unfolding approve allocate allocate_lines dispatch ship_items
dispatch_run = refl

receive_run : receive 1 half sent ≡ ok arrived
unfolding approve allocate allocate_lines dispatch ship_items receive receive_lines
receive_run = refl

receiving : History 0 exists sent arrived
receiving = later start (receives 1 half (refl, tt) receive_run)

whole : History 0 exists placed arrived
whole =
    later
      (later
        (later (later start (approves forty approve_run))
          (allocates forty (some 2) (some 3) allocate_run))
        (dispatches none none dispatch_run))
      (receives 1 half (refl, tt) receive_run)

stock_conserved_example :
    units (arrived.stock 0 5) + units (arrived.stock 1 5) + on_the_way 5 arrived
    ≡ units (before.stock 0 5) + units (before.stock 1 5)
stock_conserved_example =
    stock_conserved 0 5 exists 1 true asked before placed arrived refl create_run whole

received_within_example : All (λ x. x.received ≤ dispatched_qty x) arrived.row.items
received_within_example =
    received_within 0 exists 1 true asked before placed arrived refl create_run whole

dispatch_once_example :
    ((u m : Option ℕ) → dispatch 0 u m arrived ≡ err bad_request)
    × ((l : List Line) (u m : Option ℕ) → allocate 0 l u m arrived ≡ err bad_request)
    × (reject arrived ≡ err bad_request)
dispatch_once_example = dispatch_once 0 exists none none loaded sent arrived dispatch_run receiving

abbrev waiting : Item
waiting = record {
  id = 7;
  product = 5;
  requested = 40;
  approved = some 40;
  allocated = some 40;
  received = 0;
  damage = 0;
  missing = 0;
  shortage = none;
  status = ItemStatus.dispatched;
}

abbrev at_gate : Depot
at_gate = record before {
  row = record (new_requisition 1 true (waiting ∷ [])) { status = RequisitionStatus.in_transit };
}

abbrev shelf : Stock
shelf = record { available = 3; reserved = 0 }

receive_twice_example :
    let line : Receipt = record {
      item = 7;
      qty = 40;
      shortage = none;
      damage = 0;
      missing = 0;
      remarked = false;
    } in
    let d = record at_gate { stock = λ h p. some shelf } in
    (d' : Depot) × (receive 1 (line ∷ line ∷ []) d ≡ ok d')
    × (d'.stock 1 5 ≡ some (record shelf { available = 3 + 40 + 40 }))
receive_twice_example =
    receive_twice 1 waiting shelf (record at_gate { stock = λ h p. some shelf }) refl refl refl refl
      refl (omega arith)
